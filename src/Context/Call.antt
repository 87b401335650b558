-- ===== src/Context/Call.antt =====
-- src/detail/client_context.cpp: `TokenFor` and `Call`.
use livekit_server_cpp.Common.{
  Bool, not, ◌||◌, Option, none, some, [], ◌∷◌, ◌++◌, Bytes, codes, if◌then◌else◌, is_empty,
}
use livekit_server_cpp.Common.Decimal.{decimal_int}
use livekit_server_cpp.Common.Int.{pos, ltb_ℤ, leb_ℤ}
use livekit_server_cpp.Context.{ClientContext, RequestGrant, request_id, json_string_field}
use livekit_server_cpp.Error.{ErrorCode, Error, Result, ok, throw, throw_if}
use livekit_server_cpp.Http.{
  HttpRequest, HttpResponse, Machine, Action, ◌>>=◌, ◌>>◌, lift, done, send, read_clock,
}
use livekit_server_cpp.Struct.{JsonLibrary}
use livekit_server_cpp.Token.Access.{
  AccessToken, access_token, set_video_grant, set_sip_grant, set_agent_grant, to_jwt,
}

-- `if (grant.video.has_value()) token.SetVideoGrant(*grant.video);`
abbrev pub give {ℓ} :
    {A : Type ℓ} → (A → AccessToken → AccessToken) → Option A → AccessToken → AccessToken
give set none token = token
give set (some grant) token = set grant token

-- The token that `TokenFor` signs.
unfoldable pub granted_token : ClientContext → RequestGrant → AccessToken
granted_token context grant = give set_agent_grant grant.agent (
    give set_sip_grant grant.sip
      (give set_video_grant grant.video (access_token context.api_key context.api_secret)))

-- The messages of one protobuf method: `SerializeToString` and `ParseFromString`, `none` where they
-- return false.
pub record Codec (Request Response : Type 0) : Type 0 where
  pub serialize : Request → Option Bytes
  pub parse : Bytes → Option Response

-- `status_code < 200 || status_code >= 300`.
abbrev pub is_failure : HttpResponse → Bool
is_failure response = ltb_ℤ response.status_code (pos 200) || leb_ℤ (pos 300) response.status_code

-- The error of such a response.
unfoldable pub http_error : JsonLibrary → HttpResponse → Error
http_error library response =
    let text = json_string_field library response.body (codes "msg") in
    record {
      code = ErrorCode.http;
      message =
          if is_empty text
          then codes "LiveKit server returned HTTP " ++ decimal_int response.status_code
          else text;
      http_status = response.status_code;
      twirp_code = json_string_field library response.body (codes "code");
    }

abbrev pub required {ℓ} : {A : Type ℓ} → ErrorCode → Bytes → Option A → Result A
required code text none =
    throw (record { code = code; message = text; http_status = pos 0; twirp_code = [] })
required code text (some a) = ok a

-- `TokenFor`; `ToJwt()` reads the clock.
unfoldable pub token_for : Machine → ClientContext → RequestGrant → Action Bytes
token_for machine context grant =
    if not (is_empty context.access_token)
    then done context.access_token
    else read_clock machine >>= λ now.
        lift (to_jwt machine.evp machine.ticks_per_second (granted_token context grant) now)

-- The request of a call, from the values of its headers.
unfoldable pub http_request : ClientContext → Bytes → Bytes → Bytes → Bytes → Bytes → HttpRequest
http_request context service method token id body = record {
  url = context.url ++ codes "/twirp/livekit." ++ service ++ b'/' ∷ [] ++ method;
  method = codes "POST";
  headers =
      (codes "Content-Type", codes "application/protobuf")
      ∷ (codes "Accept", codes "application/protobuf")
      ∷ (codes "Authorization", codes "Bearer " ++ token)
      ∷ (codes "X-Livekit-Request-Id", id)
      ∷ (codes "User-Agent", codes "livekit-server-cpp/0.1")
      ∷ [];
  body = body;
  timeout = context.timeout;
}

module _ (library : JsonLibrary) {Request Response : Type 0} (codec : Codec Request Response) where
  -- From the response on.
  unfoldable pub read_response : HttpResponse → Result Response
  read_response response =
      if is_failure response
      then throw (http_error library response)
      else required ErrorCode.protocol (codes "failed to parse protobuf response")
          (codec.parse response.body)

  -- `Call`. `response_given` is false for a null `response`.
  unfoldable pub call :
      Machine → ClientContext → Bytes → Bytes → Request → Bool → RequestGrant → Action Response
  call machine context service method request response_given grant = do
    lift (throw_if (not response_given) ErrorCode.invalid_argument "response must not be null")
    token ← token_for machine context grant
    id ← request_id machine
    body ← lift (
        required ErrorCode.protocol (codes "failed to serialize protobuf request")
          (codec.serialize request))
    reply ← send context.transport (http_request context service method token id body)
    lift (read_response reply)
