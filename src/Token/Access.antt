-- ===== src/Token/Access.antt =====
-- src/access_token.cpp: the class `AccessToken`, its claims and the signed token.
use livekit_server_cpp.Common.{
  ℕ, Bool, true, false, not, ◌||◌, List, [], ◌∷◌, ◌++◌, Option, none, some, if◌then◌else◌, Bytes,
  codes, is_empty,
}
use livekit_server_cpp.Common.Decimal.{decimal_int}
use livekit_server_cpp.Common.Int.{ℤ, pos, ◌+ℤ◌, leb_ℤ, fits_int64, trunc_div}
use livekit_server_cpp.Crypto.{Evp, base64_url_encode, hmac_sha256}
use livekit_server_cpp.Error.{ErrorCode, Result, ok, undefined, ◌>>=◌, ◌>>◌, throw_if}
use livekit_server_cpp.Token.{
  VideoGrant, SipGrant, AgentGrant, Writer, escape_json, quoted, comma, add_bool, video_grant_json,
}

-- The attributes are the pairs of the `std::map`, in its order of iteration. Times are in seconds.
pub record AccessToken : Type 0 where
  pub api_key : Bytes
  pub api_secret : Bytes
  pub identity : Bytes
  pub name : Bytes
  pub metadata : Bytes
  pub attributes : List (Bytes × Bytes)
  pub valid_for : ℤ
  pub video_grant : Option VideoGrant
  pub sip_grant : Option SipGrant
  pub agent_grant : Option AgentGrant

-- The constructor; a token is valid for six hours unless it is told otherwise.
unfoldable pub access_token : Bytes → Bytes → AccessToken
access_token api_key api_secret = record {
  api_key = api_key;
  api_secret = api_secret;
  identity = [];
  name = [];
  metadata = [];
  attributes = [];
  valid_for = pos 21600;
  video_grant = none;
  sip_grant = none;
  agent_grant = none;
}

unfoldable pub set_identity : Bytes → AccessToken → AccessToken
set_identity identity token = record token { identity = identity }

unfoldable pub set_name : Bytes → AccessToken → AccessToken
set_name name token = record token { name = name }

unfoldable pub set_metadata : Bytes → AccessToken → AccessToken
set_metadata metadata token = record token { metadata = metadata }

unfoldable pub set_attributes : List (Bytes × Bytes) → AccessToken → AccessToken
set_attributes attributes token = record token { attributes = attributes }

unfoldable pub set_valid_for : ℤ → AccessToken → Result AccessToken
set_valid_for valid_for token = do
  throw_if (leb_ℤ valid_for (pos 0)) ErrorCode.invalid_argument "token lifetime must be positive"
  ok (record token { valid_for = valid_for })

unfoldable pub set_video_grant : VideoGrant → AccessToken → AccessToken
set_video_grant grant token = record token { video_grant = some grant }

unfoldable pub set_sip_grant : SipGrant → AccessToken → AccessToken
set_sip_grant grant token = record token { sip_grant = some grant }

unfoldable pub set_agent_grant : AgentGrant → AccessToken → AccessToken
set_agent_grant grant token = record token { agent_grant = some grant }

-- `if (!value.empty()) claims << ",\"name\":\"" << EscapeJson(value) << '"';`
unfoldable pub add_claim : Bytes → Bytes → Bytes → Bytes
add_claim name value claims =
    if not (is_empty value)
    then claims ++ b',' ∷ [] ++ quoted name ++ b':' ∷ [] ++ quoted (escape_json value)
    else claims

-- The loop over the attributes.
unfoldable pub add_attributes : Bool → List (Bytes × Bytes) → Bytes → Bytes
add_attributes first [] claims = claims
add_attributes first ((key, value) ∷ attributes) claims =
    add_attributes false attributes
      (claims ++ comma first ++ quoted (escape_json key) ++ b':' ∷ [] ++ quoted (escape_json value))

unfoldable pub add_attribute_claim : List (Bytes × Bytes) → Bytes → Bytes
add_attribute_claim attributes claims =
    if not (is_empty attributes)
    then add_attributes true attributes (claims ++ codes ",\"attributes\":{") ++ b'}' ∷ []
    else claims

unfoldable pub add_video_claim : Option VideoGrant → Bytes → Bytes
add_video_claim none claims = claims
add_video_claim (some grant) claims = claims ++ codes ",\"video\":" ++ video_grant_json grant

unfoldable pub add_sip_claim : Option SipGrant → Bytes → Bytes
add_sip_claim none claims = claims
add_sip_claim (some grant) claims =
    let w : Writer = record { json = claims ++ codes ",\"sip\":{"; first = true } in
    (add_bool "call" grant.call false (add_bool "admin" grant.admin false w)).json ++ b'}' ∷ []

unfoldable pub add_agent_claim : Option AgentGrant → Bytes → Bytes
add_agent_claim none claims = claims
add_agent_claim (some grant) claims =
    let w : Writer = record { json = claims ++ codes ",\"agent\":{"; first = true } in
    (add_bool "simulationAdmin" grant.simulation_admin false
      (add_bool "admin" grant.admin false w)).json
    ++ b'}' ∷ []

-- The stream `claims` of `ToJwt`, from the two times that it has computed.
unfoldable pub claims_text : AccessToken → ℤ → ℤ → Bytes
claims_text token issued_at expires_at =
    let start =
      codes "{\"iss\":"
      ++ quoted (escape_json token.api_key)
      ++ codes ",\"nbf\":"
      ++ decimal_int issued_at
      ++ codes ",\"exp\":"
      ++ decimal_int expires_at
      ++ codes ",\"iat\":"
      ++ decimal_int issued_at in
    let named =
      add_claim (codes "metadata") token.metadata
        (add_claim (codes "name") token.name (add_claim (codes "sub") token.identity start)) in
    let granted = add_agent_claim token.agent_grant (
      add_sip_claim token.sip_grant
        (add_video_claim token.video_grant (add_attribute_claim token.attributes named))) in
    granted ++ b'}' ∷ []

-- `a + b` on `std::int64_t`.
unfoldable pub add_int64 : ℤ → ℤ → Result ℤ
add_int64 a b = if fits_int64 (a +ℤ b) then ok (a +ℤ b) else undefined

abbrev pub jwt_header : Bytes
jwt_header = codes "{\"alg\":\"HS256\",\"typ\":\"JWT\"}"

-- `ToJwt(now)`. A time point is a number of ticks since the epoch; how many make a second is up to
-- the C++ library.
module _ (evp : Evp) (ticks_per_second : ℕ) where
  unfoldable pub to_jwt : AccessToken → ℤ → Result Bytes
  to_jwt token now = do
    throw_if (is_empty token.api_key || is_empty token.api_secret) ErrorCode.authentication
        "API key and secret are required to sign a token"
    let issued_at = trunc_div now ticks_per_second
    expires_at ← add_int64 issued_at token.valid_for
    let claims = claims_text token issued_at expires_at
    let unsigned_token = base64_url_encode jwt_header ++ b'.' ∷ [] ++ base64_url_encode claims
    signature ← hmac_sha256 evp token.api_secret unsigned_token
    ok (unsigned_token ++ b'.' ∷ [] ++ base64_url_encode signature)
