-- ===== src/Context/Create.antt =====
-- src/detail/client_context.cpp: the constructor of `ClientContext`.
use livekit_server_cpp.Common.{
  Bool, ◌&&◌, ◌||◌, Option, none, some, Bytes, codes, if◌then◌else◌, is_empty,
}
use livekit_server_cpp.Common.Int.{pos, leb_ℤ}
use livekit_server_cpp.Context.Url.{normalize_url}
use livekit_server_cpp.Context.{ClientContext, Credentials, credentials, environment}
use livekit_server_cpp.Error.{ErrorCode, Result, ok, ◌>>=◌, ◌>>◌, throw_if}
use livekit_server_cpp.Http.{ApiOptions, HttpTransport, Machine}

abbrev pub chosen_url : Machine → ApiOptions → Bytes
chosen_url machine options =
    if is_empty options.url then environment machine (codes "LIVEKIT_URL") else options.url

abbrev pub chosen_transport : Machine → Option HttpTransport → Result HttpTransport
chosen_transport machine none = machine.default_transport
chosen_transport machine (some transport) = ok transport

-- Neither a token nor both of key and secret.
abbrev pub insufficient : Credentials → Bool
insufficient c = is_empty c.access_token && (is_empty c.api_key || is_empty c.api_secret)

-- `ClientContext(ApiOptions options)`.
unfoldable pub client_context : Machine → ApiOptions → Result ClientContext
client_context machine options = do
  let url = chosen_url machine options
  throw_if (is_empty url) ErrorCode.invalid_argument
      "LiveKit URL is required (ApiOptions::url or LIVEKIT_URL)"
  normalized ← normalize_url url
  let c = credentials machine options
  throw_if (insufficient c) ErrorCode.authentication
      "provide an access token or both an API key and secret"
  throw_if (leb_ℤ options.timeout (pos 0)) ErrorCode.invalid_argument
      "HTTP timeout must be positive"
  transport ← chosen_transport machine options.transport
  ok (record {
    url = normalized;
    api_key = c.api_key;
    api_secret = c.api_secret;
    access_token = c.access_token;
    timeout = options.timeout;
    transport = transport;
  })
