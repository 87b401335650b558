-- ===== src/CApi/Options.antt =====
-- src/c_api.cpp: `Options` and `Failure`; and `LiveKitApi` from src/livekit_api.cpp.
use livekit_server_cpp.CApi.Fields.{text, string_field, boolean_field, struct_of}
use livekit_server_cpp.CApi.Host.{Callback, callback_transport}
use livekit_server_cpp.CApi.Integer.{integer_field}
use livekit_server_cpp.Common.Int.{pos}
use livekit_server_cpp.Common.{false, none, some, [], ◌∷◌, if◌then◌else◌}
use livekit_server_cpp.Context.Create.{client_context}
use livekit_server_cpp.Error.{Error, Result, ok, ◌>>=◌, error_code_value}
use livekit_server_cpp.Http.{ApiOptions, Machine}
use livekit_server_cpp.Services.{Client}
use livekit_server_cpp.Struct.{Value, Struct, JsonLibrary}

-- `Options`.
unfoldable pub options_of : JsonLibrary → Callback → Struct → Result ApiOptions
options_of json callback options = do
  url ← string_field options "url"
  api_key ← string_field options "api_key"
  api_secret ← string_field options "api_secret"
  access_token ← string_field options "access_token"
  timeout ← integer_field options "timeout_ms"
  use_transport ← boolean_field options "use_transport"
  ok (record {
    url = url;
    api_key = api_key;
    api_secret = api_secret;
    access_token = access_token;
    timeout = timeout;
    transport = if use_transport then some (callback_transport json callback) else none;
  })

-- `LiveKitApi(ApiOptions options)`: one context, which all its clients share.
unfoldable pub live_kit_api : Machine → JsonLibrary → ApiOptions → Result Client
live_kit_api machine json options = do
  context ← client_context machine options
  ok (record { machine = machine; library = json; context = context })

-- `Failure`.
unfoldable pub failure : Error → Struct
failure error = struct_of (
    ("ok", Value.bool false)
    ∷ ("code", Value.number (pos (error_code_value error.code)))
    ∷ ("http_status", Value.number error.http_status)
    ∷ ("twirp_code", text error.twirp_code)
    ∷ ("message", text error.message)
    ∷ [])
