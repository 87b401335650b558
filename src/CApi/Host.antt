-- ===== src/CApi/Host.antt =====
-- src/c_api.cpp: what the host of the library provides: a callback, and by way of it a transport.
pub mod RoundTrip
use livekit_server_cpp.CApi.Fields.{
  text, string_field, boolean_field, parse, encode, struct_of, decode_body,
}
use livekit_server_cpp.CApi.Integer.{integer_field}
use livekit_server_cpp.Common.{
  ℕ, ◌≡◌, Bool, true, false, not, ◌||◌, Option, none, some, List, [], ◌∷◌, Bytes, codes, leb, ◌==◌,
  if◌then◌else◌, length,
}
use livekit_server_cpp.Common.Decimal.{decimal_int}
use livekit_server_cpp.Common.Int.{ℤ, pos, ltb_ℤ, int_max}
use livekit_server_cpp.Crypto.{base64_url_encode}
use livekit_server_cpp.Error.{ErrorCode, Result, ok, throw, undefined, fail, ◌>>=◌, ◌>>◌, throw_if}
use livekit_server_cpp.Http.{HttpHeaders, HttpRequest, HttpResponse, HttpTransport}
use livekit_server_cpp.Struct.{Value, Values, Struct, JsonLibrary}

-- What an `lks_callback` returns and stores: a number, and a buffer of `response_length` bytes where
-- the pointer is not null.
pub record Reply : Type 0 where
  pub returned : ℤ
  pub response : Option Bytes

abbrev pub callback_failed {ℓ} : {A : Type ℓ} → Result A
callback_failed = fail ErrorCode.transport "C ABI callback failed or returned an invalid buffer"

-- The lambda of `lks_invoke` around the host's callback.
unfoldable pub checked_reply : Reply → Result Bytes
checked_reply reply = elim reply.response [
  | none ↦ callback_failed
  | some response ↦
      if ltb_ℤ reply.returned (pos 0)
        || ltb_ℤ (pos 0) reply.returned
        || not (leb (length response) int_max)
      then callback_failed
      else ok response
]

-- A `Callback`; `none` is an empty function. An invocation calls it once at most.
abbrev pub Callback : Type 0
Callback = Option (Bytes → Reply)

module _ (json : JsonLibrary) (callback : Callback) where
  -- `Exchange`.
  unfoldable pub exchange : Struct → Result Struct
  exchange request = elim callback [
    | none ↦ fail ErrorCode.invalid_argument "C ABI callback is required"
    | some host ↦ do
      content ← encode json request
      response ← checked_reply (host content)
      result ← parse json response
      failed ← boolean_field result "error"
      throw_if failed ErrorCode.transport "C ABI callback failed"
      ok result
  ]

-- The headers as pairs of texts.
unfoldable pub header_values : HttpHeaders → Values
header_values [] = Values.nil
header_values ((name, value) ∷ headers) =
    Values.cons (Value.list (Values.cons (text name) (Values.cons (text value) Values.nil)))
      (header_values headers)

-- The request that the host gets.
unfoldable pub transport_request : HttpRequest → Struct
transport_request request = struct_of (
    ("kind", text (codes "transport"))
    ∷ ("url", text request.url)
    ∷ ("method", text request.method)
    ∷ ("body", text (base64_url_encode request.body))
    ∷ ("timeout_ms", text (decimal_int request.timeout))
    ∷ ("headers", Value.list (header_values request.headers))
    ∷ [])

-- The response that the host gave.
unfoldable pub transport_response : Struct → Result HttpResponse
transport_response response = do
  status ← integer_field response "status_code"
  throw_if (ltb_ℤ status (pos 100) || ltb_ℤ (pos 599) status) ErrorCode.transport
      "C ABI transport returned invalid HTTP status"
  body ← decode_body response "body"
  ok (record { status_code = status; headers = []; body = body })

-- `CallbackTransport::Send`.
unfoldable pub callback_transport : JsonLibrary → Callback → HttpTransport
callback_transport json callback sent request =
    exchange json callback (transport_request request) >>= transport_response
