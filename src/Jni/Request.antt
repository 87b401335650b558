-- ===== src/Jni/Request.antt =====
-- A request of the transport over a callback, as the binding for Java sends it on.
use livekit_server_cpp.CApi.Fields.{struct_of}
use livekit_server_cpp.CApi.Host.{header_values, transport_request}
use livekit_server_cpp.Common.Int.{IsInt64}
use livekit_server_cpp.Common.Lists.{equal}
use livekit_server_cpp.Common.{◌≡◌, refl, ap, [], ◌∷◌, IsBytes}
use livekit_server_cpp.Crypto.RoundTrip.{base64_url_decode-base64_url_encode}
use livekit_server_cpp.Error.{ok}
use livekit_server_cpp.Http.{HttpHeaders, HttpRequest}
use livekit_server_cpp.Jni.Event.{long_of-decimal_int}
use livekit_server_cpp.Jni.{
  string_value, list_value, field_or_empty, string_of, first_value, second_value, headers_from,
  request_from,
}
use livekit_server_cpp.Struct.{find_field}

headers_from-header_values :
    (headers : HttpHeaders) → headers_from (header_values headers) ≡ headers
unfolding headers_from header_values string_value first_value second_value list_value
headers_from-header_values [] = refl
headers_from-header_values ((name, value) ∷ headers) =
    ap (λ rest. (name, value) ∷ rest) (headers_from-header_values headers)

-- The binding sends on the request that the client sent: what it reads back from the object that the
-- C API passes to the host is that request, if the body is bytes and the timeout fits 64 bits.
pub request_from-transport_request :
    (request : HttpRequest)
    → IsBytes request.body
    → IsInt64 request.timeout
    → request_from (transport_request request) ≡ ok request
unfolding request_from transport_request string_of field_or_empty string_value list_value find_field
    struct_of equal
request_from-transport_request request bytes fits =
    rw
      (
        base64_url_decode-base64_url_encode request.body bytes,
        long_of-decimal_int request.timeout fits,
        headers_from-header_values request.headers,
      )
      refl
