-- ===== src/CApi/Host/RoundTrip.antt =====
-- What the host answers, as the transport returns it.
use livekit_server_cpp.CApi.Fields.{bool_or_unset}
use livekit_server_cpp.CApi.Host.{callback_failed, Reply}
use livekit_server_cpp.Http.{HttpRequest}
use livekit_server_cpp.Struct.{JsonLibrary}
use livekit_server_cpp.CApi.Fields.{boolean_field}
use livekit_server_cpp.CApi.Host.{checked_reply}
use livekit_server_cpp.CApi.Fields.{parse}
use livekit_server_cpp.CApi.Fields.{encode}
use livekit_server_cpp.CApi.Host.{exchange}
use livekit_server_cpp.CApi.Host.{callback_transport}
use livekit_server_cpp.CApi.Fields.{
  text, field_of, string_or_unset, string_field, as_string, decode_body,
}
use livekit_server_cpp.CApi.Host.{transport_request, transport_response}
use livekit_server_cpp.CApi.Integer.{integer_field}
use livekit_server_cpp.CApi.Integer.RoundTrip.{integer_of-decimal_int}
use livekit_server_cpp.Common.Decimal.{decimal_int}
use livekit_server_cpp.Common.Int.{int_max, ℤ, pos}
use livekit_server_cpp.Common.{
  refl, List, none, some, true, length, leb, ℕ, ◌≡◌, ◌≤◌, codes, arith, [], Bytes, IsBytes,
}
use livekit_server_cpp.Common.Lists.{equal}
use livekit_server_cpp.Crypto.RoundTrip.{base64_url_decode-base64_url_encode}
use livekit_server_cpp.Crypto.{base64_url_encode}
use livekit_server_cpp.Error.{ok}
use livekit_server_cpp.Struct.{Struct, find_field}

-- The answer that a host writes for a status and a body.
abbrev pub answer_of : ℕ → Bytes → Struct
answer_of status body =
    Struct.field (codes "status_code") (text (decimal_int (pos status)))
      (Struct.field (codes "body") (text (base64_url_encode body)) Struct.empty)

-- A host's answer of a status from 100 to 599 and a body of bytes is returned as that response.
pub transport_response-answer_of :
    (status : ℕ) (body : Bytes)
    → 100 ≤ status
    → status ≤ 599
    → IsBytes body
    → transport_response (answer_of status body)
      ≡ ok (record { status_code = pos status; headers = []; body = body })
unfolding transport_response integer_field decode_body string_field field_of string_or_unset
    as_string find_field equal
transport_response-answer_of status body low high bytes = ground (
  arith,
  integer_of-decimal_int (pos status) (omega arith),
  base64_url_decode-base64_url_encode body bytes,
)

-- A reply without a response fails.
pub callback_transport-failed :
    (json : JsonLibrary) (host : Bytes → Reply) (sent : List HttpRequest) (request : HttpRequest)
    (content : Bytes) (code : ℤ)
    → json.from_struct (transport_request request) ≡ some content
    → host content ≡ record { returned = code; response = none }
    → callback_transport json (some host) sent request ≡ callback_failed
unfolding callback_transport exchange encode checked_reply
callback_transport-failed json host sent request content code printed replied =
    rw (printed, encode, replied) refl

pub callback_transport-answered :
    (json : JsonLibrary) (host : Bytes → Reply) (sent : List HttpRequest) (request : HttpRequest)
    (content answer : Bytes) (status : ℕ) (body : Bytes)
    → json.from_struct (transport_request request) ≡ some content
    → host content ≡ record { returned = pos 0; response = some answer }
    → length answer ≤ int_max
    → json.to_struct answer ≡ some (answer_of status body)
    → 100 ≤ status
    → status ≤ 599
    → IsBytes body
    → callback_transport json (some host) sent request
      ≡ ok (record { status_code = pos status; headers = []; body = body })
unfolding callback_transport exchange encode parse checked_reply boolean_field field_of
    bool_or_unset find_field equal
callback_transport-answered json host sent request content answer status body printed replied fits
      read low high bytes =
    let small : leb (length answer) int_max ≡ true = ground arith in
    rw (printed, encode, replied, small, read, parse)
      (transport_response-answer_of status body low high bytes)
