-- ===== src/Jni.antt =====
-- pkg/java/src/main/cpp/livekit_server_jni.cpp: how the binding for Java reads the JSON objects of the C
-- API. Its calls of the Java machine and its native methods are in the modules below.
pub mod Event
pub mod Request
pub mod Response
pub mod Options
pub mod Machine
pub mod Transport
pub mod Exchange
pub mod Invoke
pub mod Call
pub mod Relay
pub mod Defaults
pub mod Token
pub mod Passage
pub mod Receive
mod Runs
use Prim.Native.String.{String}
use livekit_server_cpp.CApi.Fields.{text, struct_of}
use livekit_server_cpp.CApi.Integer.{stoll}
use livekit_server_cpp.Common.Decimal.{decimal_int}
use livekit_server_cpp.Common.Int.{ℤ, pos}
use livekit_server_cpp.Common.{
  ℕ, ◌+◌, ◌-◌, Bool, true, false, ◌&&◌, ◌||◌, Option, none, some, List, [], ◌∷◌, ◌++◌, Bytes, codes,
  leb, ◌⊎◌, inl, inr, if◌then◌else◌, equal,
}
use livekit_server_cpp.Crypto.{base64_url_decode, base64_url_encode}
use livekit_server_cpp.Error.{ErrorCode, Error, Result, ok, throw, fail, ◌>>=◌}
use livekit_server_cpp.Http.{HttpHeaders, HttpRequest, HttpResponse}
use livekit_server_cpp.Struct.{Value, Values, Struct, find_field}
use livekit_server_cpp.Webhook.{
  WebhookRoom, WebhookParticipant, WebhookTrack, WebhookEgress, WebhookIngress, WebhookEvent,
}

-- protobuf's `string_value()`, `struct_value()` and `list_value()`, which are empty for other kinds.
unfoldable pub string_value : Value → Bytes
string_value (Value.string content) = content
string_value _ = []

unfoldable pub struct_value : Value → Struct
struct_value (Value.struct object) = object
struct_value _ = Struct.empty

unfoldable pub list_value : Value → Values
list_value (Value.list items) = items
list_value _ = Values.nil

-- `Field`.
unfoldable pub field_or_empty : Struct → String → Value
field_or_empty object key = elim (find_field (codes key) object) [
  | none ↦ Value.not_set
  | some value ↦ value
]

-- `String`.
unfoldable pub string_of : Struct → String → Bytes
string_of object key = string_value (field_or_empty object key)

-- `std::stoll` where its end is not asked for; `none` is an exception.
unfoldable pub long_of : Bytes → Result ℤ
long_of content = elim (stoll content) [
  | none ↦ fail ErrorCode.unknown "stoll"
  | some (value, behind) ↦ ok value
]

-- `if (obj.fields().contains(key)) { const auto& v = Field(obj, key).struct_value(); ... }`
unfoldable pub member_from : {A : Type 0} → (Struct → A) → Option Value → Option A
member_from read none = none
member_from read (some value) = some (read (struct_value value))

unfoldable pub member_of : {A : Type 0} → String → (Struct → A) → Struct → Option A
member_of key read object = member_from read (find_field (codes key) object)

unfoldable pub room_of : Struct → WebhookRoom
room_of v = record {
  sid = string_of v "sid";
  name = string_of v "name";
  metadata = string_of v "metadata";
}

unfoldable pub participant_of : Struct → WebhookParticipant
participant_of v = record {
  sid = string_of v "sid";
  identity = string_of v "identity";
  name = string_of v "name";
  metadata = string_of v "metadata";
}

unfoldable pub track_of : Struct → WebhookTrack
track_of v = record { sid = string_of v "sid"; name = string_of v "name" }

unfoldable pub egress_of : Struct → WebhookEgress
egress_of v = record {
  egress_id = string_of v "egress_id";
  room_id = string_of v "room_id";
  room_name = string_of v "room_name";
}

unfoldable pub ingress_of : Struct → WebhookIngress
ingress_of v = record {
  ingress_id = string_of v "ingress_id";
  name = string_of v "name";
  room_name = string_of v "room_name";
}

-- The event of `Native.receive`, from the object that the C API returned.
unfoldable pub event_from : Struct → Result WebhookEvent
event_from obj = long_of (string_of obj "created_at") >>= λ created_at. ok (record {
  event = string_of obj "event";
  id = string_of obj "id";
  created_at = created_at;
  room = member_of "room" room_of obj;
  participant = member_of "participant" participant_of obj;
  track = member_of "track" track_of obj;
  egress = member_of "egress" egress_of obj;
  ingress = member_of "ingress" ingress_of obj;
  raw_body = string_of obj "raw_body";
})

-- `values(n)`, where it is there.
unfoldable pub first_value : Values → Value
first_value Values.nil = Value.not_set
first_value (Values.cons value values) = value

unfoldable pub second_value : Values → Value
second_value Values.nil = Value.not_set
second_value (Values.cons value values) = first_value values

-- The loop over the headers in `Exchange`.
unfoldable pub headers_from : Values → HttpHeaders
headers_from Values.nil = []
headers_from (Values.cons pair pairs) =
    (string_value (first_value (list_value pair)), string_value (second_value (list_value pair)))
    ∷ headers_from pairs

-- The request of `Exchange`, from the object that the C API passed.
unfoldable pub request_from : Struct → Result HttpRequest
request_from input = base64_url_decode (string_of input "body") >>= λ body.
    long_of (string_of input "timeout_ms") >>= λ timeout. ok (record {
      url = string_of input "url";
      method = string_of input "method";
      headers = headers_from (list_value (field_or_empty input "headers"));
      body = body;
      timeout = timeout;
    })

-- The answer of `Exchange` to a request, from a response.
unfoldable pub response_fields : HttpResponse → Struct
response_fields response = struct_of (
    ("status_code", text (decimal_int response.status_code))
    ∷ ("body", text (base64_url_encode response.body))
    ∷ [])

-- What `Raise` throws in Java.
pub record LiveKitException : Type 0 where
  pub message : Bytes
  pub code : ℤ
  pub http_status : ℤ
  pub twirp_code : Bytes

unfoldable pub bool_value : Value → Bool
bool_value (Value.bool b) = b
bool_value _ = false

unfoldable pub number_value : Value → ℤ
number_value (Value.number n) = n
number_value _ = pos 0

-- The end of `Invoke`: the value of the response, or the error that it names. The numbers are in the
-- range of an `int`, and the code is one of `ErrorCode`.
unfoldable pub response_from : Struct → Value ⊎ LiveKitException
response_from response =
    if bool_value (field_or_empty response "ok")
    then inl (field_or_empty response "value")
    else inr (record {
      message = string_of response "message";
      code = number_value (field_or_empty response "code");
      http_status = number_value (field_or_empty response "http_status");
      twirp_code = string_of response "twirp_code";
    })
