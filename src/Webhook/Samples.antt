-- ===== src/Webhook/Samples.antt =====
-- A receiver, a token and an event for concrete runs.
use livekit_server_cpp.Common.{
  subst, arith, Bool, true, false, Option, none, some, [], ◌∷◌, ◌++◌, Bytes, IsBytes, codes,
  if◌then◌else◌,
}
use livekit_server_cpp.Common.Lists.{equal}
use livekit_server_cpp.Common.Int.{pos}
use livekit_server_cpp.Crypto.{base64, base64_encode, base64_url_encode}
use livekit_server_cpp.Struct.{Value, Struct, find_field}
use livekit_server_cpp.Token.Access.{jwt_header}
use livekit_server_cpp.Webhook.Accept.{IsBackend}
use livekit_server_cpp.Webhook.{Backend, KeyProvider, Message, Parsed, WebhookEvent, single_key}

-- Thirty-two bytes, as a digest and a code.
abbrev pub digest_bytes : Bytes
digest_bytes = codes "0123456789abcdef0123456789abcdef"

abbrev a_message : Message
a_message = record {
  event = codes "room_started";
  id = codes "EV_1";
  created_at = pos 5;
  room = none;
  participant = none;
  track = none;
  egress_info = none;
  ingress_info = none;
}

abbrev header_fields : Struct
header_fields = Struct.field (codes "alg") (Value.string (codes "HS256")) Struct.empty

abbrev claims_fields : Struct
claims_fields =
    Struct.field (codes "iss") (Value.string (codes "key"))
      (Struct.field (codes "sha256") (Value.string (base64_encode digest_bytes)) Struct.empty)

-- A library that reads every text but the header as the same claims.
abbrev pub a_backend : Backend
a_backend = record {
  evp = record { digest = λ value. some digest_bytes; mac = λ secret value. some digest_bytes };
  json = record {
    to_struct = λ json. some (if equal json jwt_header then header_fields else claims_fields);
    from_struct = λ object. none;
  };
  parse_event = λ body. Parsed.message a_message;
  ticks_per_second = 1000;
}

abbrev pub provider : KeyProvider
provider = single_key (codes "key") (codes "secret")

-- A text that is found, a struct that is read and a code that is made hold bytes.
abbrev TextBytes : Option Value → Type 0
TextBytes (some (Value.string text)) = IsBytes text
TextBytes _ = Unit {0}

abbrev StructBytes : Option Struct → Type 0
StructBytes none = Unit {0}
StructBytes (some object) = (name : Bytes) → TextBytes (find_field name object)

abbrev CodeBytes : Option Bytes → Type 0
CodeBytes none = Unit {0}
CodeBytes (some out) = IsBytes out

text_if :
    (b : Bool) (x y : Option Value) → TextBytes x → TextBytes y → TextBytes (if b then x else y)
text_if true x y h k = h
text_if false x y h k = k

struct_if :
    (b : Bool) (x y : Struct)
    → StructBytes (some x)
    → StructBytes (some y)
    → StructBytes (some (if b then x else y))
struct_if true x y h k = h
struct_if false x y h k = k

header_bytes : StructBytes (some header_fields)
unfolding find_field
header_bytes name = text_if (equal (codes "alg") name) _ _ (omega arith) tt

digest-IsBytes : IsBytes digest_bytes
digest-IsBytes = omega arith

checksum-IsBytes : IsBytes (base64_encode digest_bytes)
unfolding base64_encode base64
checksum-IsBytes = omega arith

claims_bytes : StructBytes (some claims_fields)
unfolding find_field
claims_bytes name =
    text_if (equal (codes "iss") name) _ _ (omega arith)
      (text_if (equal (codes "sha256") name) _ _ checksum-IsBytes tt)

pub a_backend-IsBackend : IsBackend a_backend
a_backend-IsBackend = record {
  mac_bytes = λ secret value out h. subst CodeBytes h digest-IsBytes;
  text_bytes = λ json name text object read found. subst TextBytes found (
      subst StructBytes read (struct_if (equal json jwt_header) _ _ header_bytes claims_bytes)
        name);
}

abbrev claims_json : Bytes
claims_json = codes "{\"iss\":\"key\",\"exp\":130,\"nbf\":-7}"

abbrev pub a_body : Bytes
a_body = codes "{}"

abbrev pub an_authorization : Bytes
an_authorization =
    codes "Bearer "
    ++ base64_url_encode jwt_header
    ++ b'.' ∷ []
    ++ base64_url_encode claims_json
    ++ b'.' ∷ []
    ++ base64_url_encode digest_bytes

abbrev pub an_event : WebhookEvent
an_event = record {
  event = codes "room_started";
  id = codes "EV_1";
  created_at = pos 5;
  room = none;
  participant = none;
  track = none;
  egress = none;
  ingress = none;
  raw_body = a_body;
}
