-- ===== src/CApi/Samples.antt =====
-- Options, a host and libraries for concrete runs.
use livekit_server_cpp.CApi.Fields.{text, struct_of}
use livekit_server_cpp.CApi.Host.{Callback}
use livekit_server_cpp.CApi.Invoke.{Linked}
use livekit_server_cpp.CApi.Operations.{Protocol}
use livekit_server_cpp.Common.Int.{pos}
use livekit_server_cpp.Common.{true, none, some, [], ◌∷◌, ◌++◌, Bytes, codes, if◌then◌else◌}
use livekit_server_cpp.Common.Lists.{equal}
use livekit_server_cpp.Crypto.{Evp, base64_url_encode}
use livekit_server_cpp.Error.{ErrorCode, fail}
use livekit_server_cpp.Http.{World}
use livekit_server_cpp.Services.Model.{MessageType, Converted}
use livekit_server_cpp.Struct.{Value, Struct, JsonLibrary}
use livekit_server_cpp.Token.Access.{jwt_header}
use livekit_server_cpp.Webhook.{Parsed}

abbrev pub a_mac : Bytes
a_mac = codes "0123456789abcdef0123456789abcdef"

abbrev pub an_evp : Evp
an_evp = record { digest = λ value. some a_mac; mac = λ secret value. some a_mac }

abbrev pub token_options : Struct
token_options = struct_of (
    ("api_key", text (codes "k"))
    ∷ ("api_secret", text (codes "s"))
    ∷ ("valid_for", text (codes "60"))
    ∷ ("now", text (codes "5"))
    ∷ ("sip", Value.struct (struct_of (("admin", Value.bool true) ∷ [])))
    ∷ [])

abbrev pub a_jwt : Bytes
a_jwt =
    base64_url_encode jwt_header
    ++ b'.' ∷ []
    ++ base64_url_encode
        (codes "{\"iss\":\"k\",\"nbf\":5,\"exp\":65,\"iat\":5,\"sip\":{\"admin\":true}}")
    ++ b'.' ∷ []
    ++ base64_url_encode a_mac

abbrev pub token_input : Struct
token_input =
    struct_of (("operation", text (codes "token")) ∷ ("options", Value.struct token_options) ∷ [])

-- A call of a method, by way of the host.
abbrev pub call_input : Struct
call_input = struct_of (
    ("operation", text (codes "Room.ListRooms"))
    ∷ (
      "options",
      Value.struct (
          struct_of (
            ("url", text (codes "https://host"))
            ∷ ("access_token", text (codes "t"))
            ∷ ("timeout_ms", text (codes "9"))
            ∷ ("use_transport", Value.bool true)
            ∷ [])),
    )
    ∷ ("request", text (codes "{}"))
    ∷ [])

abbrev host_answer : Struct
host_answer =
    struct_of (
      ("status_code", text (codes "200")) ∷ ("body", text (base64_url_encode (codes "rooms"))) ∷ [])

-- It reads three texts, and prints every object as one text.
abbrev pub a_json : JsonLibrary
a_json = record {
  to_struct = λ content.
      if equal content (codes "token")
      then some token_input
      else if equal content (codes "call")
      then some call_input
      else if equal content (codes "answer")
      then some host_answer
      else none;
  from_struct = λ object. some (codes "printed");
}

abbrev pub a_host : Callback
a_host = some (λ request. record { returned = pos 0; response = some (codes "answer") })

-- Every message is the text that it is sent as.
abbrev pub bytes_type : MessageType Bytes
bytes_type = record {
  full_name = codes "Message";
  from_text = λ json. Converted.converted json;
  to_text = λ message. Converted.converted message;
}

abbrev pub a_protocol : Protocol
a_protocol = record {
  Request = λ operation. Bytes;
  Response = λ operation. Bytes;
  request_type = λ operation. bytes_type;
  response_type = λ operation. bytes_type;
  codec = λ operation. record { serialize = λ request. some request; parse = λ body. some body };
  fields = λ operation. record {
    room = λ request. [];
    destination_room = λ request. [];
    nonce = λ request. [];
    set_nonce = λ nonce request. request;
  };
  room_name = λ operation request. [];
  Dispatch = Bytes;
  dispatch_type = bytes_type;
  list_codec = record { serialize = λ request. some []; parse = λ body. some [] };
}

abbrev pub linked : Linked
linked = record {
  machine = record {
    environment = λ name. none;
    clock = λ n. pos 0;
    random = λ n. 65;
    ticks_per_second = 1000;
    evp = an_evp;
    default_transport = fail ErrorCode.unsupported "none";
  };
  json = a_json;
  parse_event = λ body. Parsed.bad_status [];
  protocol = a_protocol;
  malloc = λ size. true;
}

abbrev pub a_world : World
a_world = record { sent = []; readings = 0; draws = 0 }
