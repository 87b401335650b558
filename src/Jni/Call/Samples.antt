-- ===== src/Jni/Call/Samples.antt =====
-- A Java machine, objects of Java and a JSON library for concrete runs.
use livekit_server_cpp.CApi.Samples.{an_evp, call_input, a_protocol, a_jwt}
use livekit_server_cpp.CApi.Fields.{text, struct_of}
use livekit_server_cpp.CApi.Host.{transport_request}
use livekit_server_cpp.CApi.Invoke.{Linked}
use livekit_server_cpp.Common.Int.{pos}
use livekit_server_cpp.Common.Lists.{equal}
use livekit_server_cpp.Common.{true, none, some, [], ◌∷◌, Bytes, codes, if◌then◌else◌}
use livekit_server_cpp.Error.{ErrorCode, fail}
use livekit_server_cpp.Http.{HttpRequest, HttpResponse}
use livekit_server_cpp.Jni.Call.{token_options_at}
use livekit_server_cpp.Jni.Invoke.{input_of}
use livekit_server_cpp.Jni.Machine.{returned, pending, Jvm}
use livekit_server_cpp.Jni.Transport.{Send}
use livekit_server_cpp.Jni.{response_fields, string_of}
use livekit_server_cpp.Struct.{Value, Struct, JsonLibrary}
use livekit_server_cpp.Webhook.{Parsed}

-- A machine with memory for all, whose strings are told by their bytes.
abbrev pub a_jvm : Jvm
a_jvm = record {
  JavaString = Bytes;
  push_local_frame = λ size. returned tt;
  find_class = λ name. returned tt;
  method_id = λ class_name name. returned tt;
  new_byte_array = λ size. returned tt;
  set_region = λ content. returned tt;
  get_region = λ content. returned content;
  new_string_array = λ size. returned tt;
  set_element = λ index item. returned tt;
  native_text = λ content. returned content;
  native_bytes = λ content. returned (some content);
  modified_utf8 = λ content. returned content;
  new_exception = λ error. returned tt;
  JavaObject = Bytes;
  ensure_local_capacity = λ size. returned tt;
  new_record = λ name texts. returned [];
  new_event = λ name id created_at records raw. returned name;
}

abbrev pub an_answer : Send a_jvm
an_answer = λ request.
    returned
      (some (record { status_code = returned (pos 200); body = returned (some (codes "hi")) }))

abbrev pub a_throw : Send a_jvm
a_throw = λ request. pending 7

abbrev pub a_sent : HttpRequest
a_sent = record {
  url = codes "https://host/twirp/livekit.RoomService/ListRooms";
  method = codes "POST";
  headers =
      (codes "Content-Type", codes "application/protobuf")
      ∷ (codes "Accept", codes "application/protobuf")
      ∷ (codes "Authorization", codes "Bearer t")
      ∷ (codes "X-Livekit-Request-Id", codes "41414141-4141-4141-8141-414141414141")
      ∷ (codes "User-Agent", codes "livekit-server-cpp/0.1")
      ∷ [];
  body = codes "{}";
  timeout = pos 9;
}

abbrev pub a_reply : HttpResponse
a_reply = record { status_code = pos 200; headers = []; body = codes "hi" }

-- The response of the C API about the token.
abbrev pub token_response : Struct
token_response = struct_of (("value", text a_jwt) ∷ ("ok", Value.bool true) ∷ [])

abbrev pub java_options : Struct
java_options = struct_of (
    ("apiKey", text (codes "k"))
    ∷ ("apiSecret", text (codes "s"))
    ∷ ("validFor", text (codes "60"))
    ∷ ("sip", Value.struct (struct_of (("admin", Value.bool true) ∷ [])))
    ∷ [])

-- It tells the objects of the runs by one field each.
abbrev pub a_json : JsonLibrary
a_json = record {
  to_struct = λ content.
      if equal content (codes "request")
      then some (transport_request a_sent)
      else if equal content (codes "reply")
      then some (response_fields a_reply)
      else if equal content (codes "options")
      then some java_options
      else if equal content (codes "token")
      then some (input_of (codes "token") (token_options_at (pos 5) java_options))
      else if equal content (codes "signed")
      then some token_response
      else if equal content (codes "call")
      then some call_input
      else none;
  from_struct = λ object.
      if equal (string_of object "kind") (codes "transport")
      then some (codes "request")
      else if equal (string_of object "status_code") (codes "200")
      then some (codes "reply")
      else if equal (string_of object "operation") (codes "token")
      then some (codes "token")
      else if equal (string_of object "operation") (codes "Room.ListRooms")
      then some (codes "call")
      else some (codes "signed");
}

abbrev pub linked : Linked
linked = record {
  machine = record {
    environment = λ name. none;
    clock = λ n. pos 0;
    random = λ n. 65;
    ticks_per_second = 1000;
    evp = an_evp;
    default_transport = fail ErrorCode.unsupported "none";
  };
  json = a_json;
  parse_event = λ body. Parsed.bad_status [];
  protocol = a_protocol;
  malloc = λ size. true;
}
