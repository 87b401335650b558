-- ===== src/Services/Room/Runs.antt =====
-- A concrete call of a room client, and the theorems at concrete inputs.
use livekit_server_cpp.Common.{◌≡◌, refl, none, some, [], ◌∷◌, Bytes, codes}
use livekit_server_cpp.Common.Int.{pos}
use livekit_server_cpp.Context.Call.{Codec, call, token_for, http_request, read_response}
use livekit_server_cpp.Context.{request_id, request_id_text, hex_bytes, update_at}
use livekit_server_cpp.Error.{ok}
use livekit_server_cpp.Http.{HttpTransport, World, send, random_bytes}
use livekit_server_cpp.Services.Room.Laws.{IsNarrow, room_method_grant-IsNarrow}
use livekit_server_cpp.Services.Room.{
  RoomMethod, RoomFields, room_grant, room_method_name, room_method_grant, fresh_nonce, with_nonce,
  prepare, room_call,
}
use livekit_server_cpp.Services.{Client, perform, video_only}
use livekit_server_cpp.Token.{VideoGrant}

-- A message is its room and its nonce.
abbrev Message : Type 0
Message = Bytes × Bytes

abbrev fields : RoomFields Message
fields = record {
  room = λ m. m.0;
  destination_room = λ m. [];
  nonce = λ m. m.1;
  set_nonce = λ nonce m. (m.0, nonce);
}

abbrev answer : HttpTransport
answer sent request = ok (record { status_code = pos 200; headers = []; body = request.body })

abbrev a_client : Client
a_client = record {
  machine = record {
    environment = λ name. none;
    clock = λ n. pos 0;
    random = λ n. 65;
    ticks_per_second = 1000;
    evp = record { digest = λ value. none; mac = λ secret value. none };
    default_transport = ok answer;
  };
  library = record { to_struct = λ json. none; from_struct = λ object. none };
  context = record {
    url = codes "https://host";
    api_key = [];
    api_secret = [];
    access_token = codes "token";
    timeout = pos 30000;
    transport = answer;
  };
}

-- The nonce is what is sent.
abbrev a_codec : Codec Message Bytes
a_codec = record { serialize = λ m. some m.1; parse = λ body. some body }

abbrev a_world : World
a_world = record { sent = []; readings = 0; draws = 0 }

abbrev a_later : World
a_later = record {
  sent =
      http_request a_client.context (codes "RoomService") (codes "SendData") (codes "token")
        (codes "41414141-4141-4141-8141-414141414141") (codes "AAAAAAAAAAAAAAAA")
      ∷ [];
  readings = 0;
  draws = 32;
}

called :
    room_call a_client a_codec fields RoomMethod.send_data (codes "r", []) a_world
    ≡ (ok (codes "AAAAAAAAAAAAAAAA"), a_later)
unfolding room_call prepare with_nonce fresh_nonce perform room_method_name room_method_grant
    room_grant call token_for request_id request_id_text random_bytes hex_bytes update_at send
    read_response http_request
called = refl

room_method_grant-IsNarrow_example :
    (grant : VideoGrant) × (room_method_grant RoomMethod.send_data (codes "r") []
      ≡ video_only grant)
    × IsNarrow RoomMethod.send_data (codes "r") [] grant
room_method_grant-IsNarrow_example = room_method_grant-IsNarrow RoomMethod.send_data (codes "r") []
