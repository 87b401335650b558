-- ===== src/Context/Runs.antt =====
-- Concrete runs of a context and of a room client, and the theorems at concrete inputs.
use livekit_server_cpp.Common.{
  ◌⊎◌, ℕ, ◌≡◌, ◌↔◌, refl, arith, true, false, none, some, [], ◌∷◌, ◌++◌, Bytes, codes,
}
use livekit_server_cpp.Common.Int.{pos, ◌+ℤ◌, fits_int64, trunc_div}
use livekit_server_cpp.Context.Call.{Codec, call, token_for, http_request, read_response}
use livekit_server_cpp.Context.Create.{client_context}
use livekit_server_cpp.Context.Ready.{
  IsReady, IsTokenFor, client_context-IsReady, token_for-IsReady,
}
use livekit_server_cpp.Context.Outcome.{IsUnsent, IsSent, call-IsSent}
use livekit_server_cpp.Context.Uuid.{IsUuid, IsDrawn, request_id-IsUuid}
use livekit_server_cpp.Context.Url.Normal.{slashes, ends_in_slash, normalize_url_iff}
use livekit_server_cpp.Context.Url.Address.{IsAddress}
use livekit_server_cpp.Context.Url.{
  starts_with_case_insensitive, strip_slashes, http_scheme, normalize_url,
}
use livekit_server_cpp.Context.{
  ClientContext, RequestGrant, credentials, environment, request_id, request_id_text, hex_bytes,
  update_at,
}
use livekit_server_cpp.Crypto.{hmac_sha256}
use livekit_server_cpp.Error.{ok}
use livekit_server_cpp.Http.{
  ApiOptions, HttpRequest, HttpTransport, Machine, World, send, random_bytes,
}
use livekit_server_cpp.Struct.{JsonLibrary}

abbrev answer : HttpTransport
answer sent request = ok (record { status_code = pos 200; headers = []; body = request.body })

abbrev a_machine : Machine
a_machine = record {
  environment = λ name. some (codes "wss://host/");
  clock = λ n. pos 5000;
  random = λ n. n;
  ticks_per_second = 1000;
  evp = record {
    digest = λ value. none;
    mac = λ secret value. some (codes "0123456789abcdef0123456789abcdef");
  };
  default_transport = ok answer;
}

abbrev some_options : ApiOptions
some_options = record {
  url = [];
  api_key = codes "key";
  api_secret = codes "secret";
  access_token = [];
  timeout = pos 30000;
  transport = none;
}

abbrev a_context : ClientContext
a_context = record {
  url = codes "https://host";
  api_key = codes "key";
  api_secret = codes "secret";
  access_token = [];
  timeout = pos 30000;
  transport = answer;
}

abbrev a_world : World
a_world = record { sent = []; readings = 0; draws = 0 }

abbrev no_grant : RequestGrant
no_grant = record { video = none; sip = none; agent = none }

normalized : normalize_url (codes "WSS://host//") ≡ ok (codes "https://host")
unfolding normalize_url http_scheme starts_with_case_insensitive strip_slashes
normalized = refl

-- The slashes of the scheme go too where no host follows.
no_host : normalize_url (codes "http://") ≡ ok (codes "http:")
unfolding normalize_url http_scheme starts_with_case_insensitive strip_slashes
no_host = refl

normalize_url_iff_example : (normalize_url (codes "WSS://host//") ≡ ok (codes "https://host")) ↔ (
    (http : Bytes) × IsAddress (codes "WSS://host//") http
    × (ends_in_slash (codes "https://host") ≡ false)
    × (n : ℕ) × (http ≡ codes "https://host" ++ slashes n))
normalize_url_iff_example = normalize_url_iff (codes "WSS://host//") (codes "https://host")

made : client_context a_machine some_options ≡ ok a_context
unfolding client_context credentials environment normalize_url http_scheme
    starts_with_case_insensitive strip_slashes
made = refl

client_context-IsReady_example : IsReady a_context
client_context-IsReady_example = client_context-IsReady a_machine some_options a_context made

a_context-IsReady : IsReady a_context
a_context-IsReady = record { can_authorize = refl; in_time = omega arith; no_slash = refl }

macs : (secret value : Bytes) → (mac : Bytes) × (hmac_sha256 a_machine.evp secret value ≡ ok mac)
unfolding hmac_sha256
macs secret value = (codes "0123456789abcdef0123456789abcdef", refl)

in_range :
    fits_int64
      (trunc_div (a_machine.clock a_world.readings) a_machine.ticks_per_second +ℤ pos 21600)
    ≡ true
unfolding ◌+ℤ◌
in_range = refl

token_for-IsReady_example :
    (token : Bytes) × ((token_for a_machine a_context no_grant a_world).0 ≡ ok token)
    × IsTokenFor a_machine a_context no_grant (pos 5000) token
token_for-IsReady_example =
    token_for-IsReady a_machine a_context no_grant a_world a_context-IsReady in_range macs

-- The first sixteen values are 0 to 15.
identified : (request_id a_machine a_world).0 ≡ ok (codes "00010203-0405-4607-8809-0a0b0c0d0e0f")
unfolding request_id request_id_text random_bytes hex_bytes update_at
identified = refl

abbrev a_library : JsonLibrary
a_library = record { to_struct = λ json. none; from_struct = λ object. none }

abbrev a_codec : Codec Bytes Bytes
a_codec = record { serialize = λ request. some request; parse = λ body. some body }

abbrev known_context : ClientContext
known_context = record a_context { access_token = codes "token" }

abbrev a_request : HttpRequest
a_request =
    http_request known_context (codes "RoomService") (codes "ListRooms") (codes "token")
      (codes "00010203-0405-4607-8809-0a0b0c0d0e0f") (codes "body")

abbrev a_later : World
a_later = record { sent = a_request ∷ []; readings = 0; draws = 16 }

called :
    call a_library a_codec a_machine known_context
      (codes "RoomService")
      (codes "ListRooms")
      (codes "body")
      true
      no_grant
      a_world
    ≡ (ok (codes "body"), a_later)
unfolding call token_for request_id request_id_text random_bytes hex_bytes update_at send
    read_response http_request
called = refl

request_id-IsUuid_example :
    (text bytes drawn : Bytes) × ((request_id a_machine a_world).0 ≡ ok text)
    × ((random_bytes a_machine 16 a_world).0 ≡ ok drawn)
    × IsUuid text bytes
    × IsDrawn drawn bytes
request_id-IsUuid_example = request_id-IsUuid a_machine a_world

call-IsSent_example :
    IsUnsent a_library a_codec a_machine known_context
      (codes "RoomService")
      (codes "ListRooms")
      (codes "body")
      no_grant
      a_world
      true
      (call a_library a_codec a_machine known_context
        (codes "RoomService")
        (codes "ListRooms")
        (codes "body")
        true
        no_grant
        a_world)
    ⊎ ((true ≡ true)
        × IsSent a_library a_codec a_machine known_context
            (codes "RoomService")
            (codes "ListRooms")
            (codes "body")
            no_grant
            a_world
            (call a_library a_codec a_machine known_context
              (codes "RoomService")
              (codes "ListRooms")
              (codes "body")
              true
              no_grant
              a_world))
call-IsSent_example =
    call-IsSent a_library a_codec a_machine known_context (codes "RoomService") (codes "ListRooms")
      (codes "body") no_grant a_world true
