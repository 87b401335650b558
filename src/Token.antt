-- ===== src/Token.antt =====
-- src/access_token.cpp and include/livekit/server/access_token.h: grants, the claims of a token
-- as JSON text, and the signed JWT. The text of a stream is the list of the bytes written so far.
pub mod Access
pub mod Json
pub mod Members
pub mod Claims
mod Runs
use Prim.Native.String.{String}
use livekit_server_cpp.Common.{
  ℕ, ◌+◌, ◌-◌, ◌/◌, ◌%◌, Bool, true, false, not, ◌&&◌, ◌||◌, List, [], ◌∷◌, ◌++◌, Option, none,
  some, ltb, ◌==◌, if◌then◌else◌, Bytes, codes, is_empty,
}
use livekit_server_cpp.Common.Decimal.{decimal_int}
use livekit_server_cpp.Common.Int.{ℤ, pos, negsuc, ◌+ℤ◌, leb_ℤ, fits_int64, trunc_div}
use livekit_server_cpp.Crypto.{Evp, base64_url_encode, hmac_sha256}
use livekit_server_cpp.Error.{ErrorCode, Result, ok, undefined, fail, ◌>>=◌, ◌>>◌, throw_if}

pub record VideoGrant : Type 0 where
  pub room_create : Bool
  pub room_list : Bool
  pub room_record : Bool
  pub room_admin : Bool
  pub room_join : Bool
  pub room : Bytes
  pub destination_room : Bytes
  pub ingress_admin : Bool
  pub can_publish : Option Bool
  pub can_subscribe : Option Bool
  pub can_publish_data : Option Bool
  pub can_update_own_metadata : Option Bool
  pub can_publish_sources : List Bytes
  pub hidden : Bool
  pub recorder : Bool
  pub agent : Bool

-- `VideoGrant{}`.
abbrev pub no_video_grant : VideoGrant
no_video_grant = record {
  room_create = false;
  room_list = false;
  room_record = false;
  room_admin = false;
  room_join = false;
  room = [];
  destination_room = [];
  ingress_admin = false;
  can_publish = none;
  can_subscribe = none;
  can_publish_data = none;
  can_update_own_metadata = none;
  can_publish_sources = [];
  hidden = false;
  recorder = false;
  agent = false;
}

pub record SipGrant : Type 0 where
  pub admin : Bool
  pub call : Bool

pub record AgentGrant : Type 0 where
  pub admin : Bool
  pub simulation_admin : Bool

-- A digit of `std::hex`.
abbrev pub hex_digit : ℕ → ℕ
hex_digit d = if ltb d 10 then b'0' + d else b'a' + d - 10

-- What `EscapeJson` writes for one byte. Four hexadecimal digits hold a byte below 0x20.
unfoldable pub escape_byte : ℕ → Bytes
escape_byte ch =
    if ch == b'"'
    then b'\\' ∷ b'"' ∷ []
    else if ch == b'\\'
    then b'\\' ∷ b'\\' ∷ []
    else if ch == 8
    then b'\\' ∷ b'b' ∷ []
    else if ch == 12
    then b'\\' ∷ b'f' ∷ []
    else if ch == 10
    then b'\\' ∷ b'n' ∷ []
    else if ch == 13
    then b'\\' ∷ b'r' ∷ []
    else if ch == 9
    then b'\\' ∷ b't' ∷ []
    else if ltb ch 0x20
    then b'\\' ∷ b'u' ∷ b'0' ∷ b'0' ∷ hex_digit (ch / 16) ∷ hex_digit (ch % 16) ∷ []
    else ch ∷ []

unfoldable pub escape_json : Bytes → Bytes
escape_json [] = []
escape_json (ch ∷ value) = escape_byte ch ++ escape_json value

-- `"text"`, with its quotes.
abbrev pub quoted : Bytes → Bytes
quoted text = b'"' ∷ (text ++ b'"' ∷ [])

-- A stream and the flag `first` that goes with it.
pub record Writer : Type 0 where
  pub json : Bytes
  pub first : Bool

abbrev pub comma : Bool → Bytes
comma first = if first then [] else b',' ∷ []

abbrev pub bool_text : Bool → Bytes
bool_text value = if value then codes "true" else codes "false"

-- `AddBool`.
unfoldable pub add_bool : String → Bool → Bool → Writer → Writer
add_bool name value include_false w = if not value && not include_false then w else record {
  json = w.json ++ comma w.first ++ quoted (codes name) ++ b':' ∷ [] ++ bool_text value;
  first = false;
}

-- `AddString`.
unfoldable pub add_string : String → Bytes → Writer → Writer
add_string name value w = if is_empty value then w else record {
  json = w.json ++ comma w.first ++ quoted (codes name) ++ b':' ∷ [] ++ quoted (escape_json value);
  first = false;
}

-- `if (grant.field.has_value()) AddBool(json, first, name, *grant.field, true);`
unfoldable pub add_optional : String → Option Bool → Writer → Writer
add_optional name none w = w
add_optional name (some value) w = add_bool name value true w

-- The loop over `can_publish_sources`.
unfoldable pub add_sources : ℕ → List Bytes → Bytes → Bytes
add_sources index [] json = json
add_sources index (source ∷ sources) json =
    add_sources (index + 1) sources (json ++ comma (index == 0) ++ quoted (escape_json source))

unfoldable pub add_source_list : List Bytes → Writer → Writer
add_source_list sources w = if is_empty sources then w else record {
  json =
      add_sources 0 sources (w.json ++ comma w.first ++ codes "\"canPublishSources\":[")
      ++ b']' ∷ [];
  first = false;
}

infixl 5 ◌▹◌
abbrev ◌▹◌ : Writer → (Writer → Writer) → Writer
w ▹ f = f w

unfoldable pub video_grant_json : VideoGrant → Bytes
video_grant_json grant =
    let w =
      record { json = codes "{"; first = true }
      ▹ add_bool "roomCreate" grant.room_create false
      ▹ add_bool "roomList" grant.room_list false
      ▹ add_bool "roomRecord" grant.room_record false
      ▹ add_bool "roomAdmin" grant.room_admin false
      ▹ add_bool "roomJoin" grant.room_join false
      ▹ add_string "room" grant.room
      ▹ add_string "destinationRoom" grant.destination_room
      ▹ add_bool "ingressAdmin" grant.ingress_admin false
      ▹ add_optional "canPublish" grant.can_publish
      ▹ add_optional "canSubscribe" grant.can_subscribe
      ▹ add_optional "canPublishData" grant.can_publish_data
      ▹ add_optional "canUpdateOwnMetadata" grant.can_update_own_metadata
      ▹ add_source_list grant.can_publish_sources
      ▹ add_bool "hidden" grant.hidden false
      ▹ add_bool "recorder" grant.recorder false
      ▹ add_bool "agent" grant.agent false in
    w.json ++ b'}' ∷ []
