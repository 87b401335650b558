-- ===== src/Webhook.antt =====
-- src/webhook_receiver.cpp and its header: a receiver checks the JWT that comes with an event, and
-- the body against it. HMAC, SHA-256, protobuf's JSON conversion and the application's key
-- provider are parameters.
pub mod Times
pub mod Split
pub mod Accept
pub mod Checks
pub mod Event
pub mod Receive
pub mod Issued
pub mod Dispatch
mod Samples
mod Runs
use Prim.Native.String.{String}
use livekit_server_cpp.Common.{
  ℕ, ◌+◌, Bool, true, false, not, ◌&&◌, ◌||◌, Option, none, some, [], ◌∷◌, ◌++◌, List, Bytes, codes,
  ◌==◌, if◌then◌else◌, drop, is_empty, starts_with, equal,
}
use livekit_server_cpp.Common.Int.{ℤ, pos, ltb_ℤ, trunc_div}
use livekit_server_cpp.Crypto.{
  Evp, base64_encode, base64_url_decode, constant_time_equal, hmac_sha256, sha256,
}
use livekit_server_cpp.Error.{
  ErrorCode, Result, ok, throw, fail, ◌>>=◌, ◌>>◌, throw_if, plain_error,
}
use livekit_server_cpp.Struct.{Value, Struct, find_field, JsonLibrary}
use livekit_server_cpp.Token.Access.{add_int64}
use Times.{json_integer_field}

pub record WebhookRoom : Type 0 where
  pub sid : Bytes
  pub name : Bytes
  pub metadata : Bytes

pub record WebhookParticipant : Type 0 where
  pub sid : Bytes
  pub identity : Bytes
  pub name : Bytes
  pub metadata : Bytes

pub record WebhookTrack : Type 0 where
  pub sid : Bytes
  pub name : Bytes

pub record WebhookEgress : Type 0 where
  pub egress_id : Bytes
  pub room_id : Bytes
  pub room_name : Bytes

pub record WebhookIngress : Type 0 where
  pub ingress_id : Bytes
  pub name : Bytes
  pub room_name : Bytes

pub record WebhookEvent : Type 0 where
  pub event : Bytes
  pub id : Bytes
  pub created_at : ℤ
  pub room : Option WebhookRoom
  pub participant : Option WebhookParticipant
  pub track : Option WebhookTrack
  pub egress : Option WebhookEgress
  pub ingress : Option WebhookIngress
  pub raw_body : Bytes

-- What the source reads of the messages of protobuf.
pub record RoomMessage : Type 0 where
  pub sid : Bytes
  pub name : Bytes
  pub metadata : Bytes

pub record ParticipantMessage : Type 0 where
  pub sid : Bytes
  pub identity : Bytes
  pub name : Bytes
  pub metadata : Bytes

pub record TrackMessage : Type 0 where
  pub sid : Bytes
  pub name : Bytes

pub record EgressMessage : Type 0 where
  pub egress_id : Bytes
  pub room_id : Bytes
  pub room_name : Bytes

pub record IngressMessage : Type 0 where
  pub ingress_id : Bytes
  pub name : Bytes
  pub room_name : Bytes

-- A protobuf `livekit.WebhookEvent`: `none` where `has_room()` and the like are false.
pub record Message : Type 0 where
  pub event : Bytes
  pub id : Bytes
  pub created_at : ℤ
  pub room : Option RoomMessage
  pub participant : Option ParticipantMessage
  pub track : Option TrackMessage
  pub egress_info : Option EgressMessage
  pub ingress_info : Option IngressMessage

-- `JsonStringToMessage` into that message, unknown fields ignored: the message, or the status text.
pub data Parsed : Type 0 where
  message : Message → Parsed
  bad_status : Bytes → Parsed

-- The receiver's environment.
pub record Backend : Type 0 where
  pub evp : Evp
  pub json : JsonLibrary
  pub parse_event : Bytes → Parsed
  pub ticks_per_second : ℕ

-- A provider returns the secret for an API key, empty where there is none, or throws.
abbrev pub KeyProvider : Type 0
KeyProvider = Bytes → Result Bytes

-- The provider of the constructor from one key and its secret.
unfoldable pub single_key : Bytes → Bytes → KeyProvider
single_key key secret requested = ok (if equal requested key then secret else [])

-- The provider of the constructor from a map.
unfoldable pub key_map : List (Bytes × Bytes) → KeyProvider
key_map [] requested = ok []
key_map ((key, secret) ∷ secrets) requested =
    if equal key requested then ok secret else key_map secrets requested

abbrev pub token_leeway : ℤ
token_leeway = pos 60

-- The text before the first dot, and what follows it.
unfoldable pub split_dot : Bytes → Option (Bytes × Bytes)
split_dot [] = none
split_dot (c ∷ s) =
    if c == b'.'
    then some ([], s)
    else (elim (split_dot s) [ none ↦ none | some (before, behind) ↦ some (c ∷ before, behind) ])

pub record JwtParts : Type 0 where
  pub header : Bytes
  pub claims : Bytes
  pub signature : Bytes

abbrev not_a_jwt {ℓ} : {A : Type ℓ} → Result A
not_a_jwt = fail ErrorCode.authentication "webhook Authorization header is not a JWT"

-- The three parts of a token with exactly two dots.
unfoldable pub split_jwt : Bytes → Result JwtParts
split_jwt authorization = elim (split_dot authorization) [
  | none ↦ not_a_jwt
  | some (header, behind) ↦ elim (split_dot behind) [
    | none ↦ not_a_jwt
    | some (claims, signature) ↦ elim (split_dot signature) [
      | none ↦ ok (record { header = header; claims = claims; signature = signature })
      | some more ↦ not_a_jwt
    ]
  ]
]

abbrev pub strip_bearer : Bytes → Bytes
strip_bearer authorization =
    if starts_with authorization (codes "Bearer ") then drop 7 authorization else authorization

-- `JsonStringField`.
unfoldable pub json_string_field : JsonLibrary → Bytes → String → Result Bytes
json_string_field library json name = elim (library.to_struct json) [
  | none ↦ fail ErrorCode.authentication "webhook JWT contains invalid JSON"
  | some object ↦ elim (find_field (codes name) object) [
    | none ↦ ok []
    | some (Value.string text) ↦ ok text
    | some _ ↦ fail ErrorCode.authentication "webhook JWT string claim is invalid"
  ]
]

-- `if (expires.has_value() && now_seconds > *expires + leeway_seconds) throw ...`
unfoldable pub check_expiry : ℤ → Option ℤ → Result (Unit {0})
check_expiry now_seconds none = ok tt
check_expiry now_seconds (some expires) = do
  limit ← add_int64 expires token_leeway
  throw_if (ltb_ℤ limit now_seconds) ErrorCode.authentication "webhook JWT has expired"

unfoldable pub check_not_before : ℤ → Option ℤ → Result (Unit {0})
check_not_before now_seconds none = ok tt
check_not_before now_seconds (some not_before) = do
  limit ← add_int64 now_seconds token_leeway
  throw_if (ltb_ℤ limit not_before) ErrorCode.authentication "webhook JWT is not valid yet"

unfoldable pub webhook_room : Option RoomMessage → Option WebhookRoom
webhook_room none = none
webhook_room (some room) =
    some (record { sid = room.sid; name = room.name; metadata = room.metadata })

unfoldable pub webhook_participant : Option ParticipantMessage → Option WebhookParticipant
webhook_participant none = none
webhook_participant (some participant) = some (record {
  sid = participant.sid;
  identity = participant.identity;
  name = participant.name;
  metadata = participant.metadata;
})

unfoldable pub webhook_track : Option TrackMessage → Option WebhookTrack
webhook_track none = none
webhook_track (some track) = some (record { sid = track.sid; name = track.name })

unfoldable pub webhook_egress : Option EgressMessage → Option WebhookEgress
webhook_egress none = none
webhook_egress (some egress) = some (record {
  egress_id = egress.egress_id;
  room_id = egress.room_id;
  room_name = egress.room_name;
})

unfoldable pub webhook_ingress : Option IngressMessage → Option WebhookIngress
webhook_ingress none = none
webhook_ingress (some ingress) =
    some (record {
      ingress_id = ingress.ingress_id;
      name = ingress.name;
      room_name = ingress.room_name;
    })

unfoldable pub event_of : Bytes → Parsed → Result WebhookEvent
event_of body (bad_status text) =
    throw (plain_error ErrorCode.protocol (codes "webhook JSON is invalid: " ++ text))
event_of body (message parsed) = ok (record {
  event = parsed.event;
  id = parsed.id;
  created_at = parsed.created_at;
  room = webhook_room parsed.room;
  participant = webhook_participant parsed.participant;
  track = webhook_track parsed.track;
  egress = webhook_egress parsed.egress_info;
  ingress = webhook_ingress parsed.ingress_info;
  raw_body = body;
})

module _ (backend : Backend) where
  unfoldable pub verify_times : Bytes → ℤ → Result (Unit {0})
  verify_times claims now = do
    let now_seconds = trunc_div now backend.ticks_per_second
    expires ← json_integer_field claims (codes "exp")
    check_expiry now_seconds expires
    not_before ← json_integer_field claims (codes "nbf")
    check_not_before now_seconds not_before

  unfoldable pub verify_body : Bytes → Bytes → Result (Unit {0})
  verify_body claims body = do
    claimed ← json_string_field backend.json claims "sha256"
    digest ← sha256 backend.evp body
    throw_if (is_empty claimed || not (constant_time_equal claimed (base64_encode digest)))
        ErrorCode.authentication "webhook body checksum is invalid"

module _ (backend : Backend) (key_provider : KeyProvider) where
  -- The header and the signature: the claims text that the issuer signed.
  unfoldable pub verify_signature : JwtParts → Result Bytes
  verify_signature parts = do
    header ← base64_url_decode parts.header
    alg ← json_string_field backend.json header "alg"
    throw_if (not (equal alg (codes "HS256"))) ErrorCode.authentication "webhook JWT must use HS256"
    claims ← base64_url_decode parts.claims
    issuer ← json_string_field backend.json claims "iss"
    throw_if (is_empty issuer) ErrorCode.authentication "webhook JWT issuer is missing"
    secret ← key_provider issuer
    throw_if (is_empty secret) ErrorCode.authentication "webhook API secret was not found"
    expected ← hmac_sha256 backend.evp secret (parts.header ++ b'.' ∷ parts.claims)
    actual ← base64_url_decode parts.signature
    throw_if (not (constant_time_equal expected actual)) ErrorCode.authentication
        "webhook JWT signature is invalid"
    ok claims

  -- `ReceiveAt`; `Receive` passes the clock's time.
  unfoldable pub receive_at : Bytes → Bytes → ℤ → Result WebhookEvent
  receive_at body authorization now = do
    let token = strip_bearer authorization
    throw_if (is_empty token) ErrorCode.authentication "webhook Authorization header is required"
    parts ← split_jwt token
    claims ← verify_signature parts
    verify_times backend claims now
    verify_body backend claims body
    event_of body (backend.parse_event body)
