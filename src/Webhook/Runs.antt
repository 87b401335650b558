-- ===== src/Webhook/Runs.antt =====
-- Concrete runs of the receiver, and the theorems at concrete inputs.
use livekit_server_cpp.Common.{
  ◌≡◌, ◌↔◌, refl, ◌-◌, arith, none, some, [], ◌∷◌, ◌++◌, Bytes, IsBytes, codes,
}
use livekit_server_cpp.Common.Lists.{starts_with, equal}
use livekit_server_cpp.Common.Decimal.{decimal_int, decimal, digits_onto}
use livekit_server_cpp.Common.Int.{pos, negsuc, int64_max, ◌<ℤ◌, ◌+ℤ◌}
use livekit_server_cpp.Crypto.{
  base64, base64_encode, base64_url_encode, base64_url_decode, base64_url_value, decode_loop,
  absorb, constant_time_equal, fold_difference, sha256, hmac_sha256,
}
use livekit_server_cpp.Error.{ErrorCode, ok, fail, undefined}
use livekit_server_cpp.Struct.{find_field}
use livekit_server_cpp.Token.Access.{
  AccessToken, jwt_header, add_int64, to_jwt, claims_text, add_agent_claim, add_sip_claim,
  add_video_claim, add_attribute_claim, add_claim,
}
use livekit_server_cpp.Token.{escape_json, escape_byte}
use livekit_server_cpp.Webhook.Checks.{check_expiry-undefined}
use livekit_server_cpp.Webhook.Dispatch.{
  own_callbacks, IsOwn, WebhookCallback, Application, Receiver, WebhookCallbacks, calls, dispatch,
  enter, set_callbacks, specific_callback, dispatch-calls,
}
use livekit_server_cpp.Webhook.Issued.{claims_at, IsIssued, to_jwt-IsIssued}
use livekit_server_cpp.Webhook.Receive.{IsAccepted, receive_at_iff}
use livekit_server_cpp.Webhook.Split.{joined, IsJwt, split_jwt_iff}
use livekit_server_cpp.Webhook.Times.{
  after, skip_spaces, read_digits, read_number, read_sign, json_integer_field,
}
use livekit_server_cpp.Webhook.{
  webhook_ingress, webhook_egress, webhook_track, webhook_participant, webhook_room, JwtParts,
  single_key, split_dot, split_jwt, json_string_field, check_expiry, check_not_before, event_of,
  verify_signature, verify_times, verify_body, receive_at,
}
use livekit_server_cpp.Webhook.Samples.{
  digest_bytes, a_backend, provider, a_backend-IsBackend, a_body, an_authorization, an_event,
}

-- Three minutes and ten seconds after the epoch the token is still accepted, a second later no more.
accepted : receive_at a_backend provider a_body an_authorization (pos 190000) ≡ ok an_event
unfolding receive_at starts_with equal base64_url_encode base64 base64_encode split_jwt split_dot
    base64_url_decode decode_loop base64_url_value absorb json_string_field find_field single_key
    hmac_sha256 sha256 constant_time_equal fold_difference verify_signature verify_times verify_body
    check_expiry check_not_before add_int64 ◌+ℤ◌ event_of json_integer_field after skip_spaces
    read_digits read_number read_sign webhook_room webhook_participant webhook_track webhook_egress
    webhook_ingress
accepted = refl

expired :
    receive_at a_backend provider a_body an_authorization (pos 191000)
    ≡ fail ErrorCode.authentication "webhook JWT has expired"
unfolding receive_at starts_with equal base64_url_encode base64 base64_encode split_jwt split_dot
    base64_url_decode decode_loop base64_url_value absorb json_string_field find_field single_key
    hmac_sha256 sha256 constant_time_equal fold_difference verify_signature verify_times verify_body
    check_expiry check_not_before add_int64 ◌+ℤ◌ event_of json_integer_field after skip_spaces
    read_digits read_number read_sign
expired = refl

receive_at_iff_example :
    (receive_at a_backend provider a_body an_authorization (pos 190000) ≡ ok an_event)
    ↔ IsAccepted a_backend provider a_body an_authorization (pos 190000) an_event
receive_at_iff_example =
    receive_at_iff a_backend provider a_backend-IsBackend a_body an_authorization (pos 190000)
      an_event

abbrev some_parts : JwtParts
some_parts = record { header = codes "a"; claims = codes "bc"; signature = [] }

split_jwt_iff_example :
    (split_jwt (codes "a.bc.") ≡ ok some_parts)
    ↔ ((codes "a.bc." ≡ joined some_parts) × IsJwt some_parts)
split_jwt_iff_example = split_jwt_iff (codes "a.bc.") some_parts

found_negative : json_integer_field (codes "{\"exp\":-130}") (codes "exp") ≡ ok (some (negsuc 129))
unfolding json_integer_field after starts_with skip_spaces read_digits read_number read_sign
found_negative = refl

check_expiry-undefined_example :
    (check_expiry (pos 0) (some (pos int64_max)) ≡ undefined)
    ↔ (pos (int64_max - 60) <ℤ pos int64_max)
check_expiry-undefined_example = check_expiry-undefined (pos 0) (pos int64_max) (omega arith)

-- The name is found anywhere in the text, here as the value of another member.
found_elsewhere :
    json_integer_field (codes "{\"iss\":\"exp\",\"n\":7}") (codes "exp") ≡ ok (some (pos 7))
unfolding json_integer_field after starts_with skip_spaces read_digits read_number read_sign
found_elsewhere = refl

abbrev a_token : AccessToken
a_token = record {
  api_key = codes "key";
  api_secret = codes "secret";
  identity = [];
  name = [];
  metadata = [];
  attributes = [];
  valid_for = pos 60;
  video_grant = none;
  sip_grant = none;
  agent_grant = none;
}

abbrev a_jwt : Bytes
a_jwt =
    base64_url_encode jwt_header
    ++ b'.' ∷ []
    ++ base64_url_encode (claims_at a_backend a_token (pos 5000))
    ++ b'.' ∷ []
    ++ base64_url_encode digest_bytes

signed : to_jwt a_backend.evp a_backend.ticks_per_second a_token (pos 5000) ≡ ok a_jwt
unfolding to_jwt add_int64 ◌+ℤ◌ hmac_sha256
signed = refl

has_secret : provider (codes "key") ≡ ok (codes "secret")
unfolding single_key equal
has_secret = refl

reads_alg : json_string_field a_backend.json jwt_header "alg" ≡ ok (codes "HS256")
unfolding json_string_field find_field equal
reads_alg = refl

reads_iss :
    json_string_field a_backend.json (claims_at a_backend a_token (pos 5000)) "iss"
    ≡ ok (codes "key")
unfolding json_string_field find_field equal claims_text add_agent_claim add_sip_claim
    add_video_claim add_attribute_claim add_claim escape_json escape_byte decimal_int decimal
    digits_onto ◌+ℤ◌
reads_iss = refl

claims-IsBytes : IsBytes (claims_at a_backend a_token (pos 5000))
unfolding claims_text add_agent_claim add_sip_claim add_video_claim add_attribute_claim add_claim
    escape_json escape_byte decimal_int decimal digits_onto ◌+ℤ◌
claims-IsBytes = omega arith

to_jwt-IsIssued_example : IsIssued a_backend provider a_backend-IsBackend a_token (pos 5000) a_jwt
to_jwt-IsIssued_example =
    to_jwt-IsIssued a_backend provider a_backend-IsBackend a_token (pos 5000) a_jwt signed
      has_secret reads_alg reads_iss claims-IsBytes

abbrev no_callbacks : WebhookCallbacks
no_callbacks = record {
  on_event = none;
  on_room_started = none;
  on_room_finished = none;
  on_participant_joined = none;
  on_participant_left = none;
  on_participant_connection_aborted = none;
  on_track_published = none;
  on_track_unpublished = none;
  on_egress_started = none;
  on_egress_updated = none;
  on_egress_ended = none;
  on_ingress_started = none;
  on_ingress_ended = none;
}

abbrev a_receiver : Receiver
a_receiver = record {
  callbacks = record no_callbacks { on_event = some 1; on_room_started = some 2 };
  entered = [];
}

-- Every callback takes all callbacks away.
abbrev forgetful : Application
forgetful callback event callbacks = ok no_callbacks

abbrev later_receiver : Receiver
later_receiver = record { callbacks = no_callbacks; entered = (1, an_event) ∷ (2, an_event) ∷ [] }

dispatched : dispatch forgetful an_event a_receiver ≡ ok later_receiver
unfolding dispatch enter set_callbacks specific_callback equal
dispatched = refl

dispatch-calls_example :
    (own : WebhookCallback) × IsOwn (own_callbacks a_receiver.callbacks) an_event.event own
    × (later_receiver.entered
        ≡ a_receiver.entered
          ++ (calls forgetful an_event a_receiver.callbacks.on_event
              ++ calls forgetful an_event own))
dispatch-calls_example = dispatch-calls forgetful an_event a_receiver later_receiver dispatched
