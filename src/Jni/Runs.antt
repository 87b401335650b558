-- ===== src/Jni/Runs.antt =====
-- Concrete objects of the C API as Java sees them, and the theorems there.
use livekit_server_cpp.CApi.Invoke.{envelope}
use livekit_server_cpp.CApi.Options.{failure}
use livekit_server_cpp.CApi.Receive.{event_object}
use livekit_server_cpp.Common.Int.{pos}
use livekit_server_cpp.Common.{◌≡◌, ◌⊎◌, inl, inr, refl, arith, none, some, [], codes}
use livekit_server_cpp.Error.{ErrorCode, Error, Result, ok, throw}
use livekit_server_cpp.Jni.Event.{event_from-event_object}
use livekit_server_cpp.Jni.Response.{exception_of, response_from-envelope}
use livekit_server_cpp.Jni.{event_from, response_from}
use livekit_server_cpp.Struct.{Value}
use livekit_server_cpp.Webhook.{WebhookEvent}

abbrev an_event : WebhookEvent
an_event = record {
  event = codes "track_published";
  id = codes "EV_1";
  created_at = pos 1700000000;
  room = some (record { sid = codes "RM_1"; name = codes "r"; metadata = [] });
  participant = none;
  track = some (record { sid = codes "TR_1"; name = codes "t" });
  egress = none;
  ingress = some (record { ingress_id = codes "IN_1"; name = codes "n"; room_name = codes "r" });
  raw_body = codes "{}";
}

event_from-event_object_example : event_from (event_object an_event) ≡ ok an_event
event_from-event_object_example = event_from-event_object an_event (omega arith, omega arith)

abbrev an_error : Error
an_error = record {
  code = ErrorCode.http;
  message = codes "no room";
  http_status = pos 404;
  twirp_code = codes "not_found";
}

abbrev outcome : Result Value
outcome = throw an_error

failed : envelope outcome ≡ ok (failure an_error)
unfolding envelope
failed = refl

response_from-envelope_example :
    ((value : Value) × (outcome ≡ ok value) × (response_from (failure an_error) ≡ inl value))
    ⊎ ((error : Error) × (outcome ≡ throw error)
        × (response_from (failure an_error) ≡ inr (exception_of error)))
response_from-envelope_example = response_from-envelope outcome (failure an_error) failed
