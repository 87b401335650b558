-- ===== src/CApi/Receive.antt =====
-- src/c_api.cpp: `Receive`, the operation that checks a webhook.
use livekit_server_cpp.CApi.Fields.{text, string_field, struct_of, new_object, decode_body}
use livekit_server_cpp.CApi.Host.{Callback}
use livekit_server_cpp.CApi.Keys.{key_provider_of}
use livekit_server_cpp.Common.Decimal.{decimal_int}
use livekit_server_cpp.Common.{Option, none, some, List, [], ◌∷◌, ◌++◌, Bytes}
use livekit_server_cpp.Error.{ok}
use livekit_server_cpp.Http.{Machine, Action, ◌>>=◌, lift, read_clock}
use livekit_server_cpp.Struct.{Value, Struct, JsonLibrary}
use livekit_server_cpp.Webhook.{
  WebhookRoom, WebhookParticipant, WebhookTrack, WebhookEgress, WebhookIngress, WebhookEvent,
  Parsed, Backend, KeyProvider, receive_at,
}
use Prim.Native.String.{String}

-- `if (event.field) fields[name] = NewObject(...);`
unfoldable pub optional_object :
    {A : Type 0} → String → (A → List (String × Bytes)) → Option A → List (String × Value)
optional_object name members none = []
optional_object name members (some a) =
    (name, Value.struct (struct_of (new_object (members a)))) ∷ []

unfoldable pub room_members : WebhookRoom → List (String × Bytes)
room_members room = ("sid", room.sid) ∷ ("name", room.name) ∷ ("metadata", room.metadata) ∷ []

unfoldable pub participant_members : WebhookParticipant → List (String × Bytes)
participant_members participant =
    ("sid", participant.sid)
    ∷ ("identity", participant.identity)
    ∷ ("name", participant.name)
    ∷ ("metadata", participant.metadata)
    ∷ []

unfoldable pub track_members : WebhookTrack → List (String × Bytes)
track_members track = ("sid", track.sid) ∷ ("name", track.name) ∷ []

unfoldable pub egress_members : WebhookEgress → List (String × Bytes)
egress_members egress =
    ("egress_id", egress.egress_id)
    ∷ ("room_id", egress.room_id)
    ∷ ("room_name", egress.room_name)
    ∷ []

unfoldable pub ingress_members : WebhookIngress → List (String × Bytes)
ingress_members ingress =
    ("ingress_id", ingress.ingress_id)
    ∷ ("name", ingress.name)
    ∷ ("room_name", ingress.room_name)
    ∷ []

-- The object that `Receive` makes of an event.
unfoldable pub event_object : WebhookEvent → Struct
event_object event = struct_of (
    new_object (("event", event.event) ∷ ("id", event.id) ∷ ("raw_body", event.raw_body) ∷ [])
    ++ (("created_at", text (decimal_int event.created_at))
        ∷ (optional_object "room" room_members event.room
            ++ (optional_object "participant" participant_members event.participant
                ++ (optional_object "track" track_members event.track
                    ++ (optional_object "egress" egress_members event.egress
                        ++ optional_object "ingress" ingress_members event.ingress))))))

-- `WebhookReceiver::Receive`, which passes the clock's time.
unfoldable pub receive_now : Machine → Backend → KeyProvider → Bytes → Bytes → Action WebhookEvent
receive_now machine backend key_provider body authorization = do
  now ← read_clock machine
  lift (receive_at backend key_provider body authorization now)

-- `Receive`. C++ leaves open which of the two texts is read first.
unfoldable pub receive : Machine → JsonLibrary → (Bytes → Parsed) → Callback → Struct → Action Value
receive machine json parse_event callback options =
    let backend : Backend = record {
      evp = machine.evp;
      json = json;
      parse_event = parse_event;
      ticks_per_second = machine.ticks_per_second;
    } in
    do
      key_provider ← lift (key_provider_of json callback options)
      body ← lift (decode_body options "body")
      authorization ← lift (string_field options "authorization")
      event ← receive_now machine backend key_provider body authorization
      lift (ok (Value.struct (event_object event)))
