-- ===== src/Jni/Receive.antt =====
-- pkg/java/src/main/cpp/livekit_server_jni.cpp: the native method `receive`, but for its invocation of
-- the C API: the options that it passes, and the object of Java that it makes of the value.
use Prim.Native.String.{String}
use livekit_server_cpp.CApi.Fields.{text}
use livekit_server_cpp.CApi.Invoke.{Linked}
use livekit_server_cpp.Common.{Option, none, some, List, [], ◌∷◌, Bytes, codes}
use livekit_server_cpp.Crypto.{base64_url_encode}
use livekit_server_cpp.Jni.Call.{parse_options, is_given}
use livekit_server_cpp.Jni.Invoke.{input_of}
use livekit_server_cpp.Jni.Machine.{
  Native, returned, native, ◌>>=◌, ◌>>◌, Jvm, from_array, java_text,
}
use livekit_server_cpp.Jni.Options.{set_field}
use livekit_server_cpp.Jni.{struct_value, event_from}
use livekit_server_cpp.Struct.{Value, Struct}
use livekit_server_cpp.Webhook.{
  WebhookRoom, WebhookParticipant, WebhookTrack, WebhookEgress, WebhookIngress, WebhookEvent,
}

-- The options that do not depend on whether there is a key provider.
unfoldable pub body_options : Bytes → Bytes → Struct
body_options body authorization =
    set_field (codes "authorization") (text authorization)
      (set_field (codes "body") (text (base64_url_encode body)) Struct.empty)

module _ (jvm : Jvm) (linked : Linked) where
  unfoldable pub secret_options : {A : Type 0} → Option A → Option Bytes → Struct → Native Struct
  secret_options (some key_provider) secrets options = returned options
  secret_options none secrets options = do
    object ← parse_options jvm linked secrets
    returned (set_field (codes "secrets") (Value.struct object) options)

  -- The input of `receive`.
  unfoldable pub receive_input :
      {A : Type 0} → Option Bytes → Option Bytes → Option Bytes → Option A → Native Struct
  receive_input secrets body authorization key_provider = do
    jvm.ensure_local_capacity 64
    content ← from_array jvm body
    token ← from_array jvm authorization
    options ← secret_options key_provider secrets (
        set_field (codes "use_key_provider") (Value.bool (is_given key_provider))
          (body_options content token))
    returned (input_of (codes "webhook") options)

module _ (jvm : Jvm) where
  unfoldable pub java_texts : List Bytes → Native (List jvm.JavaString)
  java_texts [] = returned []
  java_texts (content ∷ fields) = do
    value ← java_text jvm content
    values ← java_texts fields
    returned (value ∷ values)

  -- `Record`.
  unfoldable pub java_record : String → List Bytes → Native jvm.JavaObject
  java_record name fields = do
    jvm.find_class name
    arguments ← java_texts fields
    jvm.method_id name "<init>"
    jvm.new_record name arguments

  -- `event.room ? Record(...) : nullptr`
  unfoldable pub optional_record :
      {A : Type 0} → String → (A → List Bytes) → Option A → Native (Option jvm.JavaObject)
  optional_record name fields none = returned none
  optional_record name fields (some part) =
      java_record name (fields part) >>= λ object. returned (some object)

  unfoldable pub event_records : WebhookEvent → Native (List (Option jvm.JavaObject))
  event_records event = do
    room_record ←
        optional_record "io/livekit/server/WebhookEvent$Room"
          (λ (r : WebhookRoom). r.sid ∷ r.name ∷ r.metadata ∷ []) event.room
    participant_record ←
        optional_record "io/livekit/server/WebhookEvent$Participant"
          (λ (p : WebhookParticipant). p.sid ∷ p.identity ∷ p.name ∷ p.metadata ∷ [])
          event.participant
    track_record ←
        optional_record "io/livekit/server/WebhookEvent$Track"
          (λ (t : WebhookTrack). t.sid ∷ t.name ∷ []) event.track
    egress_record ←
        optional_record "io/livekit/server/WebhookEvent$Egress"
          (λ (e : WebhookEgress). e.egress_id ∷ e.room_id ∷ e.room_name ∷ []) event.egress
    ingress_record ←
        optional_record "io/livekit/server/WebhookEvent$Ingress"
          (λ (i : WebhookIngress). i.ingress_id ∷ i.name ∷ i.room_name ∷ []) event.ingress
    returned (room_record ∷ participant_record ∷ track_record ∷ egress_record ∷ ingress_record ∷ [])

  unfoldable pub java_event : WebhookEvent → Native jvm.JavaObject
  java_event event = do
    jvm.find_class "io/livekit/server/WebhookEvent"
    jvm.method_id "io/livekit/server/WebhookEvent" "<init>"
    name ← java_text jvm event.event
    id ← java_text jvm event.id
    raw ← java_text jvm event.raw_body
    records ← event_records event
    jvm.new_event name id event.created_at records raw

  -- From the value of the C API to the event of Java.
  unfoldable pub event_result : Value → Native jvm.JavaObject
  event_result value = native (event_from (struct_value value)) >>= java_event
