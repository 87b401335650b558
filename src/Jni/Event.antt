-- ===== src/Jni/Event.antt =====
-- The event of a webhook, through the C API to Java.
use Prim.Native.String.{String}
use livekit_server_cpp.CApi.Fields.{struct_of, new_object}
use livekit_server_cpp.CApi.Integer.RoundTrip.{stoll-decimal_int}
use livekit_server_cpp.CApi.Receive.{
  optional_object, room_members, participant_members, track_members, egress_members,
  ingress_members, event_object,
}
use livekit_server_cpp.Common.Int.{ℤ, IsInt64}
use livekit_server_cpp.Common.Decimal.{decimal_int}
use livekit_server_cpp.Common.Lists.{equal, equal_self}
use livekit_server_cpp.Common.{
  ◌≡◌, append-nil, refl, sym, ap, ◌∙◌, false, Option, none, some, List, [], ◌++◌, Bytes, codes,
}
use livekit_server_cpp.Error.{ok}
use livekit_server_cpp.Jni.{
  string_value, struct_value, field_or_empty, string_of, long_of, member_from, member_of, room_of,
  participant_of, track_of, egress_of, ingress_of, event_from,
}
use livekit_server_cpp.Struct.{Value, Struct, find_field}
use livekit_server_cpp.Webhook.{WebhookEvent}

-- An optional object under another name is passed over.
find_field-other :
    {A : Type 0} (name : Bytes) (other : String) (members : A → List (String × Bytes))
    (o : Option A) (rest : List (String × Value))
    → equal (codes other) name ≡ false
    → find_field name (struct_of (optional_object other members o ++ rest))
      ≡ find_field name (struct_of rest)
unfolding find_field struct_of optional_object
find_field-other name other members none rest e = refl
find_field-other name other members (some a) rest e = rw e refl

-- An optional object is read back, if nothing behind it has its name.
member_of-optional_object :
    {A : Type 0} (name : String) (members : A → List (String × Bytes)) (read : Struct → A)
    (o : Option A) (rest : List (String × Value))
    → ((a : A) → read (struct_of (new_object (members a))) ≡ a)
    → find_field (codes name) (struct_of rest) ≡ none
    → member_of name read (struct_of (optional_object name members o ++ rest)) ≡ o
unfolding member_of member_from find_field struct_of optional_object struct_value
member_of-optional_object name members read none rest back e = ap (member_from read) e
member_of-optional_object name members read (some a) rest back e =
    let object = struct_of (new_object (members a)) in
    let found : find_field (codes name) (struct_of (optional_object name members (some a) ++ rest))
        ≡ some (Value.struct object) =
      rw (equal_self (codes name)) refl in
    ap (member_from read) found ∙ ap some (back a)

pub long_of-decimal_int : (value : ℤ) → IsInt64 value → long_of (decimal_int value) ≡ ok value
unfolding long_of
long_of-decimal_int value fits = rw (stoll-decimal_int value fits, long_of) refl

module _ (event : WebhookEvent) where
  -- The optional objects from each place on.
  ingress_fields : List (String × Value)
  ingress_fields = optional_object "ingress" ingress_members event.ingress

  egress_fields : List (String × Value)
  egress_fields = optional_object "egress" egress_members event.egress ++ ingress_fields

  track_fields : List (String × Value)
  track_fields = optional_object "track" track_members event.track ++ egress_fields

  participant_fields : List (String × Value)
  participant_fields =
      optional_object "participant" participant_members event.participant ++ track_fields

  from_ingress :
      (name : Bytes)
      → equal (codes "ingress") name ≡ false
      → find_field name (struct_of ingress_fields) ≡ none
  unfolding ingress_fields struct_of find_field
  from_ingress name e =
      ap (λ fields. find_field name (struct_of fields)) (sym (append-nil ingress_fields))
      ∙ find_field-other name "ingress" ingress_members event.ingress [] e

  from_egress :
      (name : Bytes)
      → equal (codes "ingress") name ≡ false
      → equal (codes "egress") name ≡ false
      → find_field name (struct_of egress_fields) ≡ none
  unfolding egress_fields
  from_egress name e e₁ =
      find_field-other name "egress" egress_members event.egress ingress_fields e₁
      ∙ from_ingress name e

  from_track :
      (name : Bytes)
      → equal (codes "ingress") name ≡ false
      → equal (codes "egress") name ≡ false
      → equal (codes "track") name ≡ false
      → find_field name (struct_of track_fields) ≡ none
  unfolding track_fields
  from_track name e e₁ e₂ =
      find_field-other name "track" track_members event.track egress_fields e₂
      ∙ from_egress name e e₁

  from_participant :
      (name : Bytes)
      → equal (codes "ingress") name ≡ false
      → equal (codes "egress") name ≡ false
      → equal (codes "track") name ≡ false
      → equal (codes "participant") name ≡ false
      → find_field name (struct_of participant_fields) ≡ none
  unfolding participant_fields
  from_participant name e e₁ e₂ e₃ =
      find_field-other name "participant" participant_members event.participant track_fields e₃
      ∙ from_track name e e₁ e₂

  -- What stands before the optional objects.
  event-string : string_of (event_object event) "event" ≡ event.event
  unfolding string_of field_or_empty string_value find_field event_object struct_of new_object equal
  event-string = refl

  id-string : string_of (event_object event) "id" ≡ event.id
  unfolding string_of field_or_empty string_value find_field event_object struct_of new_object equal
  id-string = refl

  raw_body-string : string_of (event_object event) "raw_body" ≡ event.raw_body
  unfolding string_of field_or_empty string_value find_field event_object struct_of new_object equal
  raw_body-string = refl

  created_at-string : string_of (event_object event) "created_at" ≡ decimal_int event.created_at
  unfolding string_of field_or_empty string_value find_field event_object struct_of new_object equal
  created_at-string = refl

  room-member : member_of "room" room_of (event_object event) ≡ event.room
  unfolding member_of event_object struct_of new_object find_field equal participant_fields
      track_fields egress_fields ingress_fields room_members room_of string_of field_or_empty
      string_value
  room-member =
      member_of-optional_object "room" room_members room_of event.room participant_fields
        (λ a. refl) (from_participant (codes "room") refl refl refl refl)

  participant-member :
      member_of "participant" participant_of (event_object event) ≡ event.participant
  unfolding member_of event_object struct_of new_object find_field equal participant_fields
      track_fields egress_fields ingress_fields participant_members participant_of string_of
      field_or_empty string_value
  participant-member =
      ap (member_from participant_of) (
        find_field-other (codes "participant") "room" room_members event.room participant_fields
          refl)
      ∙ member_of-optional_object "participant" participant_members participant_of event.participant
          track_fields (λ a. refl) (from_track (codes "participant") refl refl refl)

  track-member : member_of "track" track_of (event_object event) ≡ event.track
  unfolding member_of event_object struct_of new_object find_field equal participant_fields
      track_fields egress_fields ingress_fields track_members track_of string_of field_or_empty
      string_value
  track-member =
      ap (member_from track_of) (
        find_field-other (codes "track") "room" room_members event.room participant_fields refl
        ∙ find_field-other (codes "track") "participant" participant_members event.participant
            track_fields refl)
      ∙ member_of-optional_object "track" track_members track_of event.track egress_fields
          (λ a. refl) (from_egress (codes "track") refl refl)

  egress-member : member_of "egress" egress_of (event_object event) ≡ event.egress
  unfolding member_of event_object struct_of new_object find_field equal participant_fields
      track_fields egress_fields ingress_fields egress_members egress_of string_of field_or_empty
      string_value
  egress-member =
      ap (member_from egress_of) (
        find_field-other (codes "egress") "room" room_members event.room participant_fields refl
        ∙ find_field-other (codes "egress") "participant" participant_members event.participant
            track_fields refl
        ∙ find_field-other (codes "egress") "track" track_members event.track egress_fields refl)
      ∙ member_of-optional_object "egress" egress_members egress_of event.egress ingress_fields
          (λ a. refl) (from_ingress (codes "egress") refl)

  ingress-member : member_of "ingress" ingress_of (event_object event) ≡ event.ingress
  unfolding member_of event_object struct_of new_object find_field equal participant_fields
      track_fields egress_fields ingress_fields ingress_members ingress_of string_of field_or_empty
      string_value
  ingress-member =
      ap (member_from ingress_of) (
        find_field-other (codes "ingress") "room" room_members event.room participant_fields refl
        ∙ find_field-other (codes "ingress") "participant" participant_members event.participant
            track_fields refl
        ∙ find_field-other (codes "ingress") "track" track_members event.track egress_fields refl
        ∙ find_field-other (codes "ingress") "egress" egress_members event.egress ingress_fields
            refl
        ∙ ap (λ fields. find_field (codes "ingress") (struct_of fields))
            (sym (append-nil ingress_fields)))
      ∙ member_of-optional_object "ingress" ingress_members ingress_of event.ingress [] (λ a. refl)
          refl

  -- Java gets the event that the receiver returned: the binding reads back every field from the object
  -- that the C API makes of it, if the time of the event fits 64 bits.
  pub event_from-event_object :
      IsInt64 event.created_at → event_from (event_object event) ≡ ok event
  unfolding event_from
  event_from-event_object fits =
      let time : long_of (decimal_int event.created_at) ≡ ok event.created_at =
        long_of-decimal_int event.created_at fits in
      rw
        (
          event-string, id-string, raw_body-string, created_at-string, time, room-member,
          participant-member, track-member, egress-member, ingress-member,
        )
        refl
