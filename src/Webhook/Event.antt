-- ===== src/Webhook/Event.antt =====
-- The event that is made of a parsed message, field by field.
use livekit_server_cpp.Common.{◌≡◌, ◌↔◌, refl, sym, subst, ap, ◌∙◌, Option, none, some, Bytes}
use livekit_server_cpp.Error.{ok, ok-injective}
use livekit_server_cpp.Webhook.{
  RoomMessage, ParticipantMessage, TrackMessage, EgressMessage, IngressMessage, Message,
  WebhookRoom, WebhookParticipant, WebhookTrack, WebhookEgress, WebhookIngress, WebhookEvent,
  Parsed, webhook_room, webhook_participant, webhook_track, webhook_egress, webhook_ingress,
  event_of,
}

abbrev pub SameRoom : Option RoomMessage → Option WebhookRoom → Type 0
SameRoom none none = Unit
SameRoom (some source) (some room) =
    (room.sid ≡ source.sid) × (room.name ≡ source.name) × (room.metadata ≡ source.metadata)
SameRoom _ _ = ⊥

webhook_room_iff :
    (source : Option RoomMessage) (room : Option WebhookRoom)
    → (webhook_room source ≡ room) ↔ SameRoom source room
unfolding webhook_room
webhook_room_iff source room =
    (λ e. subst (λ room. SameRoom source room) e (copied source), back source room)
  where
    copied : (source : Option RoomMessage) → SameRoom source (webhook_room source)
    copied none = tt
    copied (some source) = (refl, refl, refl)

    back :
        (source : Option RoomMessage) (room : Option WebhookRoom)
        → SameRoom source room
        → webhook_room source ≡ room
    back none none h = refl
    back none (some room) h = absurd h
    back (some source) none h = absurd h
    back (some source) (some room) (e0, e1, e2) =
        sym (λ i. some (record { sid = e0 i; name = e1 i; metadata = e2 i }))

abbrev pub SameParticipant : Option ParticipantMessage → Option WebhookParticipant → Type 0
SameParticipant none none = Unit
SameParticipant (some source) (some participant) =
    (participant.sid ≡ source.sid)
    × (participant.identity ≡ source.identity)
    × (participant.name ≡ source.name)
    × (participant.metadata ≡ source.metadata)
SameParticipant _ _ = ⊥

webhook_participant_iff :
    (source : Option ParticipantMessage) (participant : Option WebhookParticipant)
    → (webhook_participant source ≡ participant) ↔ SameParticipant source participant
unfolding webhook_participant
webhook_participant_iff source participant = (
  λ e. subst (λ participant. SameParticipant source participant) e (copied source),
  back source participant,
)
  where
    copied :
        (source : Option ParticipantMessage) → SameParticipant source (webhook_participant source)
    copied none = tt
    copied (some source) = (refl, refl, refl, refl)

    back :
        (source : Option ParticipantMessage) (participant : Option WebhookParticipant)
        → SameParticipant source participant
        → webhook_participant source ≡ participant
    back none none h = refl
    back none (some participant) h = absurd h
    back (some source) none h = absurd h
    back (some source) (some participant) (e0, e1, e2, e3) =
        sym (λ i. some (record { sid = e0 i; identity = e1 i; name = e2 i; metadata = e3 i }))

abbrev pub SameTrack : Option TrackMessage → Option WebhookTrack → Type 0
SameTrack none none = Unit
SameTrack (some source) (some track) = (track.sid ≡ source.sid) × (track.name ≡ source.name)
SameTrack _ _ = ⊥

webhook_track_iff :
    (source : Option TrackMessage) (track : Option WebhookTrack)
    → (webhook_track source ≡ track) ↔ SameTrack source track
unfolding webhook_track
webhook_track_iff source track =
    (λ e. subst (λ track. SameTrack source track) e (copied source), back source track)
  where
    copied : (source : Option TrackMessage) → SameTrack source (webhook_track source)
    copied none = tt
    copied (some source) = (refl, refl)

    back :
        (source : Option TrackMessage) (track : Option WebhookTrack)
        → SameTrack source track
        → webhook_track source ≡ track
    back none none h = refl
    back none (some track) h = absurd h
    back (some source) none h = absurd h
    back (some source) (some track) (e0, e1) = sym (λ i. some (record { sid = e0 i; name = e1 i }))

abbrev pub SameEgress : Option EgressMessage → Option WebhookEgress → Type 0
SameEgress none none = Unit
SameEgress (some source) (some egress) =
    (egress.egress_id ≡ source.egress_id)
    × (egress.room_id ≡ source.room_id)
    × (egress.room_name ≡ source.room_name)
SameEgress _ _ = ⊥

webhook_egress_iff :
    (source : Option EgressMessage) (egress : Option WebhookEgress)
    → (webhook_egress source ≡ egress) ↔ SameEgress source egress
unfolding webhook_egress
webhook_egress_iff source egress =
    (λ e. subst (λ egress. SameEgress source egress) e (copied source), back source egress)
  where
    copied : (source : Option EgressMessage) → SameEgress source (webhook_egress source)
    copied none = tt
    copied (some source) = (refl, refl, refl)

    back :
        (source : Option EgressMessage) (egress : Option WebhookEgress)
        → SameEgress source egress
        → webhook_egress source ≡ egress
    back none none h = refl
    back none (some egress) h = absurd h
    back (some source) none h = absurd h
    back (some source) (some egress) (e0, e1, e2) =
        sym (λ i. some (record { egress_id = e0 i; room_id = e1 i; room_name = e2 i }))

abbrev pub SameIngress : Option IngressMessage → Option WebhookIngress → Type 0
SameIngress none none = Unit
SameIngress (some source) (some ingress) =
    (ingress.ingress_id ≡ source.ingress_id)
    × (ingress.name ≡ source.name)
    × (ingress.room_name ≡ source.room_name)
SameIngress _ _ = ⊥

webhook_ingress_iff :
    (source : Option IngressMessage) (ingress : Option WebhookIngress)
    → (webhook_ingress source ≡ ingress) ↔ SameIngress source ingress
unfolding webhook_ingress
webhook_ingress_iff source ingress =
    (λ e. subst (λ ingress. SameIngress source ingress) e (copied source), back source ingress)
  where
    copied : (source : Option IngressMessage) → SameIngress source (webhook_ingress source)
    copied none = tt
    copied (some source) = (refl, refl, refl)

    back :
        (source : Option IngressMessage) (ingress : Option WebhookIngress)
        → SameIngress source ingress
        → webhook_ingress source ≡ ingress
    back none none h = refl
    back none (some ingress) h = absurd h
    back (some source) none h = absurd h
    back (some source) (some ingress) (e0, e1, e2) =
        sym (λ i. some (record { ingress_id = e0 i; name = e1 i; room_name = e2 i }))

-- An event that says what a message of protobuf says, part by part, and holds the body.
pub record SaysSame (body : Bytes) (parsed : Message) (event : WebhookEvent) : Type 0 where
  pub event_name : event.event ≡ parsed.event
  pub id : event.id ≡ parsed.id
  pub created_at : event.created_at ≡ parsed.created_at
  pub room : SameRoom parsed.room event.room
  pub participant : SameParticipant parsed.participant event.participant
  pub track : SameTrack parsed.track event.track
  pub egress : SameEgress parsed.egress_info event.egress
  pub ingress : SameIngress parsed.ingress_info event.ingress
  pub raw_body : event.raw_body ≡ body

message_sound :
    (body : Bytes) (parsed : Message) (event : WebhookEvent)
    → event_of body (Parsed.message parsed) ≡ ok event
    → SaysSame body parsed event
unfolding event_of
message_sound body parsed event h =
    subst (λ event. SaysSame body parsed event) (ok-injective h)
      (record {
        event_name = refl;
        id = refl;
        created_at = refl;
        room = (webhook_room_iff parsed.room _).0 refl;
        participant = (webhook_participant_iff parsed.participant _).0 refl;
        track = (webhook_track_iff parsed.track _).0 refl;
        egress = (webhook_egress_iff parsed.egress_info _).0 refl;
        ingress = (webhook_ingress_iff parsed.ingress_info _).0 refl;
        raw_body = refl;
      })

message_complete :
    (body : Bytes) (parsed : Message) (event : WebhookEvent)
    → SaysSame body parsed event
    → event_of body (Parsed.message parsed) ≡ ok event
unfolding event_of
message_complete body parsed event s =
    let room = (webhook_room_iff parsed.room event.room).1 s.room in
    let participant =
      (webhook_participant_iff parsed.participant event.participant).1 s.participant in
    let track = (webhook_track_iff parsed.track event.track).1 s.track in
    let egress = (webhook_egress_iff parsed.egress_info event.egress).1 s.egress in
    let ingress = (webhook_ingress_iff parsed.ingress_info event.ingress).1 s.ingress in
    λ i. ok (record {
      event = sym s.event_name i;
      id = sym s.id i;
      created_at = sym s.created_at i;
      room = room i;
      participant = participant i;
      track = track i;
      egress = egress i;
      ingress = ingress i;
      raw_body = sym s.raw_body i;
    })

-- An event is made exactly if the text was parsed and the event says what the message says.
pub event_of_iff :
    (body : Bytes) (outcome : Parsed) (event : WebhookEvent)
    → (event_of body outcome ≡ ok event)
      ↔ ((parsed : Message) × (outcome ≡ Parsed.message parsed) × SaysSame body parsed event)
unfolding event_of
event_of_iff body (Parsed.message parsed) event = (
  λ h. (parsed, refl, message_sound body parsed event h),
  λ (other, e, s). ap (λ outcome. event_of body outcome) e ∙ message_complete body other event s,
)
event_of_iff body (Parsed.bad_status text) event =
    (λ h. absurd (fails h), λ (parsed, e, s). absurd (elim_bad parsed e))
  where
    elim_bad : (parsed : Message) → Parsed.bad_status text ≡ Parsed.message parsed → ⊥
    elim_bad parsed e = cc

    fails : event_of body (Parsed.bad_status text) ≡ ok event → ⊥
    fails h = cc
