-- ===== src/Webhook/Dispatch.antt =====
-- src/webhook_receiver.cpp: the callbacks of a receiver, and `Dispatch`. A callback is an
-- application's function, named by a number; what it does to the receiver is a parameter.
use livekit_server_cpp.Common.{
  Bool-cases, ℕ, ◌≡◌, ◌≢◌, ◌⊎◌, inl, inr, refl, Bool-cases, equal_iff, sym, ap, ◌∙◌, Option, none,
  some, List, [], ◌∷◌, ◌++◌, append_assoc, append-nil, Bytes, codes, equal, if◌then◌else◌,
}
use livekit_server_cpp.Common.Int.{ℤ}
use livekit_server_cpp.Error.{Result, ok, ◌>>=◌, ok-injective, bind-eq-ok}
use livekit_server_cpp.Webhook.{Backend, KeyProvider, WebhookEvent, receive_at}

-- A `std::function` that may be empty.
abbrev pub WebhookCallback : Type 0
WebhookCallback = Option ℕ

pub record WebhookCallbacks : Type 0 where
  pub on_event : WebhookCallback
  pub on_room_started : WebhookCallback
  pub on_room_finished : WebhookCallback
  pub on_participant_joined : WebhookCallback
  pub on_participant_left : WebhookCallback
  pub on_participant_connection_aborted : WebhookCallback
  pub on_track_published : WebhookCallback
  pub on_track_unpublished : WebhookCallback
  pub on_egress_started : WebhookCallback
  pub on_egress_updated : WebhookCallback
  pub on_egress_ended : WebhookCallback
  pub on_ingress_started : WebhookCallback
  pub on_ingress_ended : WebhookCallback

-- `SpecificCallback`.
unfoldable pub specific_callback : WebhookCallbacks → Bytes → WebhookCallback
specific_callback callbacks event =
    if equal event (codes "room_started")
    then callbacks.on_room_started
    else if equal event (codes "room_finished")
    then callbacks.on_room_finished
    else if equal event (codes "participant_joined")
    then callbacks.on_participant_joined
    else if equal event (codes "participant_left")
    then callbacks.on_participant_left
    else if equal event (codes "participant_connection_aborted")
    then callbacks.on_participant_connection_aborted
    else if equal event (codes "track_published")
    then callbacks.on_track_published
    else if equal event (codes "track_unpublished")
    then callbacks.on_track_unpublished
    else if equal event (codes "egress_started")
    then callbacks.on_egress_started
    else if equal event (codes "egress_updated")
    then callbacks.on_egress_updated
    else if equal event (codes "egress_ended")
    then callbacks.on_egress_ended
    else if equal event (codes "ingress_started")
    then callbacks.on_ingress_started
    else if equal event (codes "ingress_ended")
    then callbacks.on_ingress_ended
    else none

-- The names of the events that have a callback of their own, with that callback.
abbrev pub own_callbacks : WebhookCallbacks → List (Bytes × WebhookCallback)
own_callbacks callbacks =
    (codes "room_started", callbacks.on_room_started)
    ∷ (codes "room_finished", callbacks.on_room_finished)
    ∷ (codes "participant_joined", callbacks.on_participant_joined)
    ∷ (codes "participant_left", callbacks.on_participant_left)
    ∷ (codes "participant_connection_aborted", callbacks.on_participant_connection_aborted)
    ∷ (codes "track_published", callbacks.on_track_published)
    ∷ (codes "track_unpublished", callbacks.on_track_unpublished)
    ∷ (codes "egress_started", callbacks.on_egress_started)
    ∷ (codes "egress_updated", callbacks.on_egress_updated)
    ∷ (codes "egress_ended", callbacks.on_egress_ended)
    ∷ (codes "ingress_started", callbacks.on_ingress_started)
    ∷ (codes "ingress_ended", callbacks.on_ingress_ended)
    ∷ []

-- The callback that stands with the first name that is the event's, and none where there is no such
-- name.
abbrev pub IsOwn : List (Bytes × WebhookCallback) → Bytes → WebhookCallback → Type 0
IsOwn [] event callback = callback ≡ none
IsOwn ((name, own) ∷ others) event callback =
    ((event ≡ name) × (callback ≡ own)) ⊎ ((event ≢ name) × IsOwn others event callback)

-- The callback at the first name that is the event's.
abbrev find_own : List (Bytes × WebhookCallback) → Bytes → WebhookCallback
find_own [] event = none
find_own ((name, own) ∷ others) event =
    let later = find_own others event in if equal event name then own else later

find_own-IsOwn :
    (table : List (Bytes × WebhookCallback)) (event : Bytes)
    → IsOwn table event (find_own table event)
find_own-IsOwn [] event = refl
find_own-IsOwn ((name, own) ∷ others) event = elim (Bool-cases (equal event name)) [
  | inl e ↦ rw e (inl ((equal_iff event name).0 e, refl))
  | inr e ↦
      rw e
        (inr (λ same. let met = (equal_iff event name).1 same in cc, find_own-IsOwn others event))
]

specific_callback_lem :
    (callbacks : WebhookCallbacks) (event : Bytes)
    → specific_callback callbacks event ≡ find_own (own_callbacks callbacks) event
unfolding specific_callback
specific_callback_lem callbacks event = refl

-- The receiver's state, and the callbacks that were entered so far, each with its event.
pub record Receiver : Type 0 where
  pub callbacks : WebhookCallbacks
  pub entered : List (ℕ × WebhookEvent)

-- `SetCallbacks`.
unfoldable pub set_callbacks : WebhookCallbacks → Receiver → Receiver
set_callbacks callbacks receiver = record receiver { callbacks = callbacks }

-- What an application's callback does: it throws, or it returns and leaves the receiver with
-- callbacks of its choice, by way of `SetCallbacks`.
abbrev pub Application : Type 0
Application = ℕ → WebhookEvent → WebhookCallbacks → Result WebhookCallbacks

module _ (application : Application) (event : WebhookEvent) where
  -- `if (callback) callback(event);`
  unfoldable pub enter : WebhookCallback → Receiver → Result Receiver
  enter none receiver = ok receiver
  enter (some callback) receiver = do
    callbacks ← application callback event receiver.callbacks
    ok (
        set_callbacks callbacks
          (record receiver { entered = receiver.entered ++ (callback, event) ∷ [] }))

  -- `Dispatch`, whose first step copies the callbacks.
  unfoldable pub dispatch : Receiver → Result Receiver
  dispatch receiver = do
    let callbacks = receiver.callbacks
    between ← enter callbacks.on_event receiver
    enter (specific_callback callbacks event.event) between

  -- The calls of one callback.
  abbrev pub calls : WebhookCallback → List (ℕ × WebhookEvent)
  calls none = []
  calls (some callback) = (callback, event) ∷ []

  enter-calls :
      (callback : WebhookCallback) (receiver later : Receiver)
      → enter callback receiver ≡ ok later
      → later.entered ≡ receiver.entered ++ calls callback
  unfolding enter set_callbacks
  enter-calls none receiver later h =
      ap (λ r. r.entered) (sym (ok-injective h)) ∙ sym (append-nil receiver.entered)
  enter-calls (some callback) receiver later h =
      let (callbacks, e, k) = bind-eq-ok (application callback event receiver.callbacks) _ h in
      ap (λ r. r.entered) (sym (ok-injective k))

  -- A dispatch that returns has entered the general callback and then the one for the event's name,
  -- of twelve names with a callback each, and none for another name: each at most once and both as
  -- they were set when it began, whatever callbacks are set meanwhile.
  pub dispatch-calls :
      (receiver later : Receiver)
      → dispatch receiver ≡ ok later
      → (own : WebhookCallback) × IsOwn (own_callbacks receiver.callbacks) event.event own
        × (later.entered ≡ receiver.entered ++ (calls receiver.callbacks.on_event ++ calls own))
  unfolding dispatch
  dispatch-calls receiver later h =
      let own = specific_callback receiver.callbacks event.event in
      let found = specific_callback_lem receiver.callbacks event.event in
      let (between, e, k) = bind-eq-ok (enter receiver.callbacks.on_event receiver) _ h in
      (
        own,
        rw found (find_own-IsOwn (own_callbacks receiver.callbacks) event.event),
        enter-calls own between later k
            ∙ ap (λ entered. entered ++ calls own)
                (enter-calls receiver.callbacks.on_event receiver between e)
            ∙ append_assoc receiver.entered (calls receiver.callbacks.on_event) _,
      )

-- `ReceiveAndDispatch`, at the time that `Receive` reads from the clock.
unfoldable pub receive_and_dispatch :
    Backend → KeyProvider → Application → Bytes → Bytes → ℤ → Receiver → Result Receiver
receive_and_dispatch backend key_provider application body authorization now receiver = do
  event ← receive_at backend key_provider body authorization now
  dispatch application event receiver
