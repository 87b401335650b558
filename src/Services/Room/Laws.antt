-- ===== src/Services/Room/Laws.antt =====
-- What the methods of `RoomServiceClient` may ask for, and what they send.
use livekit_server_cpp.Common.{
  ◌≡◌, ◌⊎◌, refl, sym, ap, ◌∙◌, Bool, true, false, not, [], ◌∷◌, Bytes, codes, is_empty, Bool-cases,
  inl, inr,
}
use livekit_server_cpp.Context.Call.{Codec}
use livekit_server_cpp.Context.Exchange.{
  IsExchange, call-IsExchange, random_bytes-sent, Silent, Silent-bind, sent_of,
}
use livekit_server_cpp.Error.{ok}
use livekit_server_cpp.Http.{World, random_bytes, action-eq-ok}
use livekit_server_cpp.Services.Room.{
  RoomMethod, RoomFields, room_grant, room_method_name, room_method_grant, fresh_nonce, with_nonce,
  prepare, room_call,
}
use livekit_server_cpp.Services.{Client, perform, video_only}
use livekit_server_cpp.Token.{VideoGrant, no_video_grant}

-- The methods that take a participant to a second room.
abbrev pub Reaches : RoomMethod → Type 0
Reaches method = (method ≡ RoomMethod.forward_participant) ⊎ (method ≡ RoomMethod.move_participant)

-- A grant that gives power over the room at most: none over a single room, or over that room, which
-- has a name, and then none over rooms in general; over nothing but rooms; and over a second room only
-- if it is the destination and the method goes there.
pub record IsNarrow (method : RoomMethod) (room destination : Bytes) (grant : VideoGrant)
    : Type 0 where
  pub admin :
      (grant.room_admin ≡ false)
      ⊎ ((grant.room ≡ room)
          × (is_empty room ≡ false)
          × (grant.room_create ≡ false)
          × (grant.room_list ≡ false))
  pub second_room :
      (grant.destination_room ≡ []) ⊎ (Reaches method × (grant.destination_room ≡ destination))
  pub only_rooms :
      (grant.room_join ≡ false) × (grant.room_record ≡ false) × (grant.ingress_admin ≡ false)

room_grant-IsNarrow :
    (method : RoomMethod) (room destination asked : Bytes)
    → (asked ≡ []) ⊎ (Reaches method × (asked ≡ destination))
    → IsNarrow method room destination (record no_video_grant {
      room_admin = not (is_empty room);
      room = room;
      destination_room = asked;
    })
room_grant-IsNarrow method [] destination asked reached = record {
  admin = inl refl;
  second_room = reached;
  only_rooms = (refl, refl, refl);
}
room_grant-IsNarrow method (c ∷ room) destination asked reached = record {
  admin = inr (refl, refl, refl, refl);
  second_room = reached;
  only_rooms = (refl, refl, refl);
}

global_grant-IsNarrow :
    (method : RoomMethod) (room destination : Bytes) (create list : Bool)
    → IsNarrow method room destination
        (record no_video_grant { room_create = create; room_list = list })
global_grant-IsNarrow method room destination create list = record {
  admin = inl refl;
  second_room = inl refl;
  only_rooms = (refl, refl, refl);
}

-- Whatever the method, its grant is one of video, for one room at most: power over a room is only
-- granted over the request's room, which has a name, and never with the power to create or to list
-- rooms; a second room is named only by the methods that forward or move a participant, and it is the
-- request's destination; no grant lets its holder join, record or manage ingress.
pub room_method_grant-IsNarrow :
    (method : RoomMethod) (room destination : Bytes)
    → (grant : VideoGrant) × (room_method_grant method room destination ≡ video_only grant)
      × IsNarrow method room destination grant
unfolding room_method_grant room_grant
room_method_grant-IsNarrow RoomMethod.create_room room destination =
    (_, refl, global_grant-IsNarrow _ room destination true false)
room_method_grant-IsNarrow RoomMethod.list_rooms room destination =
    (_, refl, global_grant-IsNarrow _ room destination false true)
room_method_grant-IsNarrow RoomMethod.delete_room room destination =
    (_, refl, global_grant-IsNarrow _ room destination true false)
room_method_grant-IsNarrow RoomMethod.list_participants room destination =
    (_, refl, room_grant-IsNarrow _ room destination [] (inl refl))
room_method_grant-IsNarrow RoomMethod.get_participant room destination =
    (_, refl, room_grant-IsNarrow _ room destination [] (inl refl))
room_method_grant-IsNarrow RoomMethod.remove_participant room destination =
    (_, refl, room_grant-IsNarrow _ room destination [] (inl refl))
room_method_grant-IsNarrow RoomMethod.mute_published_track room destination =
    (_, refl, room_grant-IsNarrow _ room destination [] (inl refl))
room_method_grant-IsNarrow RoomMethod.update_participant room destination =
    (_, refl, room_grant-IsNarrow _ room destination [] (inl refl))
room_method_grant-IsNarrow RoomMethod.update_subscriptions room destination =
    (_, refl, room_grant-IsNarrow _ room destination [] (inl refl))
room_method_grant-IsNarrow RoomMethod.send_data room destination =
    (_, refl, room_grant-IsNarrow _ room destination [] (inl refl))
room_method_grant-IsNarrow RoomMethod.update_room_metadata room destination =
    (_, refl, room_grant-IsNarrow _ room destination [] (inl refl))
room_method_grant-IsNarrow RoomMethod.forward_participant room destination =
    (_, refl, room_grant-IsNarrow _ room destination destination (inr (inl refl, refl)))
room_method_grant-IsNarrow RoomMethod.move_participant room destination =
    (_, refl, room_grant-IsNarrow _ room destination destination (inr (inr refl, refl)))
room_method_grant-IsNarrow RoomMethod.perform_rpc room destination =
    (_, refl, room_grant-IsNarrow _ room destination [] (inl refl))

module _ (client : Client) {Request Response : Type 0} (codec : Codec Request Response)
    (fields : RoomFields Request) where
  pub prepare-sent :
      (method : RoomMethod) (request : Request)
      → Silent (prepare client codec fields method request)
  unfolding prepare with_nonce fresh_nonce
  prepare-sent RoomMethod.send_data request world =
      elim (Bool-cases (is_empty (fields.nonce request))) [
        | inl e ↦ rw e (
            Silent-bind (random_bytes client.machine 16) _ world
              (random_bytes-sent client.machine 16 world) (λ nonce later. refl))
        | inr e ↦ rw e refl
      ]
  prepare-sent RoomMethod.create_room request world = refl
  prepare-sent RoomMethod.list_rooms request world = refl
  prepare-sent RoomMethod.delete_room request world = refl
  prepare-sent RoomMethod.list_participants request world = refl
  prepare-sent RoomMethod.get_participant request world = refl
  prepare-sent RoomMethod.remove_participant request world = refl
  prepare-sent RoomMethod.mute_published_track request world = refl
  prepare-sent RoomMethod.update_participant request world = refl
  prepare-sent RoomMethod.update_subscriptions request world = refl
  prepare-sent RoomMethod.update_room_metadata request world = refl
  prepare-sent RoomMethod.forward_participant request world = refl
  prepare-sent RoomMethod.move_participant request world = refl
  prepare-sent RoomMethod.perform_rpc request world = refl

  -- A method that returns a response has sent one request, to `RoomService` and the method of its
  -- name, with the grant of the request's rooms; the message is the caller's, or with a nonce.
  pub room_call-IsExchange :
      (method : RoomMethod) (request : Request) (world later : World) (response : Response)
      → room_call client codec fields method request world ≡ (ok response, later)
      → (prepared : Request) × (between : World) × (prepare client codec fields method request world
          ≡ (ok prepared, between))
        × (between.sent ≡ world.sent)
        × IsExchange client.library codec client.machine client.context
            (codes "RoomService")
            (room_method_name method)
            prepared
            (room_method_grant method (fields.room request) (fields.destination_room request))
            between
            later
            response
  unfolding room_call perform
  room_call-IsExchange method request world later response h =
      let (prepared, between, e, k) =
        action-eq-ok (prepare client codec fields method request) _ world h in
      (
        prepared,
        between,
        e,
        ap sent_of (sym e) ∙ prepare-sent method request world,
        call-IsExchange client.library codec client.machine client.context _ _ prepared true _
            between later response k,
      )
