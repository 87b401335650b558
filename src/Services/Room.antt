-- ===== src/Services/Room.antt =====
-- src/room_service_client.cpp: `RoomServiceClient`.
pub mod Laws
mod Runs
use livekit_server_cpp.Common.{
  ℕ, Bool, true, false, not, Option, none, some, [], ◌∷◌, Bytes, codes, is_empty, if◌then◌else◌,
}
use livekit_server_cpp.Context.Call.{Codec}
use livekit_server_cpp.Context.{RequestGrant}
use livekit_server_cpp.Http.{Machine, Action, ◌>>=◌, done, random_bytes}
use livekit_server_cpp.Services.{Client, perform, video_only}
use livekit_server_cpp.Token.{VideoGrant, no_video_grant}

pub data RoomMethod : Type 0 where
  create_room list_rooms delete_room list_participants get_participant remove_participant :
      RoomMethod
  mute_published_track update_participant update_subscriptions send_data : RoomMethod
  update_room_metadata forward_participant move_participant perform_rpc : RoomMethod

-- `RoomGrant`.
unfoldable pub room_grant : Bool → Bool → Bytes → Bytes → RequestGrant
room_grant create list room destination = video_only (record no_video_grant {
  room_create = create;
  room_list = list;
  room_admin = not (is_empty room);
  room = room;
  destination_room = destination;
})

unfoldable pub room_method_name : RoomMethod → Bytes
room_method_name RoomMethod.create_room = codes "CreateRoom"
room_method_name RoomMethod.list_rooms = codes "ListRooms"
room_method_name RoomMethod.delete_room = codes "DeleteRoom"
room_method_name RoomMethod.list_participants = codes "ListParticipants"
room_method_name RoomMethod.get_participant = codes "GetParticipant"
room_method_name RoomMethod.remove_participant = codes "RemoveParticipant"
room_method_name RoomMethod.mute_published_track = codes "MutePublishedTrack"
room_method_name RoomMethod.update_participant = codes "UpdateParticipant"
room_method_name RoomMethod.update_subscriptions = codes "UpdateSubscriptions"
room_method_name RoomMethod.send_data = codes "SendData"
room_method_name RoomMethod.update_room_metadata = codes "UpdateRoomMetadata"
room_method_name RoomMethod.forward_participant = codes "ForwardParticipant"
room_method_name RoomMethod.move_participant = codes "MoveParticipant"
room_method_name RoomMethod.perform_rpc = codes "PerformRpc"

-- The grant of a method, from the request's room and destination room.
unfoldable pub room_method_grant : RoomMethod → Bytes → Bytes → RequestGrant
room_method_grant RoomMethod.create_room room destination = room_grant true false [] []
room_method_grant RoomMethod.list_rooms room destination = room_grant false true [] []
room_method_grant RoomMethod.delete_room room destination = room_grant true false [] []
room_method_grant RoomMethod.forward_participant room destination =
    room_grant false false room destination
room_method_grant RoomMethod.move_participant room destination =
    room_grant false false room destination
room_method_grant _ room destination = room_grant false false room []

-- What the client reads and writes of a request; where a message has no such field, it is not read.
pub record RoomFields (Request : Type 0) : Type 0 where
  pub room : Request → Bytes
  pub destination_room : Request → Bytes
  pub nonce : Request → Bytes
  pub set_nonce : Bytes → Request → Request

-- `Nonce`.
unfoldable pub fresh_nonce : Machine → Action Bytes
fresh_nonce machine = random_bytes machine 16

module _ (client : Client) {Request Response : Type 0} (codec : Codec Request Response)
    (fields : RoomFields Request) where
  -- `if (request_with_nonce.nonce().empty()) request_with_nonce.set_nonce(Nonce());`
  unfoldable pub with_nonce : Request → Action Request
  with_nonce request =
      if is_empty (fields.nonce request)
      then (fresh_nonce client.machine >>= λ nonce. done (fields.set_nonce nonce request))
      else done request

  -- Only `SendData` changes the request.
  unfoldable pub prepare : RoomMethod → Request → Action Request
  prepare RoomMethod.send_data request = with_nonce request
  prepare _ request = done request

  -- A method. The grant is for the room of the request that the caller gave.
  unfoldable pub room_call : RoomMethod → Request → Action Response
  room_call method request = prepare method request >>= λ prepared.
      perform client codec (codes "RoomService") (room_method_name method) prepared
        (room_method_grant method (fields.room request) (fields.destination_room request))
