-- ===== src/CApi/Operations.antt =====
-- src/c_api.cpp and src/detail/dispatch.inc: `Call`, which chooses a method by the operation's name.
pub mod Names
pub mod Messages
pub mod Sent
use Prim.Native.String.{String}
use livekit_server_cpp.Common.{
  ℕ, Bool, true, false, Option, none, some, List, [], ◌∷◌, Bytes, codes, equal, if◌then◌else◌,
}
use livekit_server_cpp.Context.Call.{Codec}
use livekit_server_cpp.Error.{ErrorCode, fail}
use livekit_server_cpp.Http.{Action, ◌>>=◌, lift, done}
use livekit_server_cpp.Services.Agent.{AgentMethod, ListRequest, agent_call, get_dispatch}
use livekit_server_cpp.Services.Model.{
  MessageType, ProtocolModel, from_json, model_method, to_model,
}
use livekit_server_cpp.Services.Room.{RoomMethod, RoomFields, room_call}
use livekit_server_cpp.Services.Sip.{SipMethod, sip_call}
use livekit_server_cpp.Services.{
  Client, EgressMethod, IngressMethod, ConnectorMethod, egress_call, ingress_call, connector_call,
}

-- A method of one of the clients of `LiveKitApi`, from `Room()` to `Connector()`.
pub data Operation : Type 0 where
  room : RoomMethod → Operation
  egress : EgressMethod → Operation
  ingress : IngressMethod → Operation
  sip : SipMethod → Operation
  agent : AgentMethod → Operation
  connector : ConnectorMethod → Operation

-- The tests of `dispatch.inc` in their order, with the method that each calls.
abbrev pub operations : List (String × Operation)
operations =
    ("Room.CreateRoom", Operation.room RoomMethod.create_room)
    ∷ ("Room.ListRooms", Operation.room RoomMethod.list_rooms)
    ∷ ("Room.DeleteRoom", Operation.room RoomMethod.delete_room)
    ∷ ("Room.ListParticipants", Operation.room RoomMethod.list_participants)
    ∷ ("Room.GetParticipant", Operation.room RoomMethod.get_participant)
    ∷ ("Room.RemoveParticipant", Operation.room RoomMethod.remove_participant)
    ∷ ("Room.MutePublishedTrack", Operation.room RoomMethod.mute_published_track)
    ∷ ("Room.UpdateParticipant", Operation.room RoomMethod.update_participant)
    ∷ ("Room.UpdateSubscriptions", Operation.room RoomMethod.update_subscriptions)
    ∷ ("Room.SendData", Operation.room RoomMethod.send_data)
    ∷ ("Room.UpdateRoomMetadata", Operation.room RoomMethod.update_room_metadata)
    ∷ ("Room.ForwardParticipant", Operation.room RoomMethod.forward_participant)
    ∷ ("Room.MoveParticipant", Operation.room RoomMethod.move_participant)
    ∷ ("Room.PerformRpc", Operation.room RoomMethod.perform_rpc)
    ∷ ("Egress.StartEgress", Operation.egress EgressMethod.start_egress)
    ∷ ("Egress.StartRoomCompositeEgress", Operation.egress EgressMethod.start_room_composite_egress)
    ∷ ("Egress.StartWebEgress", Operation.egress EgressMethod.start_web_egress)
    ∷ ("Egress.StartParticipantEgress", Operation.egress EgressMethod.start_participant_egress)
    ∷ (
      "Egress.StartTrackCompositeEgress",
      Operation.egress EgressMethod.start_track_composite_egress,
    )
    ∷ ("Egress.StartTrackEgress", Operation.egress EgressMethod.start_track_egress)
    ∷ ("Egress.UpdateLayout", Operation.egress EgressMethod.update_layout)
    ∷ ("Egress.UpdateStream", Operation.egress EgressMethod.update_stream)
    ∷ ("Egress.ListEgress", Operation.egress EgressMethod.list_egress)
    ∷ ("Egress.StopEgress", Operation.egress EgressMethod.stop_egress)
    ∷ ("Ingress.CreateIngress", Operation.ingress IngressMethod.create_ingress)
    ∷ ("Ingress.UpdateIngress", Operation.ingress IngressMethod.update_ingress)
    ∷ ("Ingress.ListIngress", Operation.ingress IngressMethod.list_ingress)
    ∷ ("Ingress.DeleteIngress", Operation.ingress IngressMethod.delete_ingress)
    ∷ ("Sip.CreateInboundTrunk", Operation.sip SipMethod.create_inbound_trunk)
    ∷ ("Sip.CreateOutboundTrunk", Operation.sip SipMethod.create_outbound_trunk)
    ∷ ("Sip.UpdateInboundTrunk", Operation.sip SipMethod.update_inbound_trunk)
    ∷ ("Sip.UpdateOutboundTrunk", Operation.sip SipMethod.update_outbound_trunk)
    ∷ ("Sip.GetInboundTrunk", Operation.sip SipMethod.get_inbound_trunk)
    ∷ ("Sip.GetOutboundTrunk", Operation.sip SipMethod.get_outbound_trunk)
    ∷ ("Sip.ListTrunks", Operation.sip SipMethod.list_trunks)
    ∷ ("Sip.ListInboundTrunks", Operation.sip SipMethod.list_inbound_trunks)
    ∷ ("Sip.ListOutboundTrunks", Operation.sip SipMethod.list_outbound_trunks)
    ∷ ("Sip.DeleteTrunk", Operation.sip SipMethod.delete_trunk)
    ∷ ("Sip.CreateDispatchRule", Operation.sip SipMethod.create_dispatch_rule)
    ∷ ("Sip.UpdateDispatchRule", Operation.sip SipMethod.update_dispatch_rule)
    ∷ ("Sip.ListDispatchRules", Operation.sip SipMethod.list_dispatch_rules)
    ∷ ("Sip.DeleteDispatchRule", Operation.sip SipMethod.delete_dispatch_rule)
    ∷ ("Sip.CreateParticipant", Operation.sip SipMethod.create_participant)
    ∷ ("Sip.TransferParticipant", Operation.sip SipMethod.transfer_participant)
    ∷ ("AgentDispatch.CreateDispatch", Operation.agent AgentMethod.create_dispatch)
    ∷ ("AgentDispatch.DeleteDispatch", Operation.agent AgentMethod.delete_dispatch)
    ∷ ("AgentDispatch.ListDispatch", Operation.agent AgentMethod.list_dispatch)
    ∷ ("Connector.DialWhatsAppCall", Operation.connector ConnectorMethod.dial_whats_app_call)
    ∷ (
      "Connector.DisconnectWhatsAppCall",
      Operation.connector ConnectorMethod.disconnect_whats_app_call,
    )
    ∷ ("Connector.ConnectWhatsAppCall", Operation.connector ConnectorMethod.connect_whats_app_call)
    ∷ ("Connector.AcceptWhatsAppCall", Operation.connector ConnectorMethod.accept_whats_app_call)
    ∷ ("Connector.ConnectTwilioCall", Operation.connector ConnectorMethod.connect_twilio_call)
    ∷ []

unfoldable pub find_operation : Bytes → List (String × Operation) → Option Operation
find_operation name [] = none
find_operation name ((candidate, operation) ∷ rest) =
    if equal (codes candidate) name then some operation else find_operation name rest

-- protobuf's generated code for the messages of each operation: the types, their conversions, and the
-- fields that the clients read. Where a message has no such field, it is not read.
pub record Protocol : Type 1 where
  pub Request : Operation → Type 0
  pub Response : Operation → Type 0
  pub request_type : (operation : Operation) → MessageType (Request operation)
  pub response_type : (operation : Operation) → MessageType (Response operation)
  pub codec : (operation : Operation) → Codec (Request operation) (Response operation)
  pub fields : (operation : Operation) → RoomFields (Request operation)
  pub room_name : (operation : Operation) → Request operation → Bytes
  pub Dispatch : Type 0
  pub dispatch_type : MessageType Dispatch
  pub list_codec : Codec ListRequest (List Dispatch)

module _ (client : Client) (protocol : Protocol) where
  -- The method of the client on protobuf's types.
  unfoldable pub operation_call :
      (operation : Operation) → protocol.Request operation → Action (protocol.Response operation)
  operation_call (Operation.room method) =
      let o = Operation.room method in
      room_call client (protocol.codec o) (protocol.fields o) method
  operation_call (Operation.egress method) =
      egress_call client (protocol.codec (Operation.egress method)) method
  operation_call (Operation.ingress method) =
      ingress_call client (protocol.codec (Operation.ingress method)) method
  operation_call (Operation.sip method) =
      let o = Operation.sip method in
      sip_call client (protocol.codec o) method (protocol.room_name o)
  operation_call (Operation.agent method) =
      let o = Operation.agent method in
      agent_call client (protocol.codec o) method ((protocol.fields o).room)
  operation_call (Operation.connector method) =
      let o = Operation.connector method in
      connector_call client (protocol.codec o) method (protocol.room_name o)

  -- The method on the model types.
  unfoldable pub operation_method : Operation → ProtocolModel → Action ProtocolModel
  operation_method operation =
      model_method (protocol.request_type operation) (protocol.response_type operation)
        (operation_call operation)

  -- The method whose test holds, or the error behind the tests.
  unfoldable pub call_found : Option Operation → Bytes → Action Bytes
  call_found none request = lift (fail ErrorCode.invalid_argument "unknown C ABI server operation")
  call_found (some operation) request =
      operation_method operation (from_json request) >>= λ response. done response.json

  -- `Call`.
  unfoldable pub call_by_name : Bytes → Bytes → Action Bytes
  call_by_name name request = call_found (find_operation name operations) request

  unfoldable pub dispatch_model : Option protocol.Dispatch → Action (Option ProtocolModel)
  dispatch_model none = done none
  dispatch_model (some dispatch) =
      lift (to_model protocol.dispatch_type dispatch) >>= λ model. done (some model)

  -- `GetDispatchModel`.
  unfoldable pub get_dispatch_model : Bytes → Bytes → Action (Option ProtocolModel)
  get_dispatch_model dispatch_id room_name =
      get_dispatch client protocol.list_codec dispatch_id room_name >>= dispatch_model
