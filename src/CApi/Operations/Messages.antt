-- ===== src/CApi/Operations/Messages.antt =====
-- src/detail/dispatch.inc: the model types that the dispatch makes of a request, and those of the
-- methods that it calls.
use livekit_server_cpp.CApi.Operations.{Operation}
use livekit_server_cpp.Common.{◌≡◌, refl}
use livekit_server_cpp.Services.Agent.{AgentMethod}
use livekit_server_cpp.Services.Messages.Methods.{
  Signature, Conversion, room_signature, room_conversion, egress_signature, egress_conversion,
  ingress_signature, ingress_conversion, agent_signature, agent_conversion, connector_signature,
  connector_conversion,
}
use livekit_server_cpp.Services.Messages.SipMethods.{sip_signature, sip_conversion}
use livekit_server_cpp.Services.Messages.{Message}
use livekit_server_cpp.Services.Room.{RoomMethod}
use livekit_server_cpp.Services.Sip.{SipMethod}
use livekit_server_cpp.Services.{EgressMethod, IngressMethod, ConnectorMethod}

-- `model::<request>(request)`, for the methods of each client.
unfoldable pub dispatch_room_request : RoomMethod → Message
dispatch_room_request RoomMethod.create_room = Message.create_room_request
dispatch_room_request RoomMethod.list_rooms = Message.list_rooms_request
dispatch_room_request RoomMethod.delete_room = Message.delete_room_request
dispatch_room_request RoomMethod.list_participants = Message.list_participants_request
dispatch_room_request RoomMethod.get_participant = Message.room_participant_identity
dispatch_room_request RoomMethod.remove_participant = Message.room_participant_identity
dispatch_room_request RoomMethod.mute_published_track = Message.mute_room_track_request
dispatch_room_request RoomMethod.update_participant = Message.update_participant_request
dispatch_room_request RoomMethod.update_subscriptions = Message.update_subscriptions_request
dispatch_room_request RoomMethod.send_data = Message.send_data_request
dispatch_room_request RoomMethod.update_room_metadata = Message.update_room_metadata_request
dispatch_room_request RoomMethod.forward_participant = Message.forward_participant_request
dispatch_room_request RoomMethod.move_participant = Message.move_participant_request
dispatch_room_request RoomMethod.perform_rpc = Message.perform_rpc_request

unfoldable pub dispatch_egress_request : EgressMethod → Message
dispatch_egress_request EgressMethod.start_egress = Message.start_egress_request
dispatch_egress_request EgressMethod.start_room_composite_egress =
    Message.room_composite_egress_request
dispatch_egress_request EgressMethod.start_web_egress = Message.web_egress_request
dispatch_egress_request EgressMethod.start_participant_egress = Message.participant_egress_request
dispatch_egress_request EgressMethod.start_track_composite_egress =
    Message.track_composite_egress_request
dispatch_egress_request EgressMethod.start_track_egress = Message.track_egress_request
dispatch_egress_request EgressMethod.update_layout = Message.update_layout_request
dispatch_egress_request EgressMethod.update_stream = Message.update_stream_request
dispatch_egress_request EgressMethod.list_egress = Message.list_egress_request
dispatch_egress_request EgressMethod.stop_egress = Message.stop_egress_request

unfoldable pub dispatch_ingress_request : IngressMethod → Message
dispatch_ingress_request IngressMethod.create_ingress = Message.create_ingress_request
dispatch_ingress_request IngressMethod.update_ingress = Message.update_ingress_request
dispatch_ingress_request IngressMethod.list_ingress = Message.list_ingress_request
dispatch_ingress_request IngressMethod.delete_ingress = Message.delete_ingress_request

unfoldable pub dispatch_sip_request : SipMethod → Message
dispatch_sip_request SipMethod.create_inbound_trunk = Message.create_sip_inbound_trunk_request
dispatch_sip_request SipMethod.create_outbound_trunk = Message.create_sip_outbound_trunk_request
dispatch_sip_request SipMethod.update_inbound_trunk = Message.update_sip_inbound_trunk_request
dispatch_sip_request SipMethod.update_outbound_trunk = Message.update_sip_outbound_trunk_request
dispatch_sip_request SipMethod.get_inbound_trunk = Message.get_sip_inbound_trunk_request
dispatch_sip_request SipMethod.get_outbound_trunk = Message.get_sip_outbound_trunk_request
dispatch_sip_request SipMethod.list_trunks = Message.list_sip_trunk_request
dispatch_sip_request SipMethod.list_inbound_trunks = Message.list_sip_inbound_trunk_request
dispatch_sip_request SipMethod.list_outbound_trunks = Message.list_sip_outbound_trunk_request
dispatch_sip_request SipMethod.delete_trunk = Message.delete_sip_trunk_request
dispatch_sip_request SipMethod.create_dispatch_rule = Message.create_sip_dispatch_rule_request
dispatch_sip_request SipMethod.update_dispatch_rule = Message.update_sip_dispatch_rule_request
dispatch_sip_request SipMethod.list_dispatch_rules = Message.list_sip_dispatch_rule_request
dispatch_sip_request SipMethod.delete_dispatch_rule = Message.delete_sip_dispatch_rule_request
dispatch_sip_request SipMethod.create_participant = Message.create_sip_participant_request
dispatch_sip_request SipMethod.transfer_participant = Message.transfer_sip_participant_request

unfoldable pub dispatch_agent_request : AgentMethod → Message
dispatch_agent_request AgentMethod.create_dispatch = Message.create_agent_dispatch_request
dispatch_agent_request AgentMethod.delete_dispatch = Message.delete_agent_dispatch_request
dispatch_agent_request AgentMethod.list_dispatch = Message.list_agent_dispatch_request

unfoldable pub dispatch_connector_request : ConnectorMethod → Message
dispatch_connector_request ConnectorMethod.dial_whats_app_call = Message.dial_whats_app_call_request
dispatch_connector_request ConnectorMethod.disconnect_whats_app_call =
    Message.disconnect_whats_app_call_request
dispatch_connector_request ConnectorMethod.connect_whats_app_call =
    Message.connect_whats_app_call_request
dispatch_connector_request ConnectorMethod.accept_whats_app_call =
    Message.accept_whats_app_call_request
dispatch_connector_request ConnectorMethod.connect_twilio_call = Message.connect_twilio_call_request

unfoldable pub dispatch_request : Operation → Message
dispatch_request (Operation.room method) = dispatch_room_request method
dispatch_request (Operation.egress method) = dispatch_egress_request method
dispatch_request (Operation.ingress method) = dispatch_ingress_request method
dispatch_request (Operation.sip method) = dispatch_sip_request method
dispatch_request (Operation.agent method) = dispatch_agent_request method
dispatch_request (Operation.connector method) = dispatch_connector_request method

unfoldable pub operation_signature : Operation → Signature
operation_signature (Operation.room method) = room_signature method
operation_signature (Operation.egress method) = egress_signature method
operation_signature (Operation.ingress method) = ingress_signature method
operation_signature (Operation.sip method) = sip_signature method
operation_signature (Operation.agent method) = agent_signature method
operation_signature (Operation.connector method) = connector_signature method

unfoldable pub operation_conversion : Operation → Conversion
operation_conversion (Operation.room method) = room_conversion method
operation_conversion (Operation.egress method) = egress_conversion method
operation_conversion (Operation.ingress method) = ingress_conversion method
operation_conversion (Operation.sip method) = sip_conversion method
operation_conversion (Operation.agent method) = agent_conversion method
operation_conversion (Operation.connector method) = connector_conversion method

-- The conversion that goes with a signature.
abbrev pub fitting : Signature → Conversion
fitting s = record {
  to_response = s.response;
  from_request = s.request;
  decoded_request = s.request;
}

room-fitting :
    (method : RoomMethod)
    → (room_conversion method ≡ fitting (room_signature method))
      × (dispatch_room_request method ≡ (room_signature method).request)
unfolding room_conversion room_signature dispatch_room_request
room-fitting RoomMethod.create_room = (refl, refl)
room-fitting RoomMethod.list_rooms = (refl, refl)
room-fitting RoomMethod.delete_room = (refl, refl)
room-fitting RoomMethod.list_participants = (refl, refl)
room-fitting RoomMethod.get_participant = (refl, refl)
room-fitting RoomMethod.remove_participant = (refl, refl)
room-fitting RoomMethod.mute_published_track = (refl, refl)
room-fitting RoomMethod.update_participant = (refl, refl)
room-fitting RoomMethod.update_subscriptions = (refl, refl)
room-fitting RoomMethod.send_data = (refl, refl)
room-fitting RoomMethod.update_room_metadata = (refl, refl)
room-fitting RoomMethod.forward_participant = (refl, refl)
room-fitting RoomMethod.move_participant = (refl, refl)
room-fitting RoomMethod.perform_rpc = (refl, refl)

egress-fitting :
    (method : EgressMethod)
    → (egress_conversion method ≡ fitting (egress_signature method))
      × (dispatch_egress_request method ≡ (egress_signature method).request)
unfolding egress_conversion egress_signature dispatch_egress_request
egress-fitting EgressMethod.start_egress = (refl, refl)
egress-fitting EgressMethod.start_room_composite_egress = (refl, refl)
egress-fitting EgressMethod.start_web_egress = (refl, refl)
egress-fitting EgressMethod.start_participant_egress = (refl, refl)
egress-fitting EgressMethod.start_track_composite_egress = (refl, refl)
egress-fitting EgressMethod.start_track_egress = (refl, refl)
egress-fitting EgressMethod.update_layout = (refl, refl)
egress-fitting EgressMethod.update_stream = (refl, refl)
egress-fitting EgressMethod.list_egress = (refl, refl)
egress-fitting EgressMethod.stop_egress = (refl, refl)

ingress-fitting :
    (method : IngressMethod)
    → (ingress_conversion method ≡ fitting (ingress_signature method))
      × (dispatch_ingress_request method ≡ (ingress_signature method).request)
unfolding ingress_conversion ingress_signature dispatch_ingress_request
ingress-fitting IngressMethod.create_ingress = (refl, refl)
ingress-fitting IngressMethod.update_ingress = (refl, refl)
ingress-fitting IngressMethod.list_ingress = (refl, refl)
ingress-fitting IngressMethod.delete_ingress = (refl, refl)

sip-fitting :
    (method : SipMethod)
    → (sip_conversion method ≡ fitting (sip_signature method))
      × (dispatch_sip_request method ≡ (sip_signature method).request)
unfolding sip_conversion sip_signature dispatch_sip_request
sip-fitting SipMethod.create_inbound_trunk = (refl, refl)
sip-fitting SipMethod.create_outbound_trunk = (refl, refl)
sip-fitting SipMethod.update_inbound_trunk = (refl, refl)
sip-fitting SipMethod.update_outbound_trunk = (refl, refl)
sip-fitting SipMethod.get_inbound_trunk = (refl, refl)
sip-fitting SipMethod.get_outbound_trunk = (refl, refl)
sip-fitting SipMethod.list_trunks = (refl, refl)
sip-fitting SipMethod.list_inbound_trunks = (refl, refl)
sip-fitting SipMethod.list_outbound_trunks = (refl, refl)
sip-fitting SipMethod.delete_trunk = (refl, refl)
sip-fitting SipMethod.create_dispatch_rule = (refl, refl)
sip-fitting SipMethod.update_dispatch_rule = (refl, refl)
sip-fitting SipMethod.list_dispatch_rules = (refl, refl)
sip-fitting SipMethod.delete_dispatch_rule = (refl, refl)
sip-fitting SipMethod.create_participant = (refl, refl)
sip-fitting SipMethod.transfer_participant = (refl, refl)

agent-fitting :
    (method : AgentMethod)
    → (agent_conversion method ≡ fitting (agent_signature method))
      × (dispatch_agent_request method ≡ (agent_signature method).request)
unfolding agent_conversion agent_signature dispatch_agent_request
agent-fitting AgentMethod.create_dispatch = (refl, refl)
agent-fitting AgentMethod.delete_dispatch = (refl, refl)
agent-fitting AgentMethod.list_dispatch = (refl, refl)

connector-fitting :
    (method : ConnectorMethod)
    → (connector_conversion method ≡ fitting (connector_signature method))
      × (dispatch_connector_request method ≡ (connector_signature method).request)
unfolding connector_conversion connector_signature dispatch_connector_request
connector-fitting ConnectorMethod.dial_whats_app_call = (refl, refl)
connector-fitting ConnectorMethod.disconnect_whats_app_call = (refl, refl)
connector-fitting ConnectorMethod.connect_whats_app_call = (refl, refl)
connector-fitting ConnectorMethod.accept_whats_app_call = (refl, refl)
connector-fitting ConnectorMethod.connect_twilio_call = (refl, refl)

-- Every operation of the C API makes the model type of the message that its method takes; the method on
-- model types makes that message of it, and of the message that the method returns it makes the model
-- type of that one.
pub operation_conversion-fitting :
    (operation : Operation)
    → (operation_conversion operation ≡ fitting (operation_signature operation))
      × (dispatch_request operation ≡ (operation_signature operation).request)
unfolding operation_conversion operation_signature dispatch_request
operation_conversion-fitting (Operation.room method) = room-fitting method
operation_conversion-fitting (Operation.egress method) = egress-fitting method
operation_conversion-fitting (Operation.ingress method) = ingress-fitting method
operation_conversion-fitting (Operation.sip method) = sip-fitting method
operation_conversion-fitting (Operation.agent method) = agent-fitting method
operation_conversion-fitting (Operation.connector method) = connector-fitting method
