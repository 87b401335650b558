-- ===== src/Services/Messages/Methods.antt =====
-- The message types of the clients' methods, once in the definitions of the methods and once where the
-- methods on model types convert.
use livekit_server_cpp.Services.Messages.{Message}
use livekit_server_cpp.Services.Room.{RoomMethod}
use livekit_server_cpp.Services.Agent.{AgentMethod}
use livekit_server_cpp.Services.{EgressMethod, IngressMethod, ConnectorMethod}

-- `livekit::<response> Client::Method(const livekit::<request>&)`.
pub record Signature : Type 0 where
  pub response : Message
  pub request : Message

-- The arguments of a macro `LIVEKIT_..._MODEL_METHOD`: the model types, and the class that `FromModel`
-- makes.
pub record Conversion : Type 0 where
  pub to_response : Message
  pub from_request : Message
  pub decoded_request : Message

abbrev pub signature : Message → Message → Signature
signature response request = record { response = response; request = request }

abbrev pub conversion : Message → Message → Message → Conversion
conversion to from class = record { to_response = to; from_request = from; decoded_request = class }

unfoldable pub room_signature : RoomMethod → Signature
room_signature RoomMethod.create_room = signature Message.room Message.create_room_request
room_signature RoomMethod.list_rooms =
    signature Message.list_rooms_response Message.list_rooms_request
room_signature RoomMethod.delete_room =
    signature Message.delete_room_response Message.delete_room_request
room_signature RoomMethod.list_participants =
    signature Message.list_participants_response Message.list_participants_request
room_signature RoomMethod.get_participant =
    signature Message.participant_info Message.room_participant_identity
room_signature RoomMethod.remove_participant =
    signature Message.remove_participant_response Message.room_participant_identity
room_signature RoomMethod.mute_published_track =
    signature Message.mute_room_track_response Message.mute_room_track_request
room_signature RoomMethod.update_participant =
    signature Message.participant_info Message.update_participant_request
room_signature RoomMethod.update_subscriptions =
    signature Message.update_subscriptions_response Message.update_subscriptions_request
room_signature RoomMethod.send_data = signature Message.send_data_response Message.send_data_request
room_signature RoomMethod.update_room_metadata =
    signature Message.room Message.update_room_metadata_request
room_signature RoomMethod.forward_participant =
    signature Message.forward_participant_response Message.forward_participant_request
room_signature RoomMethod.move_participant =
    signature Message.move_participant_response Message.move_participant_request
room_signature RoomMethod.perform_rpc =
    signature Message.perform_rpc_response Message.perform_rpc_request

unfoldable pub room_conversion : RoomMethod → Conversion
room_conversion RoomMethod.create_room =
    conversion Message.room Message.create_room_request Message.create_room_request
room_conversion RoomMethod.list_rooms =
    conversion Message.list_rooms_response Message.list_rooms_request Message.list_rooms_request
room_conversion RoomMethod.delete_room =
    conversion Message.delete_room_response Message.delete_room_request Message.delete_room_request
room_conversion RoomMethod.list_participants =
    conversion Message.list_participants_response Message.list_participants_request
      Message.list_participants_request
room_conversion RoomMethod.get_participant =
    conversion Message.participant_info Message.room_participant_identity
      Message.room_participant_identity
room_conversion RoomMethod.remove_participant =
    conversion Message.remove_participant_response Message.room_participant_identity
      Message.room_participant_identity
room_conversion RoomMethod.mute_published_track =
    conversion Message.mute_room_track_response Message.mute_room_track_request
      Message.mute_room_track_request
room_conversion RoomMethod.update_participant =
    conversion Message.participant_info Message.update_participant_request
      Message.update_participant_request
room_conversion RoomMethod.update_subscriptions =
    conversion Message.update_subscriptions_response Message.update_subscriptions_request
      Message.update_subscriptions_request
room_conversion RoomMethod.send_data =
    conversion Message.send_data_response Message.send_data_request Message.send_data_request
room_conversion RoomMethod.update_room_metadata =
    conversion Message.room Message.update_room_metadata_request
      Message.update_room_metadata_request
room_conversion RoomMethod.forward_participant =
    conversion Message.forward_participant_response Message.forward_participant_request
      Message.forward_participant_request
room_conversion RoomMethod.move_participant =
    conversion Message.move_participant_response Message.move_participant_request
      Message.move_participant_request
room_conversion RoomMethod.perform_rpc =
    conversion Message.perform_rpc_response Message.perform_rpc_request Message.perform_rpc_request

unfoldable pub egress_signature : EgressMethod → Signature
egress_signature EgressMethod.start_egress =
    signature Message.egress_info Message.start_egress_request
egress_signature EgressMethod.start_room_composite_egress =
    signature Message.egress_info Message.room_composite_egress_request
egress_signature EgressMethod.start_web_egress =
    signature Message.egress_info Message.web_egress_request
egress_signature EgressMethod.start_participant_egress =
    signature Message.egress_info Message.participant_egress_request
egress_signature EgressMethod.start_track_composite_egress =
    signature Message.egress_info Message.track_composite_egress_request
egress_signature EgressMethod.start_track_egress =
    signature Message.egress_info Message.track_egress_request
egress_signature EgressMethod.update_layout =
    signature Message.egress_info Message.update_layout_request
egress_signature EgressMethod.update_stream =
    signature Message.egress_info Message.update_stream_request
egress_signature EgressMethod.list_egress =
    signature Message.list_egress_response Message.list_egress_request
egress_signature EgressMethod.stop_egress =
    signature Message.egress_info Message.stop_egress_request

unfoldable pub egress_conversion : EgressMethod → Conversion
egress_conversion EgressMethod.start_egress =
    conversion Message.egress_info Message.start_egress_request Message.start_egress_request
egress_conversion EgressMethod.start_room_composite_egress =
    conversion Message.egress_info Message.room_composite_egress_request
      Message.room_composite_egress_request
egress_conversion EgressMethod.start_web_egress =
    conversion Message.egress_info Message.web_egress_request Message.web_egress_request
egress_conversion EgressMethod.start_participant_egress =
    conversion Message.egress_info Message.participant_egress_request
      Message.participant_egress_request
egress_conversion EgressMethod.start_track_composite_egress =
    conversion Message.egress_info Message.track_composite_egress_request
      Message.track_composite_egress_request
egress_conversion EgressMethod.start_track_egress =
    conversion Message.egress_info Message.track_egress_request Message.track_egress_request
egress_conversion EgressMethod.update_layout =
    conversion Message.egress_info Message.update_layout_request Message.update_layout_request
egress_conversion EgressMethod.update_stream =
    conversion Message.egress_info Message.update_stream_request Message.update_stream_request
egress_conversion EgressMethod.list_egress =
    conversion Message.list_egress_response Message.list_egress_request Message.list_egress_request
egress_conversion EgressMethod.stop_egress =
    conversion Message.egress_info Message.stop_egress_request Message.stop_egress_request

unfoldable pub ingress_signature : IngressMethod → Signature
ingress_signature IngressMethod.create_ingress =
    signature Message.ingress_info Message.create_ingress_request
ingress_signature IngressMethod.update_ingress =
    signature Message.ingress_info Message.update_ingress_request
ingress_signature IngressMethod.list_ingress =
    signature Message.list_ingress_response Message.list_ingress_request
ingress_signature IngressMethod.delete_ingress =
    signature Message.ingress_info Message.delete_ingress_request

unfoldable pub ingress_conversion : IngressMethod → Conversion
ingress_conversion IngressMethod.create_ingress =
    conversion Message.ingress_info Message.create_ingress_request Message.create_ingress_request
ingress_conversion IngressMethod.update_ingress =
    conversion Message.ingress_info Message.update_ingress_request Message.update_ingress_request
ingress_conversion IngressMethod.list_ingress =
    conversion Message.list_ingress_response Message.list_ingress_request
      Message.list_ingress_request
ingress_conversion IngressMethod.delete_ingress =
    conversion Message.ingress_info Message.delete_ingress_request Message.delete_ingress_request

unfoldable pub agent_signature : AgentMethod → Signature
agent_signature AgentMethod.create_dispatch =
    signature Message.agent_dispatch Message.create_agent_dispatch_request
agent_signature AgentMethod.delete_dispatch =
    signature Message.agent_dispatch Message.delete_agent_dispatch_request
agent_signature AgentMethod.list_dispatch =
    signature Message.list_agent_dispatch_response Message.list_agent_dispatch_request

unfoldable pub agent_conversion : AgentMethod → Conversion
agent_conversion AgentMethod.create_dispatch =
    conversion Message.agent_dispatch Message.create_agent_dispatch_request
      Message.create_agent_dispatch_request
agent_conversion AgentMethod.delete_dispatch =
    conversion Message.agent_dispatch Message.delete_agent_dispatch_request
      Message.delete_agent_dispatch_request
agent_conversion AgentMethod.list_dispatch =
    conversion Message.list_agent_dispatch_response Message.list_agent_dispatch_request
      Message.list_agent_dispatch_request

unfoldable pub connector_signature : ConnectorMethod → Signature
connector_signature ConnectorMethod.dial_whats_app_call =
    signature Message.dial_whats_app_call_response Message.dial_whats_app_call_request
connector_signature ConnectorMethod.disconnect_whats_app_call =
    signature Message.disconnect_whats_app_call_response Message.disconnect_whats_app_call_request
connector_signature ConnectorMethod.connect_whats_app_call =
    signature Message.connect_whats_app_call_response Message.connect_whats_app_call_request
connector_signature ConnectorMethod.accept_whats_app_call =
    signature Message.accept_whats_app_call_response Message.accept_whats_app_call_request
connector_signature ConnectorMethod.connect_twilio_call =
    signature Message.connect_twilio_call_response Message.connect_twilio_call_request

unfoldable pub connector_conversion : ConnectorMethod → Conversion
connector_conversion ConnectorMethod.dial_whats_app_call =
    conversion Message.dial_whats_app_call_response Message.dial_whats_app_call_request
      Message.dial_whats_app_call_request
connector_conversion ConnectorMethod.disconnect_whats_app_call =
    conversion Message.disconnect_whats_app_call_response Message.disconnect_whats_app_call_request
      Message.disconnect_whats_app_call_request
connector_conversion ConnectorMethod.connect_whats_app_call =
    conversion Message.connect_whats_app_call_response Message.connect_whats_app_call_request
      Message.connect_whats_app_call_request
connector_conversion ConnectorMethod.accept_whats_app_call =
    conversion Message.accept_whats_app_call_response Message.accept_whats_app_call_request
      Message.accept_whats_app_call_request
connector_conversion ConnectorMethod.connect_twilio_call =
    conversion Message.connect_twilio_call_response Message.connect_twilio_call_request
      Message.connect_twilio_call_request
