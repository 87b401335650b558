-- ===== src/Services/Messages.antt =====
-- include/livekit/server/model/models.h and protocol_fwd.h: the messages of protobuf, each with a class
-- of its own and with a model type.
pub mod Methods
pub mod SipMethods
use Prim.Native.String.{String}

-- A message, by the tag that tells its model type apart.
pub data Message : Type 0 where
  empty create_room_request room list_rooms_request list_rooms_response : Message
  delete_room_request delete_room_response list_participants_request : Message
  list_participants_response room_participant_identity participant_info : Message
  remove_participant_response mute_room_track_request mute_room_track_response : Message
  update_participant_request update_subscriptions_request : Message
  update_subscriptions_response send_data_request send_data_response : Message
  update_room_metadata_request forward_participant_request : Message
  forward_participant_response move_participant_request move_participant_response : Message
  perform_rpc_request perform_rpc_response start_egress_request egress_info : Message
  room_composite_egress_request web_egress_request participant_egress_request : Message
  track_composite_egress_request track_egress_request update_layout_request : Message
  update_stream_request list_egress_request list_egress_response stop_egress_request : Message
  create_ingress_request ingress_info update_ingress_request list_ingress_request : Message
  list_ingress_response delete_ingress_request create_sip_inbound_trunk_request : Message
  sip_inbound_trunk_info create_sip_outbound_trunk_request sip_outbound_trunk_info : Message
  update_sip_inbound_trunk_request update_sip_outbound_trunk_request : Message
  get_sip_inbound_trunk_request get_sip_inbound_trunk_response : Message
  get_sip_outbound_trunk_request get_sip_outbound_trunk_response : Message
  list_sip_trunk_request list_sip_trunk_response list_sip_inbound_trunk_request : Message
  list_sip_inbound_trunk_response list_sip_outbound_trunk_request : Message
  list_sip_outbound_trunk_response delete_sip_trunk_request sip_trunk_info : Message
  create_sip_dispatch_rule_request sip_dispatch_rule_info : Message
  update_sip_dispatch_rule_request list_sip_dispatch_rule_request : Message
  list_sip_dispatch_rule_response delete_sip_dispatch_rule_request : Message
  create_sip_participant_request sip_participant_info : Message
  transfer_sip_participant_request create_agent_dispatch_request agent_dispatch : Message
  delete_agent_dispatch_request list_agent_dispatch_request : Message
  list_agent_dispatch_response dial_whats_app_call_request : Message
  dial_whats_app_call_response disconnect_whats_app_call_request : Message
  disconnect_whats_app_call_response connect_whats_app_call_request : Message
  connect_whats_app_call_response accept_whats_app_call_request : Message
  accept_whats_app_call_response connect_twilio_call_request : Message
  connect_twilio_call_response : Message

-- The name of its class.
unfoldable pub message_name : Message → String
message_name Message.empty = "Empty"
message_name Message.accept_whats_app_call_request = "AcceptWhatsAppCallRequest"
message_name Message.accept_whats_app_call_response = "AcceptWhatsAppCallResponse"
message_name Message.agent_dispatch = "AgentDispatch"
message_name Message.connect_twilio_call_request = "ConnectTwilioCallRequest"
message_name Message.connect_twilio_call_response = "ConnectTwilioCallResponse"
message_name Message.connect_whats_app_call_request = "ConnectWhatsAppCallRequest"
message_name Message.connect_whats_app_call_response = "ConnectWhatsAppCallResponse"
message_name Message.create_agent_dispatch_request = "CreateAgentDispatchRequest"
message_name Message.create_ingress_request = "CreateIngressRequest"
message_name Message.create_room_request = "CreateRoomRequest"
message_name Message.create_sip_dispatch_rule_request = "CreateSIPDispatchRuleRequest"
message_name Message.create_sip_inbound_trunk_request = "CreateSIPInboundTrunkRequest"
message_name Message.create_sip_outbound_trunk_request = "CreateSIPOutboundTrunkRequest"
message_name Message.create_sip_participant_request = "CreateSIPParticipantRequest"
message_name Message.delete_agent_dispatch_request = "DeleteAgentDispatchRequest"
message_name Message.delete_ingress_request = "DeleteIngressRequest"
message_name Message.delete_room_request = "DeleteRoomRequest"
message_name Message.delete_room_response = "DeleteRoomResponse"
message_name Message.delete_sip_dispatch_rule_request = "DeleteSIPDispatchRuleRequest"
message_name Message.delete_sip_trunk_request = "DeleteSIPTrunkRequest"
message_name Message.dial_whats_app_call_request = "DialWhatsAppCallRequest"
message_name Message.dial_whats_app_call_response = "DialWhatsAppCallResponse"
message_name Message.disconnect_whats_app_call_request = "DisconnectWhatsAppCallRequest"
message_name Message.disconnect_whats_app_call_response = "DisconnectWhatsAppCallResponse"
message_name Message.egress_info = "EgressInfo"
message_name Message.forward_participant_request = "ForwardParticipantRequest"
message_name Message.forward_participant_response = "ForwardParticipantResponse"
message_name Message.get_sip_inbound_trunk_request = "GetSIPInboundTrunkRequest"
message_name Message.get_sip_inbound_trunk_response = "GetSIPInboundTrunkResponse"
message_name Message.get_sip_outbound_trunk_request = "GetSIPOutboundTrunkRequest"
message_name Message.get_sip_outbound_trunk_response = "GetSIPOutboundTrunkResponse"
message_name Message.ingress_info = "IngressInfo"
message_name Message.list_agent_dispatch_request = "ListAgentDispatchRequest"
message_name Message.list_agent_dispatch_response = "ListAgentDispatchResponse"
message_name Message.list_egress_request = "ListEgressRequest"
message_name Message.list_egress_response = "ListEgressResponse"
message_name Message.list_ingress_request = "ListIngressRequest"
message_name Message.list_ingress_response = "ListIngressResponse"
message_name Message.list_participants_request = "ListParticipantsRequest"
message_name Message.list_participants_response = "ListParticipantsResponse"
message_name Message.list_rooms_request = "ListRoomsRequest"
message_name Message.list_rooms_response = "ListRoomsResponse"
message_name Message.list_sip_dispatch_rule_request = "ListSIPDispatchRuleRequest"
message_name Message.list_sip_dispatch_rule_response = "ListSIPDispatchRuleResponse"
message_name Message.list_sip_inbound_trunk_request = "ListSIPInboundTrunkRequest"
message_name Message.list_sip_inbound_trunk_response = "ListSIPInboundTrunkResponse"
message_name Message.list_sip_outbound_trunk_request = "ListSIPOutboundTrunkRequest"
message_name Message.list_sip_outbound_trunk_response = "ListSIPOutboundTrunkResponse"
message_name Message.list_sip_trunk_request = "ListSIPTrunkRequest"
message_name Message.list_sip_trunk_response = "ListSIPTrunkResponse"
message_name Message.move_participant_request = "MoveParticipantRequest"
message_name Message.move_participant_response = "MoveParticipantResponse"
message_name Message.mute_room_track_request = "MuteRoomTrackRequest"
message_name Message.mute_room_track_response = "MuteRoomTrackResponse"
message_name Message.participant_egress_request = "ParticipantEgressRequest"
message_name Message.participant_info = "ParticipantInfo"
message_name Message.perform_rpc_request = "PerformRpcRequest"
message_name Message.perform_rpc_response = "PerformRpcResponse"
message_name Message.remove_participant_response = "RemoveParticipantResponse"
message_name Message.room = "Room"
message_name Message.room_composite_egress_request = "RoomCompositeEgressRequest"
message_name Message.room_participant_identity = "RoomParticipantIdentity"
message_name Message.send_data_request = "SendDataRequest"
message_name Message.send_data_response = "SendDataResponse"
message_name Message.sip_dispatch_rule_info = "SIPDispatchRuleInfo"
message_name Message.sip_inbound_trunk_info = "SIPInboundTrunkInfo"
message_name Message.sip_outbound_trunk_info = "SIPOutboundTrunkInfo"
message_name Message.sip_participant_info = "SIPParticipantInfo"
message_name Message.sip_trunk_info = "SIPTrunkInfo"
message_name Message.start_egress_request = "StartEgressRequest"
message_name Message.stop_egress_request = "StopEgressRequest"
message_name Message.track_composite_egress_request = "TrackCompositeEgressRequest"
message_name Message.track_egress_request = "TrackEgressRequest"
message_name Message.transfer_sip_participant_request = "TransferSIPParticipantRequest"
message_name Message.update_ingress_request = "UpdateIngressRequest"
message_name Message.update_layout_request = "UpdateLayoutRequest"
message_name Message.update_participant_request = "UpdateParticipantRequest"
message_name Message.update_room_metadata_request = "UpdateRoomMetadataRequest"
message_name Message.update_sip_dispatch_rule_request = "UpdateSIPDispatchRuleRequest"
message_name Message.update_sip_inbound_trunk_request = "UpdateSIPInboundTrunkRequest"
message_name Message.update_sip_outbound_trunk_request = "UpdateSIPOutboundTrunkRequest"
message_name Message.update_stream_request = "UpdateStreamRequest"
message_name Message.update_subscriptions_request = "UpdateSubscriptionsRequest"
message_name Message.update_subscriptions_response = "UpdateSubscriptionsResponse"
message_name Message.web_egress_request = "WebEgressRequest"
