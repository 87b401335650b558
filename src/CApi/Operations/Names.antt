-- ===== src/CApi/Operations/Names.antt =====
-- Under which name each operation is found.
use livekit_server_cpp.CApi.Operations.{Operation, operations, find_operation}
use livekit_server_cpp.Common.Lists.{equal, equal_iff}
use livekit_server_cpp.Common.{
  ◌≡◌, ◌↔◌, refl, sym, ap, ◌∙◌, Bool, true, ◌&&◌, some, List, [], ◌∷◌, ◌++◌, Bytes, codes,
  Bool-cases, inl, inr, arith,
}
use livekit_server_cpp.Services.Agent.{AgentMethod, agent_method_name}
use livekit_server_cpp.Services.Room.{RoomMethod, room_method_name}
use livekit_server_cpp.Services.Sip.{SipMethod}
use livekit_server_cpp.Services.{
  EgressMethod, IngressMethod, ConnectorMethod, egress_method_name, ingress_method_name,
  connector_method_name,
}
use Prim.Native.String.{String}

-- The C++ name of the methods of `SipClient`.
unfoldable pub sip_operation_name : SipMethod → Bytes
sip_operation_name SipMethod.create_inbound_trunk = codes "CreateInboundTrunk"
sip_operation_name SipMethod.create_outbound_trunk = codes "CreateOutboundTrunk"
sip_operation_name SipMethod.update_inbound_trunk = codes "UpdateInboundTrunk"
sip_operation_name SipMethod.update_outbound_trunk = codes "UpdateOutboundTrunk"
sip_operation_name SipMethod.get_inbound_trunk = codes "GetInboundTrunk"
sip_operation_name SipMethod.get_outbound_trunk = codes "GetOutboundTrunk"
sip_operation_name SipMethod.list_trunks = codes "ListTrunks"
sip_operation_name SipMethod.list_inbound_trunks = codes "ListInboundTrunks"
sip_operation_name SipMethod.list_outbound_trunks = codes "ListOutboundTrunks"
sip_operation_name SipMethod.delete_trunk = codes "DeleteTrunk"
sip_operation_name SipMethod.create_dispatch_rule = codes "CreateDispatchRule"
sip_operation_name SipMethod.update_dispatch_rule = codes "UpdateDispatchRule"
sip_operation_name SipMethod.list_dispatch_rules = codes "ListDispatchRules"
sip_operation_name SipMethod.delete_dispatch_rule = codes "DeleteDispatchRule"
sip_operation_name SipMethod.create_participant = codes "CreateParticipant"
sip_operation_name SipMethod.transfer_participant = codes "TransferParticipant"

-- The client, a dot and the method.
unfoldable pub operation_name : Operation → Bytes
operation_name (Operation.room method) = codes "Room." ++ room_method_name method
operation_name (Operation.egress method) = codes "Egress." ++ egress_method_name method
operation_name (Operation.ingress method) = codes "Ingress." ++ ingress_method_name method
operation_name (Operation.sip method) = codes "Sip." ++ sip_operation_name method
operation_name (Operation.agent method) = codes "AgentDispatch." ++ agent_method_name method
operation_name (Operation.connector method) = codes "Connector." ++ connector_method_name method

are_named : List (String × Operation) → Bool
are_named [] = true
are_named ((name, operation) ∷ rest) =
    equal (codes name) (operation_name operation) && are_named rest

find_operation_complete :
    (operation : Operation) → find_operation (operation_name operation) operations ≡ some operation
unfolding find_operation equal operation_name room_method_name egress_method_name
    ingress_method_name sip_operation_name agent_method_name connector_method_name
find_operation_complete (Operation.room RoomMethod.create_room) = refl
find_operation_complete (Operation.room RoomMethod.list_rooms) = refl
find_operation_complete (Operation.room RoomMethod.delete_room) = refl
find_operation_complete (Operation.room RoomMethod.list_participants) = refl
find_operation_complete (Operation.room RoomMethod.get_participant) = refl
find_operation_complete (Operation.room RoomMethod.remove_participant) = refl
find_operation_complete (Operation.room RoomMethod.mute_published_track) = refl
find_operation_complete (Operation.room RoomMethod.update_participant) = refl
find_operation_complete (Operation.room RoomMethod.update_subscriptions) = refl
find_operation_complete (Operation.room RoomMethod.send_data) = refl
find_operation_complete (Operation.room RoomMethod.update_room_metadata) = refl
find_operation_complete (Operation.room RoomMethod.forward_participant) = refl
find_operation_complete (Operation.room RoomMethod.move_participant) = refl
find_operation_complete (Operation.room RoomMethod.perform_rpc) = refl
find_operation_complete (Operation.egress EgressMethod.start_egress) = refl
find_operation_complete (Operation.egress EgressMethod.start_room_composite_egress) = refl
find_operation_complete (Operation.egress EgressMethod.start_web_egress) = refl
find_operation_complete (Operation.egress EgressMethod.start_participant_egress) = refl
find_operation_complete (Operation.egress EgressMethod.start_track_composite_egress) = refl
find_operation_complete (Operation.egress EgressMethod.start_track_egress) = refl
find_operation_complete (Operation.egress EgressMethod.update_layout) = refl
find_operation_complete (Operation.egress EgressMethod.update_stream) = refl
find_operation_complete (Operation.egress EgressMethod.list_egress) = refl
find_operation_complete (Operation.egress EgressMethod.stop_egress) = refl
find_operation_complete (Operation.ingress IngressMethod.create_ingress) = refl
find_operation_complete (Operation.ingress IngressMethod.update_ingress) = refl
find_operation_complete (Operation.ingress IngressMethod.list_ingress) = refl
find_operation_complete (Operation.ingress IngressMethod.delete_ingress) = refl
find_operation_complete (Operation.sip SipMethod.create_inbound_trunk) = refl
find_operation_complete (Operation.sip SipMethod.create_outbound_trunk) = refl
find_operation_complete (Operation.sip SipMethod.update_inbound_trunk) = refl
find_operation_complete (Operation.sip SipMethod.update_outbound_trunk) = refl
find_operation_complete (Operation.sip SipMethod.get_inbound_trunk) = refl
find_operation_complete (Operation.sip SipMethod.get_outbound_trunk) = refl
find_operation_complete (Operation.sip SipMethod.list_trunks) = refl
find_operation_complete (Operation.sip SipMethod.list_inbound_trunks) = refl
find_operation_complete (Operation.sip SipMethod.list_outbound_trunks) = refl
find_operation_complete (Operation.sip SipMethod.delete_trunk) = refl
find_operation_complete (Operation.sip SipMethod.create_dispatch_rule) = refl
find_operation_complete (Operation.sip SipMethod.update_dispatch_rule) = refl
find_operation_complete (Operation.sip SipMethod.list_dispatch_rules) = refl
find_operation_complete (Operation.sip SipMethod.delete_dispatch_rule) = refl
find_operation_complete (Operation.sip SipMethod.create_participant) = refl
find_operation_complete (Operation.sip SipMethod.transfer_participant) = refl
find_operation_complete (Operation.agent AgentMethod.create_dispatch) = refl
find_operation_complete (Operation.agent AgentMethod.delete_dispatch) = refl
find_operation_complete (Operation.agent AgentMethod.list_dispatch) = refl
find_operation_complete (Operation.connector ConnectorMethod.dial_whats_app_call) = refl
find_operation_complete (Operation.connector ConnectorMethod.disconnect_whats_app_call) = refl
find_operation_complete (Operation.connector ConnectorMethod.connect_whats_app_call) = refl
find_operation_complete (Operation.connector ConnectorMethod.accept_whats_app_call) = refl
find_operation_complete (Operation.connector ConnectorMethod.connect_twilio_call) = refl

find_operation_sound :
    (name : Bytes) (table : List (String × Operation)) (operation : Operation)
    → are_named table ≡ true
    → find_operation name table ≡ some operation
    → name ≡ operation_name operation
unfolding find_operation are_named
find_operation_sound name [] operation named h = absurd (ground arith)
find_operation_sound name ((candidate, found) ∷ rest) operation named h =
    elim (Bool-cases (equal (codes candidate) name)) [
      | inl e ↦
          let same = (equal_iff (codes candidate) name).0 e in
          let own = (equal_iff (codes candidate) (operation_name found)).0 (ground arith) in
          let e₁ : found ≡ operation = ground arith in sym same ∙ own ∙ ap operation_name e₁
      | inr e ↦ find_operation_sound name rest operation (ground arith) (ground arith)
    ]

operations-named : are_named operations ≡ true
unfolding are_named equal operation_name room_method_name egress_method_name ingress_method_name
    sip_operation_name agent_method_name connector_method_name
operations-named = refl

-- `Call` finds an operation under one name, and under that alone: the client's name in `LiveKitApi`, a
-- dot, and the method's name, which is the one that is sent to the server for each client but SIP's.
pub find_operation_iff :
    (name : Bytes) (operation : Operation)
    → (find_operation name operations ≡ some operation) ↔ (name ≡ operation_name operation)
find_operation_iff name operation = (
  find_operation_sound name operations operation operations-named,
  λ e. rw e (find_operation_complete operation),
)
