-- ===== src/Services/Sip.antt =====
-- src/sip_client.cpp: `SipClient`.
pub mod Laws
use livekit_server_cpp.Common.{
  true, false, not, none, some, [], Bytes, codes, is_empty, if◌then◌else◌,
}
use livekit_server_cpp.Context.Call.{Codec}
use livekit_server_cpp.Context.{RequestGrant}
use livekit_server_cpp.Http.{Action}
use livekit_server_cpp.Services.{Client, perform}
use livekit_server_cpp.Token.{no_video_grant}

pub data SipMethod : Type 0 where
  create_inbound_trunk create_outbound_trunk update_inbound_trunk update_outbound_trunk : SipMethod
  get_inbound_trunk get_outbound_trunk list_trunks list_inbound_trunks : SipMethod
  list_outbound_trunks delete_trunk create_dispatch_rule update_dispatch_rule : SipMethod
  list_dispatch_rules delete_dispatch_rule create_participant transfer_participant : SipMethod

unfoldable pub sip_method_name : SipMethod → Bytes
sip_method_name SipMethod.create_inbound_trunk = codes "CreateSIPInboundTrunk"
sip_method_name SipMethod.create_outbound_trunk = codes "CreateSIPOutboundTrunk"
sip_method_name SipMethod.update_inbound_trunk = codes "UpdateSIPInboundTrunk"
sip_method_name SipMethod.update_outbound_trunk = codes "UpdateSIPOutboundTrunk"
sip_method_name SipMethod.get_inbound_trunk = codes "GetSIPInboundTrunk"
sip_method_name SipMethod.get_outbound_trunk = codes "GetSIPOutboundTrunk"
sip_method_name SipMethod.list_trunks = codes "ListSIPTrunk"
sip_method_name SipMethod.list_inbound_trunks = codes "ListSIPInboundTrunk"
sip_method_name SipMethod.list_outbound_trunks = codes "ListSIPOutboundTrunk"
sip_method_name SipMethod.delete_trunk = codes "DeleteSIPTrunk"
sip_method_name SipMethod.create_dispatch_rule = codes "CreateSIPDispatchRule"
sip_method_name SipMethod.update_dispatch_rule = codes "UpdateSIPDispatchRule"
sip_method_name SipMethod.list_dispatch_rules = codes "ListSIPDispatchRule"
sip_method_name SipMethod.delete_dispatch_rule = codes "DeleteSIPDispatchRule"
sip_method_name SipMethod.create_participant = codes "CreateSIPParticipant"
sip_method_name SipMethod.transfer_participant = codes "TransferSIPParticipant"

-- `AdminGrant`.
abbrev pub admin_grant : RequestGrant
admin_grant = record {
  video = none;
  sip = some (record { admin = true; call = false });
  agent = none;
}

-- `CallGrant`.
unfoldable pub call_grant : Bytes → RequestGrant
call_grant room = record {
  video =
      if not (is_empty room)
      then some (record no_video_grant { room_admin = true; room = room })
      else none;
  sip = some (record { admin = false; call = true });
  agent = none;
}

-- The grant of a method; `room_name` is that of a transfer's request.
unfoldable pub sip_method_grant : SipMethod → Bytes → RequestGrant
sip_method_grant SipMethod.create_participant room_name = call_grant []
sip_method_grant SipMethod.transfer_participant room_name = call_grant room_name
sip_method_grant _ room_name = admin_grant

unfoldable pub sip_call :
    Client
    → {Request Response : Type 0} → Codec Request Response
    → SipMethod
    → (Request → Bytes)
    → Request
    → Action Response
sip_call client codec method room_name request =
    perform client codec (codes "SIP") (sip_method_name method) request
      (sip_method_grant method (room_name request))
