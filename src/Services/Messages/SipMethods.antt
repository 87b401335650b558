-- ===== src/Services/Messages/SipMethods.antt =====
-- The message types of the methods of `SipClient`.
use livekit_server_cpp.Services.Messages.Methods.{Signature, Conversion, signature, conversion}
use livekit_server_cpp.Services.Messages.{Message}
use livekit_server_cpp.Services.Sip.{SipMethod}

unfoldable pub sip_signature : SipMethod → Signature
sip_signature SipMethod.create_inbound_trunk =
    signature Message.sip_inbound_trunk_info Message.create_sip_inbound_trunk_request
sip_signature SipMethod.create_outbound_trunk =
    signature Message.sip_outbound_trunk_info Message.create_sip_outbound_trunk_request
sip_signature SipMethod.update_inbound_trunk =
    signature Message.sip_inbound_trunk_info Message.update_sip_inbound_trunk_request
sip_signature SipMethod.update_outbound_trunk =
    signature Message.sip_outbound_trunk_info Message.update_sip_outbound_trunk_request
sip_signature SipMethod.get_inbound_trunk =
    signature Message.get_sip_inbound_trunk_response Message.get_sip_inbound_trunk_request
sip_signature SipMethod.get_outbound_trunk =
    signature Message.get_sip_outbound_trunk_response Message.get_sip_outbound_trunk_request
sip_signature SipMethod.list_trunks =
    signature Message.list_sip_trunk_response Message.list_sip_trunk_request
sip_signature SipMethod.list_inbound_trunks =
    signature Message.list_sip_inbound_trunk_response Message.list_sip_inbound_trunk_request
sip_signature SipMethod.list_outbound_trunks =
    signature Message.list_sip_outbound_trunk_response Message.list_sip_outbound_trunk_request
sip_signature SipMethod.delete_trunk =
    signature Message.sip_trunk_info Message.delete_sip_trunk_request
sip_signature SipMethod.create_dispatch_rule =
    signature Message.sip_dispatch_rule_info Message.create_sip_dispatch_rule_request
sip_signature SipMethod.update_dispatch_rule =
    signature Message.sip_dispatch_rule_info Message.update_sip_dispatch_rule_request
sip_signature SipMethod.list_dispatch_rules =
    signature Message.list_sip_dispatch_rule_response Message.list_sip_dispatch_rule_request
sip_signature SipMethod.delete_dispatch_rule =
    signature Message.sip_dispatch_rule_info Message.delete_sip_dispatch_rule_request
sip_signature SipMethod.create_participant =
    signature Message.sip_participant_info Message.create_sip_participant_request
sip_signature SipMethod.transfer_participant =
    signature Message.empty Message.transfer_sip_participant_request

unfoldable pub sip_conversion : SipMethod → Conversion
sip_conversion SipMethod.create_inbound_trunk =
    conversion Message.sip_inbound_trunk_info Message.create_sip_inbound_trunk_request
      Message.create_sip_inbound_trunk_request
sip_conversion SipMethod.create_outbound_trunk =
    conversion Message.sip_outbound_trunk_info Message.create_sip_outbound_trunk_request
      Message.create_sip_outbound_trunk_request
sip_conversion SipMethod.update_inbound_trunk =
    conversion Message.sip_inbound_trunk_info Message.update_sip_inbound_trunk_request
      Message.update_sip_inbound_trunk_request
sip_conversion SipMethod.update_outbound_trunk =
    conversion Message.sip_outbound_trunk_info Message.update_sip_outbound_trunk_request
      Message.update_sip_outbound_trunk_request
sip_conversion SipMethod.get_inbound_trunk =
    conversion Message.get_sip_inbound_trunk_response Message.get_sip_inbound_trunk_request
      Message.get_sip_inbound_trunk_request
sip_conversion SipMethod.get_outbound_trunk =
    conversion Message.get_sip_outbound_trunk_response Message.get_sip_outbound_trunk_request
      Message.get_sip_outbound_trunk_request
sip_conversion SipMethod.list_trunks =
    conversion Message.list_sip_trunk_response Message.list_sip_trunk_request
      Message.list_sip_trunk_request
sip_conversion SipMethod.list_inbound_trunks =
    conversion Message.list_sip_inbound_trunk_response Message.list_sip_inbound_trunk_request
      Message.list_sip_inbound_trunk_request
sip_conversion SipMethod.list_outbound_trunks =
    conversion Message.list_sip_outbound_trunk_response Message.list_sip_outbound_trunk_request
      Message.list_sip_outbound_trunk_request
sip_conversion SipMethod.delete_trunk =
    conversion Message.sip_trunk_info Message.delete_sip_trunk_request
      Message.delete_sip_trunk_request
sip_conversion SipMethod.create_dispatch_rule =
    conversion Message.sip_dispatch_rule_info Message.create_sip_dispatch_rule_request
      Message.create_sip_dispatch_rule_request
sip_conversion SipMethod.update_dispatch_rule =
    conversion Message.sip_dispatch_rule_info Message.update_sip_dispatch_rule_request
      Message.update_sip_dispatch_rule_request
sip_conversion SipMethod.list_dispatch_rules =
    conversion Message.list_sip_dispatch_rule_response Message.list_sip_dispatch_rule_request
      Message.list_sip_dispatch_rule_request
sip_conversion SipMethod.delete_dispatch_rule =
    conversion Message.sip_dispatch_rule_info Message.delete_sip_dispatch_rule_request
      Message.delete_sip_dispatch_rule_request
sip_conversion SipMethod.create_participant =
    conversion Message.sip_participant_info Message.create_sip_participant_request
      Message.create_sip_participant_request
sip_conversion SipMethod.transfer_participant =
    conversion Message.empty Message.transfer_sip_participant_request
      Message.transfer_sip_participant_request
