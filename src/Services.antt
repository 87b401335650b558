-- ===== src/Services.antt =====
-- The service clients: src/room_service_client.cpp, sip_client.cpp, egress_client.cpp,
-- ingress_client.cpp, connector_client.cpp and agent_dispatch_client.cpp. Each method is one call
-- with the service's name, the method's name and a grant. A method on the plain model types is the
-- same method between two conversions, which are generated.
pub mod Model
pub mod Messages
pub mod Room
pub mod Sip
pub mod Agent
mod Runs
use livekit_server_cpp.Common.{ℕ, Bool, true, false, Option, none, some, [], ◌∷◌, Bytes, codes}
use livekit_server_cpp.Context.Call.{Codec, call}
use livekit_server_cpp.Context.{ClientContext, RequestGrant}
use livekit_server_cpp.Http.{Machine, Action}
use livekit_server_cpp.Struct.{JsonLibrary}
use livekit_server_cpp.Token.{VideoGrant, SipGrant, AgentGrant, no_video_grant}

-- A grant for video alone.
abbrev pub video_only : VideoGrant → RequestGrant
video_only grant = record { video = some grant; sip = none; agent = none }

-- A client's place in the world.
pub record Client : Type 0 where
  pub machine : Machine
  pub library : JsonLibrary
  pub context : ClientContext

module _ (client : Client) {Request Response : Type 0} (codec : Codec Request Response) where
  -- The helper `Call` of each client, which passes its own response.
  unfoldable pub perform : Bytes → Bytes → Request → RequestGrant → Action Response
  perform service method request grant =
      call client.library codec client.machine client.context service method request true grant

-- The methods of `EgressClient`.
pub data EgressMethod : Type 0 where
  start_egress start_room_composite_egress start_web_egress start_participant_egress : EgressMethod
  start_track_composite_egress start_track_egress update_layout update_stream : EgressMethod
  list_egress stop_egress : EgressMethod

unfoldable pub egress_method_name : EgressMethod → Bytes
egress_method_name EgressMethod.start_egress = codes "StartEgress"
egress_method_name EgressMethod.start_room_composite_egress = codes "StartRoomCompositeEgress"
egress_method_name EgressMethod.start_web_egress = codes "StartWebEgress"
egress_method_name EgressMethod.start_participant_egress = codes "StartParticipantEgress"
egress_method_name EgressMethod.start_track_composite_egress = codes "StartTrackCompositeEgress"
egress_method_name EgressMethod.start_track_egress = codes "StartTrackEgress"
egress_method_name EgressMethod.update_layout = codes "UpdateLayout"
egress_method_name EgressMethod.update_stream = codes "UpdateStream"
egress_method_name EgressMethod.list_egress = codes "ListEgress"
egress_method_name EgressMethod.stop_egress = codes "StopEgress"

abbrev pub egress_grant : RequestGrant
egress_grant = video_only (record no_video_grant { room_record = true })

-- The methods of `IngressClient`.
pub data IngressMethod : Type 0 where
  create_ingress update_ingress list_ingress delete_ingress : IngressMethod

unfoldable pub ingress_method_name : IngressMethod → Bytes
ingress_method_name IngressMethod.create_ingress = codes "CreateIngress"
ingress_method_name IngressMethod.update_ingress = codes "UpdateIngress"
ingress_method_name IngressMethod.list_ingress = codes "ListIngress"
ingress_method_name IngressMethod.delete_ingress = codes "DeleteIngress"

abbrev pub ingress_grant : RequestGrant
ingress_grant = video_only (record no_video_grant { ingress_admin = true })

-- The methods of `ConnectorClient`; three requests name a room.
pub data ConnectorMethod : Type 0 where
  dial_whats_app_call disconnect_whats_app_call connect_whats_app_call : ConnectorMethod
  accept_whats_app_call connect_twilio_call : ConnectorMethod

unfoldable pub connector_method_name : ConnectorMethod → Bytes
connector_method_name ConnectorMethod.dial_whats_app_call = codes "DialWhatsAppCall"
connector_method_name ConnectorMethod.disconnect_whats_app_call = codes "DisconnectWhatsAppCall"
connector_method_name ConnectorMethod.connect_whats_app_call = codes "ConnectWhatsAppCall"
connector_method_name ConnectorMethod.accept_whats_app_call = codes "AcceptWhatsAppCall"
connector_method_name ConnectorMethod.connect_twilio_call = codes "ConnectTwilioCall"

-- The room that a method passes to `Call`: `room_name` is the request's.
unfoldable pub connector_room : ConnectorMethod → Bytes → Bytes
connector_room ConnectorMethod.dial_whats_app_call room_name = room_name
connector_room ConnectorMethod.disconnect_whats_app_call room_name = []
connector_room ConnectorMethod.connect_whats_app_call room_name = []
connector_room ConnectorMethod.accept_whats_app_call room_name = room_name
connector_room ConnectorMethod.connect_twilio_call room_name = room_name

unfoldable pub connector_grant : Bytes → RequestGrant
connector_grant room = video_only (record no_video_grant { room_create = true; room = room })

module _ (client : Client) {Request Response : Type 0} (codec : Codec Request Response) where
  unfoldable pub egress_call : EgressMethod → Request → Action Response
  egress_call method request =
      perform client codec (codes "Egress") (egress_method_name method) request egress_grant

  unfoldable pub ingress_call : IngressMethod → Request → Action Response
  ingress_call method request =
      perform client codec (codes "Ingress") (ingress_method_name method) request ingress_grant

  unfoldable pub connector_call : ConnectorMethod → (Request → Bytes) → Request → Action Response
  connector_call method room_name request =
      perform client codec (codes "Connector") (connector_method_name method) request
        (connector_grant (connector_room method (room_name request)))
