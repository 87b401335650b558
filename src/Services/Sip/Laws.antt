-- ===== src/Services/Sip/Laws.antt =====
-- What the methods of `SipClient` may ask for.
use livekit_server_cpp.Common.{
  ◌≡◌, ◌⊎◌, refl, inl, inr, true, false, not, none, some, [], ◌∷◌, Bytes, is_empty,
}
use livekit_server_cpp.Context.{RequestGrant}
use livekit_server_cpp.Services.Sip.{SipMethod, call_grant, sip_method_grant}
use livekit_server_cpp.Token.{SipGrant, no_video_grant}

-- A grant for SIP, either to administer or to call; and beyond SIP for nothing, or for power over the
-- one room, which has a name.
pub record IsNarrow (room_name : Bytes) (grant : RequestGrant) : Type 0 where
  pub sip : SipGrant
  pub grants_sip : grant.sip ≡ some sip
  pub one_power : sip.admin ≡ not sip.call
  pub grants_agent : grant.agent ≡ none
  pub grants_video :
      (grant.video ≡ none)
      ⊎ ((is_empty room_name ≡ false)
          × (sip.call ≡ true)
          × (grant.video ≡ some (record no_video_grant { room_admin = true; room = room_name })))

admin_grant-IsNarrow :
    (room_name : Bytes)
    → IsNarrow room_name
        (record { video = none; sip = some (record { admin = true; call = false }); agent = none })
admin_grant-IsNarrow room_name = record {
  sip = record { admin = true; call = false };
  grants_sip = refl;
  one_power = refl;
  grants_agent = refl;
  grants_video = inl refl;
}

call_grant-IsNarrow : (room_name : Bytes) → IsNarrow room_name (call_grant room_name)
unfolding call_grant
call_grant-IsNarrow [] = record {
  sip = record { admin = false; call = true };
  grants_sip = refl;
  one_power = refl;
  grants_agent = refl;
  grants_video = inl refl;
}
call_grant-IsNarrow (c ∷ room_name) = record {
  sip = record { admin = false; call = true };
  grants_sip = refl;
  one_power = refl;
  grants_agent = refl;
  grants_video = inr (refl, refl, refl);
}

no_room-IsNarrow : (room_name : Bytes) → IsNarrow room_name (call_grant [])
unfolding call_grant
no_room-IsNarrow room_name = record {
  sip = record { admin = false; call = true };
  grants_sip = refl;
  one_power = refl;
  grants_agent = refl;
  grants_video = inl refl;
}

-- Whatever the method, its grant is either to administer SIP or to make calls, never both, and beyond
-- that for nothing, but in a call for power over the one room that the request names.
pub sip_method_grant-IsNarrow :
    (method : SipMethod) (room_name : Bytes)
    → IsNarrow room_name (sip_method_grant method room_name)
unfolding sip_method_grant
sip_method_grant-IsNarrow SipMethod.create_participant room_name = no_room-IsNarrow room_name
sip_method_grant-IsNarrow SipMethod.transfer_participant room_name = call_grant-IsNarrow room_name
sip_method_grant-IsNarrow _ room_name = admin_grant-IsNarrow room_name
