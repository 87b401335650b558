-- ===== src/Token/Claims.antt =====
-- The claims of a token: the object that `ToJwt` means to write, and a proof that a JSON reader
-- finds exactly that object in the text.
use Prim.Native.String.{String}
use livekit_server_cpp.Common.{
  ◌≡◌, refl, sym, ap, ◌∙◌, Bool, true, false, List, [], ◌∷◌, ◌++◌, append_assoc, append-nil, Option,
  none, some, Bytes, codes,
}
use livekit_server_cpp.Common.Decimal.{decimal_int}
use livekit_server_cpp.Common.Int.{ℤ}
use livekit_server_cpp.Token.Access.{
  AccessToken, add_claim, add_attributes, add_attribute_claim, add_video_claim, add_sip_claim,
  add_agent_claim, claims_text,
}
use livekit_server_cpp.Token.Json.Read.{read_json}
use livekit_server_cpp.Token.Json.RoundTrip.{read_json-print}
use livekit_server_cpp.Token.Json.{Json, Members, print, print_members}
use livekit_server_cpp.Token.Members.{
  ◌+++◌, flag, text, optional, string_list, Wrote-none, then_bool, then_string, then_optional,
  then_source_list, print_members-append, is_end, is_end-append, is_plain, escape_json_plain,
}
use livekit_server_cpp.Token.{
  VideoGrant, SipGrant, AgentGrant, Writer, video_grant_json, escape_json, escape_byte, quoted,
}

-- The members of a video grant: a flag that is false, an empty text, an optional permission that
-- is not set and an empty list of sources are left out.
unfoldable pub video_members : VideoGrant → Members
video_members grant =
    Members.end
    +++ flag "roomCreate" grant.room_create
    +++ flag "roomList" grant.room_list
    +++ flag "roomRecord" grant.room_record
    +++ flag "roomAdmin" grant.room_admin
    +++ flag "roomJoin" grant.room_join
    +++ text "room" grant.room
    +++ text "destinationRoom" grant.destination_room
    +++ flag "ingressAdmin" grant.ingress_admin
    +++ optional "canPublish" grant.can_publish
    +++ optional "canSubscribe" grant.can_subscribe
    +++ optional "canPublishData" grant.can_publish_data
    +++ optional "canUpdateOwnMetadata" grant.can_update_own_metadata
    +++ string_list "canPublishSources" grant.can_publish_sources
    +++ flag "hidden" grant.hidden
    +++ flag "recorder" grant.recorder
    +++ flag "agent" grant.agent

pub video_grant_json-print :
    (grant : VideoGrant) → video_grant_json grant ≡ print (Json.obj (video_members grant))
unfolding video_grant_json video_members print
video_grant_json-print grant =
    let open_object : Writer = record { json = codes "{"; first = true } in
    let e₁ = then_bool (Wrote-none open_object) "roomCreate" grant.room_create refl in
    let e₂ = then_bool e₁ "roomList" grant.room_list refl in
    let e₃ = then_bool e₂ "roomRecord" grant.room_record refl in
    let e₄ = then_bool e₃ "roomAdmin" grant.room_admin refl in
    let e₅ = then_bool e₄ "roomJoin" grant.room_join refl in
    let e₆ = then_string e₅ "room" grant.room refl in
    let e₇ = then_string e₆ "destinationRoom" grant.destination_room refl in
    let e₈ = then_bool e₇ "ingressAdmin" grant.ingress_admin refl in
    let e₉ = then_optional e₈ "canPublish" grant.can_publish refl in
    let e₁₀ = then_optional e₉ "canSubscribe" grant.can_subscribe refl in
    let e₁₁ = then_optional e₁₀ "canPublishData" grant.can_publish_data refl in
    let e₁₂ = then_optional e₁₁ "canUpdateOwnMetadata" grant.can_update_own_metadata refl in
    let e₁₃ = then_source_list e₁₂ grant.can_publish_sources in
    let e₁₄ = then_bool e₁₃ "hidden" grant.hidden refl in
    let e₁₅ = then_bool e₁₄ "recorder" grant.recorder refl in
    let e₁₆ = then_bool e₁₅ "agent" grant.agent refl in
    ap (λ (w : Writer). w.json ++ b'}' ∷ []) e₁₆.wrote

-- Pairs of texts as members, in their order.
abbrev pub pairs : List (Bytes × Bytes) → Members
pairs [] = Members.end
pairs ((key, value) ∷ attributes) = Members.member key (Json.str value) (pairs attributes)

abbrev pub attribute_member : List (Bytes × Bytes) → Members
attribute_member [] = Members.end
attribute_member (a ∷ attributes) =
    Members.member (codes "attributes") (Json.obj (pairs (a ∷ attributes))) Members.end

abbrev pub video_member : Option VideoGrant → Members
video_member none = Members.end
video_member (some grant) =
    Members.member (codes "video") (Json.obj (video_members grant)) Members.end

abbrev pub sip_member : Option SipGrant → Members
sip_member none = Members.end
sip_member (some grant) =
    Members.member (codes "sip")
      (Json.obj (Members.end +++ flag "admin" grant.admin +++ flag "call" grant.call)) Members.end

abbrev pub agent_member : Option AgentGrant → Members
agent_member none = Members.end
agent_member (some grant) =
    Members.member (codes "agent")
      (Json.obj (
        Members.end +++ flag "admin" grant.admin +++ flag "simulationAdmin" grant.simulation_admin))
      Members.end

abbrev pub time_members : Bytes → ℤ → ℤ → Members
time_members api_key issued_at expires_at = Members.member (codes "iss") (Json.str api_key) (
    Members.member (codes "nbf") (Json.num issued_at) (
      Members.member (codes "exp") (Json.num expires_at)
        (Members.member (codes "iat") (Json.num issued_at) Members.end)))

-- The claims: issuer and times always, the rest where it is set.
unfoldable pub claims_members : AccessToken → ℤ → ℤ → Members
claims_members token issued_at expires_at =
    time_members token.api_key issued_at expires_at
    +++ text "sub" token.identity
    +++ text "name" token.name
    +++ text "metadata" token.metadata
    +++ attribute_member token.attributes
    +++ video_member token.video_grant
    +++ sip_member token.sip_grant
    +++ agent_member token.agent_grant

-- `claims` is the text of an object with these members, which are not none, up to its last brace.
record Holds (ms : Members) (claims : Bytes) : Type 0 where
  held : claims ≡ b'{' ∷ print_members true ms
  some_held : is_end ms ≡ false

-- `f` appends the member, or none.
abbrev Appends : Members → (Bytes → Bytes) → Type 0
Appends n f = (claims : Bytes) → f claims ≡ claims ++ print_members false n

Holds-then :
    {ms : Members} {claims : Bytes} (n : Members) (f : Bytes → Bytes)
    → Holds ms claims
    → Appends n f
    → Holds (ms +++ n) (f claims)
Holds-then {ms} n f e h = record {
  held = h _ ∙ rw (e.held, print_members-append true ms n, e.some_held);
  some_held = is_end-append ms n e.some_held;
}

add_claim-Appends :
    (name : String) (value : Bytes)
    → is_plain (codes name) ≡ true
    → Appends (text name value) (add_claim (codes name) value)
unfolding add_claim print
add_claim-Appends name [] plain claims = sym (append-nil claims)
add_claim-Appends name (c ∷ value) plain claims =
    simp (append_assoc, append-nil, escape_json_plain (codes name) plain)

add_attributes-print_members :
    (attributes : List (Bytes × Bytes)) (first : Bool) (claims : Bytes)
    → add_attributes first attributes claims ≡ claims ++ print_members first (pairs attributes)
unfolding add_attributes print
add_attributes-print_members [] first claims = sym (append-nil claims)
add_attributes-print_members ((key, value) ∷ attributes) first claims =
    add_attributes-print_members attributes false _ ∙ simp append_assoc

add_attribute_claim-Appends :
    (attributes : List (Bytes × Bytes))
    → Appends (attribute_member attributes) (add_attribute_claim attributes)
unfolding add_attribute_claim print escape_json escape_byte
add_attribute_claim-Appends [] claims = sym (append-nil claims)
add_attribute_claim-Appends (a ∷ attributes) claims =
    rw (add_attributes-print_members (a ∷ attributes) true) (simp (append_assoc, append-nil))

add_video_claim-Appends :
    (grant : Option VideoGrant) → Appends (video_member grant) (add_video_claim grant)
unfolding add_video_claim print escape_json escape_byte
add_video_claim-Appends none claims = sym (append-nil claims)
add_video_claim-Appends (some grant) claims =
    rw (video_grant_json-print, append-nil) (simp append_assoc)

add_sip_claim-Appends : (grant : Option SipGrant) → Appends (sip_member grant) (add_sip_claim grant)
unfolding add_sip_claim print escape_json escape_byte
add_sip_claim-Appends none claims = sym (append-nil claims)
add_sip_claim-Appends (some grant) claims =
    let w : Writer = record { json = claims ++ codes ",\"sip\":{"; first = true } in
    let e₁ = then_bool (Wrote-none w) "admin" grant.admin refl in
    let e₂ = then_bool e₁ "call" grant.call refl in
    ap (λ (v : Writer). v.json ++ b'}' ∷ []) e₂.wrote ∙ simp (append_assoc, append-nil)

add_agent_claim-Appends :
    (grant : Option AgentGrant) → Appends (agent_member grant) (add_agent_claim grant)
unfolding add_agent_claim print escape_json escape_byte
add_agent_claim-Appends none claims = sym (append-nil claims)
add_agent_claim-Appends (some grant) claims =
    let w : Writer = record { json = claims ++ codes ",\"agent\":{"; first = true } in
    let e₁ = then_bool (Wrote-none w) "admin" grant.admin refl in
    let e₂ = then_bool e₁ "simulationAdmin" grant.simulation_admin refl in
    ap (λ (v : Writer). v.json ++ b'}' ∷ []) e₂.wrote ∙ simp (append_assoc, append-nil)

start_Holds :
    (api_key : Bytes) (issued_at expires_at : ℤ)
    → Holds (time_members api_key issued_at expires_at) (
        codes "{\"iss\":"
        ++ quoted (escape_json api_key)
        ++ codes ",\"nbf\":"
        ++ decimal_int issued_at
        ++ codes ",\"exp\":"
        ++ decimal_int expires_at
        ++ codes ",\"iat\":"
        ++ decimal_int issued_at)
start_Holds api_key issued_at expires_at = record {
  held = unfold print escape_json escape_byte in simp (append_assoc, append-nil);
  some_held = refl;
}

claims_text-print :
    (token : AccessToken) (issued_at expires_at : ℤ)
    → claims_text token issued_at expires_at
      ≡ print (Json.obj (claims_members token issued_at expires_at))
unfolding claims_text claims_members print
claims_text-print token issued_at expires_at =
    let named =
      Holds-then _ _
        (Holds-then _ _
          (Holds-then _ _ (start_Holds token.api_key issued_at expires_at)
            (add_claim-Appends "sub" token.identity refl))
          (add_claim-Appends "name" token.name refl))
        (add_claim-Appends "metadata" token.metadata refl) in
    let granted =
      Holds-then _ _
        (Holds-then _ _
          (Holds-then _ _ (Holds-then _ _ named (add_attribute_claim-Appends token.attributes))
            (add_video_claim-Appends token.video_grant))
          (add_sip_claim-Appends token.sip_grant))
        (add_agent_claim-Appends token.agent_grant) in
    ap (λ (claims : Bytes). claims ++ b'}' ∷ []) granted.held

-- A JSON reader finds in the claims of a token one object: the issuer, `nbf`, `exp` and `iat`, then
-- identity, name, metadata, attributes and the grants, each in this order and only where it is
-- set, with the strings byte for byte as they were set, whatever bytes they hold.
pub read_json-claims_text :
    (token : AccessToken) (issued_at expires_at : ℤ)
    → read_json (claims_text token issued_at expires_at)
      ≡ some (Json.obj (claims_members token issued_at expires_at))
read_json-claims_text token issued_at expires_at = rw claims_text-print (read_json-print _)
