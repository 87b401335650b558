-- ===== src/CApi/Sign.antt =====
-- src/c_api.cpp and src/detail/grants.inc: `Sign`, the operation that signs a token.
pub mod Defined
pub mod Range
use Prim.Native.String.{String}
use livekit_server_cpp.CApi.Fields.{
  has, string_field, boolean_field, object_field, string_list_field,
}
use livekit_server_cpp.CApi.Integer.{integer_field}
use livekit_server_cpp.CApi.StringMap.{string_map}
use livekit_server_cpp.Common.Int.{
  ℤ, pos, ◌-ℤ◌, ltb_ℤ, leb_ℤ, int64_max, fits_int64, trunc_div, scale,
}
use livekit_server_cpp.Common.{ℕ, Bool, true, false, ◌||◌, Option, none, some, Bytes, if◌then◌else◌}
use livekit_server_cpp.Crypto.{Evp}
use livekit_server_cpp.Error.{ErrorCode, Result, ok, undefined, ◌>>=◌, ◌>>◌, throw_if}
use livekit_server_cpp.Struct.{Struct}
use livekit_server_cpp.Token.Access.{
  AccessToken, access_token, set_identity, set_name, set_metadata, set_attributes, set_valid_for,
  set_video_grant, set_sip_grant, set_agent_grant, to_jwt,
}
use livekit_server_cpp.Token.{VideoGrant, SipGrant, AgentGrant}

-- `if (Has(fields, name)) grant.field = Boolean(fields, name);`
unfoldable pub optional_boolean : Struct → String → Result (Option Bool)
optional_boolean fields name =
    if has fields name then (boolean_field fields name >>= λ value. ok (some value)) else ok none

unfoldable pub video_grant_of : Struct → Result VideoGrant
video_grant_of fields = do
  room_create ← boolean_field fields "room_create"
  room_list ← boolean_field fields "room_list"
  room_record ← boolean_field fields "room_record"
  room_admin ← boolean_field fields "room_admin"
  room_join ← boolean_field fields "room_join"
  room ← string_field fields "room"
  destination_room ← string_field fields "destination_room"
  ingress_admin ← boolean_field fields "ingress_admin"
  can_publish ← optional_boolean fields "can_publish"
  can_subscribe ← optional_boolean fields "can_subscribe"
  can_publish_data ← optional_boolean fields "can_publish_data"
  can_update_own_metadata ← optional_boolean fields "can_update_own_metadata"
  can_publish_sources ← string_list_field fields "can_publish_sources"
  hidden ← boolean_field fields "hidden"
  recorder ← boolean_field fields "recorder"
  agent ← boolean_field fields "agent"
  ok (record {
    room_create = room_create;
    room_list = room_list;
    room_record = room_record;
    room_admin = room_admin;
    room_join = room_join;
    room = room;
    destination_room = destination_room;
    ingress_admin = ingress_admin;
    can_publish = can_publish;
    can_subscribe = can_subscribe;
    can_publish_data = can_publish_data;
    can_update_own_metadata = can_update_own_metadata;
    can_publish_sources = can_publish_sources;
    hidden = hidden;
    recorder = recorder;
    agent = agent;
  })

unfoldable pub sip_grant_of : Struct → Result SipGrant
sip_grant_of fields = do
  admin ← boolean_field fields "admin"
  call ← boolean_field fields "call"
  ok (record { admin = admin; call = call })

unfoldable pub agent_grant_of : Struct → Result AgentGrant
agent_grant_of fields = do
  admin ← boolean_field fields "admin"
  simulation_admin ← boolean_field fields "simulation_admin"
  ok (record { admin = admin; simulation_admin = simulation_admin })

-- `if (Has(options, name)) { ... token.Set...Grant(std::move(grant)); }`
unfoldable pub grant_from :
    {Grant : Type 0}
    → String
    → (Struct → Result Grant)
    → (Grant → AccessToken → AccessToken)
    → Struct
    → AccessToken
    → Result AccessToken
grant_from name read set options token =
    if has options name
    then (object_field options name >>= λ fields. read fields >>= λ grant. ok (set grant token))
    else ok token

-- `grants.inc`.
unfoldable pub grants : Struct → AccessToken → Result AccessToken
grants options token = do
  with_video ← grant_from "video" video_grant_of set_video_grant options token
  with_sip ← grant_from "sip" sip_grant_of set_sip_grant options with_video
  grant_from "agent" agent_grant_of set_agent_grant options with_sip

-- The token before its lifetime and grants.
unfoldable pub named_token : Struct → Result AccessToken
named_token options = do
  api_key ← string_field options "api_key"
  api_secret ← string_field options "api_secret"
  identity ← string_field options "identity"
  name ← string_field options "name"
  metadata ← string_field options "metadata"
  object ← object_field options "attributes"
  attributes ← string_map object
  ok (
      set_attributes attributes (
        set_metadata metadata
          (set_name name (set_identity identity (access_token api_key api_secret)))))

module _ (ticks_per_second : ℕ) where
  -- `Clock::duration::max()` in whole seconds.
  abbrev pub max_seconds : ℤ
  max_seconds = trunc_div (pos int64_max) ticks_per_second

  -- The test that `Sign` throws on. The difference is only taken where both numbers are in range.
  unfoldable pub is_out_of_range : ℤ → ℤ → Bool
  is_out_of_range now ttl =
      ltb_ℤ now (pos 0)
      || leb_ℤ ttl (pos 0)
      || ltb_ℤ max_seconds ttl
      || ltb_ℤ (max_seconds -ℤ ttl) now

  -- `Clock::time_point(std::chrono::seconds(now))`, whose ticks an `int64_t` counts.
  unfoldable pub time_point : ℤ → Result ℤ
  time_point now =
      if fits_int64 (scale now ticks_per_second) then ok (scale now ticks_per_second) else undefined

module _ (evp : Evp) (ticks_per_second : ℕ) where
  -- `Sign`.
  unfoldable pub sign : Struct → Result Bytes
  sign options = do
    token ← named_token options
    ttl ← integer_field options "valid_for"
    now ← integer_field options "now"
    throw_if (is_out_of_range ticks_per_second now ttl) ErrorCode.invalid_argument
        "token timestamp or lifetime exceeds native clock range"
    timed ← set_valid_for ttl token
    granted ← grants options timed
    issued ← time_point ticks_per_second now
    to_jwt evp ticks_per_second granted issued
