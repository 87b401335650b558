-- ===== src/Token/Runs.antt =====
-- The claims of a concrete token.
use livekit_server_cpp.Common.{◌≡◌, refl, true, some, none, [], ◌∷◌, codes}
use livekit_server_cpp.Common.Int.{pos, negsuc}
use livekit_server_cpp.Common.Decimal.{decimal_int, decimal, digits_onto}
use livekit_server_cpp.Token.Access.{
  AccessToken, claims_text, add_claim, add_attributes, add_attribute_claim, add_video_claim,
  add_sip_claim, add_agent_claim,
}
use livekit_server_cpp.Token.Claims.{claims_members, read_json-claims_text}
use livekit_server_cpp.Token.Json.Read.{read_json}
use livekit_server_cpp.Token.Json.{Json}
use livekit_server_cpp.Token.{
  escape_json, escape_byte, no_video_grant, video_grant_json, add_bool, add_string, add_optional,
  add_sources, add_source_list,
}

abbrev a_token : AccessToken
a_token = record {
  api_key = codes "key";
  api_secret = codes "secret";
  identity = codes "a\"b";
  name = [];
  metadata = [];
  attributes = (codes "x", codes "y") ∷ [];
  valid_for = pos 60;
  video_grant = some (record no_video_grant { room_join = true; room = codes "r" });
  sip_grant = none;
  agent_grant = none;
}

writes :
    claims_text a_token (negsuc 4) (pos 55)
    ≡ codes
        "{\"iss\":\"key\",\"nbf\":-5,\"exp\":55,\"iat\":-5,\"sub\":\"a\\\"b\",\"attributes\":{\"x\":\"y\"},\"video\":{\"roomJoin\":true,\"room\":\"r\"}}"
unfolding claims_text add_claim add_attributes add_attribute_claim add_video_claim add_sip_claim
    add_agent_claim decimal_int decimal digits_onto escape_json escape_byte video_grant_json
    add_bool add_string add_optional add_source_list add_sources
writes = refl

read_json-claims_text_example :
    read_json (claims_text a_token (negsuc 4) (pos 55))
    ≡ some (Json.obj (claims_members a_token (negsuc 4) (pos 55)))
read_json-claims_text_example = read_json-claims_text a_token (negsuc 4) (pos 55)
