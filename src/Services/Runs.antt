-- ===== src/Services/Runs.antt =====
-- A concrete method on the model types, and the theorem about it there.
use livekit_server_cpp.Services.Sip.{SipMethod, sip_method_grant}
use livekit_server_cpp.Services.Sip.Laws.{IsNarrow, sip_method_grant-IsNarrow}
use livekit_server_cpp.Common.{◌≡◌, refl, [], ◌∷◌, ◌++◌, Bytes, codes}
use livekit_server_cpp.Error.{ErrorCode, ok, throw, plain_error}
use livekit_server_cpp.Http.{World, done}
use livekit_server_cpp.Services.Model.{
  Converted, MessageType, from_json, from_model, to_model, decoded, encoded, model_method,
}

abbrev plain_type : MessageType Bytes
plain_type = record {
  full_name = codes "M";
  from_text = λ json. Converted.converted json;
  to_text = λ message. Converted.converted (b'!' ∷ message);
}

abbrev refusing_type : MessageType Bytes
refusing_type = record {
  full_name = codes "M";
  from_text = λ json. Converted.bad_status (codes "no");
  to_text = λ message. Converted.bad_status (codes "no");
}

abbrev a_world : World
a_world = record { sent = []; readings = 0; draws = 0 }

doubled :
    model_method plain_type plain_type
      (λ request. done (request ++ request))
      (from_json (codes "a"))
      a_world
    ≡ (ok (from_json (codes "!aa")), a_world)
unfolding model_method from_model decoded to_model encoded
doubled = refl

refused :
    model_method refusing_type plain_type (λ request. done request) (from_json (codes "a")) a_world
    ≡ (throw (plain_error ErrorCode.protocol (codes "invalid M JSON: no")), a_world)
unfolding model_method from_model decoded
refused = refl

sip_method_grant-IsNarrow_example :
    IsNarrow (codes "r") (sip_method_grant SipMethod.transfer_participant (codes "r"))
sip_method_grant-IsNarrow_example =
    sip_method_grant-IsNarrow SipMethod.transfer_participant (codes "r")
