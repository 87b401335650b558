-- ===== src/CApi/Runs.antt =====
-- Concrete runs of the C functions, and the theorems at concrete inputs.
use livekit_server_cpp.Context.Url.{starts_with_case_insensitive, http_scheme, strip_slashes}
use livekit_server_cpp.Crypto.{
  base64_url_decode, decode_loop, base64_url_encode, base64, base64_url_value, absorb,
}
use livekit_server_cpp.Context.{request_id_text, hex_bytes, update_at}
use livekit_server_cpp.CApi.Invoke.{or_null}
use livekit_server_cpp.CApi.Invoke.{copy_text}
use livekit_server_cpp.CApi.Invoke.{copy}
use livekit_server_cpp.CApi.Invoke.{envelope}
use livekit_server_cpp.Services.Model.{encoded}
use livekit_server_cpp.Services.Model.{to_model}
use livekit_server_cpp.CApi.StringMap.Order.{string_map-same}
use livekit_server_cpp.CApi.Host.{transport_request}
use livekit_server_cpp.CApi.Host.{checked_reply}
use livekit_server_cpp.CApi.Host.{exchange}
use livekit_server_cpp.CApi.Host.{callback_transport}
use livekit_server_cpp.Context.Call.{http_request}
use livekit_server_cpp.Context.Call.{read_response}
use livekit_server_cpp.Http.{send}
use livekit_server_cpp.Http.{random_bytes}
use livekit_server_cpp.Context.{request_id}
use livekit_server_cpp.Context.Call.{token_for}
use livekit_server_cpp.Context.Call.{call}
use livekit_server_cpp.Services.Room.{room_grant}
use livekit_server_cpp.Services.Room.{room_method_grant}
use livekit_server_cpp.Services.Room.{room_method_name}
use livekit_server_cpp.Services.{perform}
use livekit_server_cpp.Services.Room.{prepare}
use livekit_server_cpp.Services.Room.{room_call}
use livekit_server_cpp.CApi.Operations.{operation_call}
use livekit_server_cpp.Services.Model.{decoded}
use livekit_server_cpp.Services.Model.{from_model}
use livekit_server_cpp.Services.Model.{model_method}
use livekit_server_cpp.CApi.Operations.{operation_method}
use livekit_server_cpp.CApi.Operations.{call_found}
use livekit_server_cpp.CApi.Operations.{call_by_name}
use livekit_server_cpp.Context.{credentials}
use livekit_server_cpp.Context.Url.{normalize_url}
use livekit_server_cpp.Context.Create.{client_context}
use livekit_server_cpp.CApi.Options.{live_kit_api}
use livekit_server_cpp.CApi.Options.{options_of}
use livekit_server_cpp.CApi.Invoke.{execute_on}
use livekit_server_cpp.CApi.Invoke.{execute_call}
use livekit_server_cpp.CApi.Invoke.{execute_operation}
use livekit_server_cpp.CApi.Invoke.{execute}
use livekit_server_cpp.CApi.Invoke.{check_length}
use livekit_server_cpp.Http.{HttpRequest}
use livekit_server_cpp.CApi.Invoke.{caught}
use livekit_server_cpp.CApi.Fields.{
  text, has, field_of, as_string, string_or_unset, bool_or_unset, struct_or_unset, string_field,
  boolean_field, object_field, struct_of, parse, encode, decode_body,
}
use livekit_server_cpp.CApi.Samples.{
  an_evp, token_options, a_jwt, token_input, a_json, a_host, linked, a_world,
}
use livekit_server_cpp.CApi.Sign.{
  sip_grant_of, grant_from, grants, named_token, is_out_of_range, time_point, sign,
}
use livekit_server_cpp.CApi.Sign.Range.{IsSignedFor, sign-undefined, sign-IsSignedFor}
use livekit_server_cpp.CApi.Host.{transport_response}
use livekit_server_cpp.CApi.Invoke.{Output, envelope, invoke_value, lks_invoke}
use livekit_server_cpp.CApi.Invoke.Answer.{Answers, Ends, lks_invoke-Ends}
use livekit_server_cpp.CApi.Invoke.Sent.{lks_invoke-AtMostOne}
use livekit_server_cpp.CApi.Invoke.Token.{signed_of, lks_invoke-token}
use livekit_server_cpp.CApi.Operations.{Operation, operations, find_operation}
use livekit_server_cpp.CApi.Operations.Names.{operation_name, find_operation_iff}
use livekit_server_cpp.CApi.StringMap.Refinement.{IsAscending, lookup, text_of, string_map-refines}
use livekit_server_cpp.Context.Sent.{AtMostOne}
use livekit_server_cpp.Services.Sip.{SipMethod}
use livekit_server_cpp.CApi.Integer.{
  take_digits, from_digits, from_sign, stoll, integer_of, integer_field,
}
use livekit_server_cpp.CApi.StringMap.{emplace_all, string_map}
use livekit_server_cpp.Common.{
  subst, Bool-cases, inl, inr, ◌≡◌, ◌++◌, ◌≢◌, ◌↔◌, refl, arith, some, List, [], ◌∷◌, Bytes, codes,
}
use livekit_server_cpp.Common.Int.{pos, ◌+ℤ◌, ◌-ℤ◌}
use livekit_server_cpp.Common.Lists.{equal, equal_iff}
use livekit_server_cpp.Error.{ok, undefined}
use livekit_server_cpp.Webhook.Times.{skip_spaces}
use livekit_server_cpp.Common.Decimal.{decimal_int}
use livekit_server_cpp.Crypto.{hmac_sha256}
use livekit_server_cpp.Token.{escape_json, escape_byte, add_bool}
use livekit_server_cpp.Struct.{Struct, find_field}
use livekit_server_cpp.Token.Access.{
  access_token, set_identity, set_name, set_metadata, set_attributes, set_valid_for, set_sip_grant,
  to_jwt, add_int64, claims_text, add_claim, add_attribute_claim, add_video_claim, add_sip_claim,
  add_agent_claim,
}

signed : sign an_evp 1000 token_options ≡ ok a_jwt
unfolding ◌+ℤ◌ ◌-ℤ◌ has field_of as_string string_or_unset bool_or_unset struct_or_unset
    string_field boolean_field object_field struct_of sip_grant_of grant_from grants named_token
    is_out_of_range time_point sign take_digits from_digits from_sign stoll integer_of integer_field
    emplace_all string_map equal find_field access_token set_identity set_name set_metadata
    set_attributes set_valid_for set_sip_grant to_jwt add_int64 claims_text add_claim
    add_attribute_claim add_video_claim add_sip_claim add_agent_claim skip_spaces hmac_sha256
    escape_json escape_byte add_bool decimal_int
signed = refl

sign-undefined_example : sign an_evp 1000 token_options ≢ undefined
sign-undefined_example = sign-undefined an_evp 1000 (omega arith) token_options

sign-IsSignedFor_example : IsSignedFor an_evp 1000 (omega arith) token_options a_jwt
sign-IsSignedFor_example = sign-IsSignedFor an_evp 1000 (omega arith) token_options a_jwt signed

abbrev secrets : Struct
secrets =
    struct_of (("b", text (codes "1")) ∷ ("a", text (codes "2")) ∷ ("b", text (codes "3")) ∷ [])

-- The request of the run below.
abbrev a_sent : HttpRequest
a_sent = record {
  url = codes "https://host/twirp/livekit.RoomService/ListRooms";
  method = codes "POST";
  headers =
      (codes "Content-Type", codes "application/protobuf")
      ∷ (codes "Accept", codes "application/protobuf")
      ∷ (codes "Authorization", codes "Bearer t")
      ∷ (codes "X-Livekit-Request-Id", codes "41414141-4141-4141-8141-414141414141")
      ∷ (codes "User-Agent", codes "livekit-server-cpp/0.1")
      ∷ [];
  body = codes "{}";
  timeout = pos 9;
}

string_map-refines_example :
    (pairs : List (Bytes × Bytes)) × (string_map secrets ≡ ok pairs)
    × IsAscending pairs
    × (lookup (codes "b") pairs ≡ text_of (find_field (codes "b") secrets))
unfolding struct_of
string_map-refines_example = string_map-refines secrets (codes "b") refl

find_operation_iff_example :
    (find_operation (codes "Sip.ListTrunks") operations
      ≡ some (Operation.sip SipMethod.list_trunks))
    ↔ (codes "Sip.ListTrunks" ≡ operation_name (Operation.sip SipMethod.list_trunks))
find_operation_iff_example =
    find_operation_iff (codes "Sip.ListTrunks") (Operation.sip SipMethod.list_trunks)

-- The host's response comes back as the text of the message, printed by the library.
called : lks_invoke linked a_host (some (codes "call")) a_world ≡ (
  ok (record { block = some (codes "printed" ++ 0 ∷ []); output_length = 7 }),
  record { sent = a_sent ∷ []; readings = 0; draws = 16 },
)
unfolding lks_invoke caught invoke_value check_length parse equal execute execute_operation
    execute_call execute_on struct_of string_field field_of string_or_unset as_string find_field
    object_field struct_or_unset boolean_field bool_or_unset integer_field integer_of stoll
    from_sign from_digits take_digits skip_spaces options_of live_kit_api client_context
    normalize_url credentials call_by_name find_operation call_found operation_method model_method
    from_model decoded operation_call room_call prepare perform room_method_name room_method_grant
    room_grant call token_for request_id random_bytes send read_response http_request
    callback_transport exchange encode checked_reply transport_request transport_response
    decode_body to_model encoded envelope copy copy_text or_null starts_with_case_insensitive
    http_scheme base64_url_decode decode_loop base64_url_encode base64 base64_url_value absorb
    strip_slashes request_id_text hex_bytes update_at
called = refl

lks_invoke-AtMostOne_example :
    AtMostOne a_world (lks_invoke linked a_host (some (codes "call")) a_world).1
lks_invoke-AtMostOne_example = lks_invoke-AtMostOne linked a_host (some (codes "call")) a_world

lks_invoke-Ends_example :
    Ends linked a_host
      (invoke_value linked a_host (some (codes "call")) a_world).0
      (lks_invoke linked a_host (some (codes "call")) a_world).0
lks_invoke-Ends_example = lks_invoke-Ends linked a_host (some (codes "call")) a_world

parsed : parse a_json (codes "token") ≡ ok token_input
unfolding parse equal
parsed = refl

asked : string_field token_input "operation" ≡ ok (codes "token")
unfolding string_field field_of string_or_unset as_string find_field equal struct_of
asked = refl

given_options : object_field token_input "options" ≡ ok token_options
unfolding object_field field_of find_field equal struct_of struct_or_unset
given_options = refl

lks_invoke-token_example :
    (response : Struct) × (output : Output) × (envelope
        (signed_of linked a_host (omega arith) a_world token_options)
      ≡ ok response)
    × Answers linked a_host response output
    × (lks_invoke linked a_host (some (codes "token")) a_world ≡ (ok output, a_world))
lks_invoke-token_example =
    lks_invoke-token linked a_host (omega arith) a_world (codes "token") token_input token_options
      (omega arith) parsed asked given_options

abbrev one_order : Struct
one_order = struct_of (("b", text (codes "1")) ∷ ("a", text (codes "2")) ∷ [])

abbrev other_order : Struct
other_order = struct_of (("a", text (codes "2")) ∷ ("b", text (codes "1")) ∷ [])

swapped : (name : Bytes) → find_field name one_order ≡ find_field name other_order
unfolding struct_of find_field equal
swapped name = elim (Bool-cases (equal (codes "b") name)) [
  | inl e ↦
      subst (λ n. find_field n one_order ≡ find_field n other_order)
        ((equal_iff (codes "b") name).0 e) refl
  | inr e ↦ ground arith
]

string_map-same_example : string_map one_order ≡ string_map other_order
unfolding struct_of
string_map-same_example = string_map-same one_order other_order refl refl swapped
