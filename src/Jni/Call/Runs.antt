-- ===== src/Jni/Call/Runs.antt =====
-- The theorems about the native methods, at the samples.
use livekit_server_cpp.Jni.Call.Samples.{
  a_jvm, an_answer, a_throw, a_sent, a_reply, java_options, a_json, linked,
}
use livekit_server_cpp.Curl.Lines.{has_byte}
use livekit_server_cpp.Services.{perform}
use livekit_server_cpp.Crypto.{absorb, base64_url_value, base64, base64_url_encode}
use livekit_server_cpp.Crypto.{decode_loop}
use livekit_server_cpp.Crypto.{base64_url_decode}
use livekit_server_cpp.Context.Url.{strip_slashes, http_scheme}
use livekit_server_cpp.Context.Url.{starts_with_case_insensitive}
use livekit_server_cpp.CApi.Invoke.{or_null}
use livekit_server_cpp.CApi.Invoke.{copy_text}
use livekit_server_cpp.CApi.Invoke.{copy}
use livekit_server_cpp.Services.Model.{encoded}
use livekit_server_cpp.Services.Model.{to_model}
use livekit_server_cpp.CApi.Fields.{decode_body}
use livekit_server_cpp.CApi.Host.{transport_response}
use livekit_server_cpp.CApi.Host.{checked_reply}
use livekit_server_cpp.CApi.Fields.{encode}
use livekit_server_cpp.CApi.Host.{exchange}
use livekit_server_cpp.Context.Call.{call, http_request}
use livekit_server_cpp.Context.Call.{read_response}
use livekit_server_cpp.Http.{send}
use livekit_server_cpp.Http.{random_bytes}
use livekit_server_cpp.Context.{update_at, hex_bytes, request_id_text, request_id}
use livekit_server_cpp.Context.Call.{token_for}
use livekit_server_cpp.Token.{add_bool}
use livekit_server_cpp.Services.Room.{room_grant}
use livekit_server_cpp.Token.{escape_byte}
use livekit_server_cpp.Token.{escape_json}
use livekit_server_cpp.Services.Room.{room_method_grant}
use livekit_server_cpp.Services.Room.{room_method_name}
use livekit_server_cpp.Crypto.{hmac_sha256}
use livekit_server_cpp.Token.Access.{access_token, claims_text, add_agent_claim}
use livekit_server_cpp.Token.Access.{add_sip_claim}
use livekit_server_cpp.Services.Room.{prepare}
use livekit_server_cpp.Token.Access.{add_video_claim}
use livekit_server_cpp.Services.Room.{room_call}
use livekit_server_cpp.Token.Access.{add_attribute_claim}
use livekit_server_cpp.CApi.Operations.{operation_call}
use livekit_server_cpp.Token.Access.{add_claim}
use livekit_server_cpp.Services.Model.{decoded}
use livekit_server_cpp.Services.Model.{from_model}
use livekit_server_cpp.Token.Access.{add_int64}
use livekit_server_cpp.Services.Model.{model_method}
use livekit_server_cpp.CApi.Operations.{operation_method}
use livekit_server_cpp.Token.Access.{to_jwt}
use livekit_server_cpp.Token.Access.{set_sip_grant}
use livekit_server_cpp.CApi.Operations.{call_found}
use livekit_server_cpp.CApi.Operations.{find_operation}
use livekit_server_cpp.Token.Access.{set_valid_for}
use livekit_server_cpp.CApi.Operations.{call_by_name}
use livekit_server_cpp.Token.Access.{set_attributes}
use livekit_server_cpp.Context.{credentials}
use livekit_server_cpp.Token.Access.{set_metadata}
use livekit_server_cpp.Context.Url.{normalize_url}
use livekit_server_cpp.Token.Access.{set_name}
use livekit_server_cpp.Context.Create.{client_context}
use livekit_server_cpp.Token.Access.{set_identity}
use livekit_server_cpp.CApi.Options.{options_of, live_kit_api}
use livekit_server_cpp.CApi.StringMap.{string_map}
use livekit_server_cpp.Webhook.Times.{skip_spaces}
use livekit_server_cpp.CApi.StringMap.{emplace_all}
use livekit_server_cpp.CApi.Integer.{take_digits}
use livekit_server_cpp.CApi.Sign.{time_point}
use livekit_server_cpp.CApi.Integer.{from_digits}
use livekit_server_cpp.CApi.Sign.{is_out_of_range}
use livekit_server_cpp.CApi.Integer.{from_sign}
use livekit_server_cpp.CApi.Sign.{named_token}
use livekit_server_cpp.CApi.Integer.{stoll}
use livekit_server_cpp.CApi.Sign.{grants}
use livekit_server_cpp.CApi.Sign.{grant_from}
use livekit_server_cpp.CApi.Integer.{integer_of}
use livekit_server_cpp.CApi.Sign.{sip_grant_of}
use livekit_server_cpp.CApi.Integer.{integer_field}
use livekit_server_cpp.CApi.Fields.{boolean_field}
use livekit_server_cpp.CApi.Fields.{struct_or_unset}
use livekit_server_cpp.CApi.Fields.{bool_or_unset}
use livekit_server_cpp.CApi.Fields.{object_field}
use livekit_server_cpp.CApi.Fields.{string_or_unset}
use livekit_server_cpp.CApi.Fields.{string_field}
use livekit_server_cpp.CApi.Invoke.{execute_on}
use livekit_server_cpp.CApi.Fields.{as_string}
use livekit_server_cpp.CApi.Fields.{field_of}
use livekit_server_cpp.CApi.Invoke.{execute_call}
use livekit_server_cpp.CApi.Fields.{has}
use livekit_server_cpp.CApi.Invoke.{execute_operation}
use livekit_server_cpp.Common.Int.{◌-ℤ◌}
use livekit_server_cpp.CApi.Invoke.{execute}
use livekit_server_cpp.Common.Int.{◌+ℤ◌}
use livekit_server_cpp.CApi.Fields.{parse}
use livekit_server_cpp.Jni.{
  Struct, second_value, first_value, list_value, headers_from, long_of, request_from, struct_value,
}
use livekit_server_cpp.CApi.Invoke.{check_length}
use livekit_server_cpp.CApi.Invoke.{invoke_value}
use livekit_server_cpp.Jni.Options.{translate_onto}
use livekit_server_cpp.CApi.Invoke.{caught}
use livekit_server_cpp.Jni.Call.{default_field}
use livekit_server_cpp.Common.Decimal.{decimal_int}
use livekit_server_cpp.Jni.Options.Names.{Words}
use livekit_server_cpp.Jni.Options.Lookup.{IsGranted, find_field-options}
use livekit_server_cpp.Jni.Options.{set_field, grant_value}
use livekit_server_cpp.Jni.Relay.{callback_transport-java_send}
use livekit_server_cpp.Jni.Options.{plain_options, grant_options}
use livekit_server_cpp.Jni.Passage.{invoke_with-pending}
use livekit_server_cpp.Jni.Options.{plain_options}
use livekit_server_cpp.Jni.Invoke.{host, failure_at, uses_host}
use livekit_server_cpp.Jni.Options.{option_name}
use livekit_server_cpp.Jni.Call.{text_result}
use livekit_server_cpp.CApi.Host.{callback_transport}
use livekit_server_cpp.Struct.{find_field}
use livekit_server_cpp.CApi.Sign.{sign}
use livekit_server_cpp.CApi.Invoke.{envelope}
use livekit_server_cpp.Jni.Call.{invoke_with}
use livekit_server_cpp.Jni.Relay.{IsDelivered}
use livekit_server_cpp.Jni.Transport.{
  http_response, header_item, header_items, header_array, java_request, send_over, java_send,
}
use livekit_server_cpp.CApi.Invoke.{lks_invoke}
use livekit_server_cpp.Jni.Relay.{Relays}
use livekit_server_cpp.CApi.Samples.{an_evp, call_input, a_world, a_jwt}
use livekit_server_cpp.CApi.Fields.{struct_of}
use livekit_server_cpp.CApi.Host.{transport_request, header_values}
use livekit_server_cpp.Common.Int.{pos}
use livekit_server_cpp.Common.Lists.{equal}
use livekit_server_cpp.Common.{true, sym, subst, none, some, [], ◌∷◌, codes, ◌≡◌, refl, arith}
use livekit_server_cpp.Error.{ok}
use livekit_server_cpp.Jni.Call.{token_options_at}
use livekit_server_cpp.Jni.Exchange.{
  reply_of, transport_fields, answer_fields, parse_json, exchange_java, CallbackContext,
}
use livekit_server_cpp.Jni.Machine.{
  native, from_array, fill_array, to_array, java_text, returned, pending,
}
use livekit_server_cpp.Jni.{field_or_empty, string_value, response_fields, string_of}

sent_printed : a_json.from_struct (transport_request a_sent) ≡ some (codes "request")
unfolding string_of equal string_value field_or_empty find_field transport_request struct_of
sent_printed = refl

sent_read : a_json.to_struct (codes "request") ≡ some (transport_request a_sent)
unfolding equal
sent_read = refl

reply_printed : a_json.from_struct (response_fields a_reply) ≡ some (codes "reply")
unfolding equal string_of string_value field_or_empty find_field response_fields struct_of
    decimal_int
reply_printed = refl

reply_read : a_json.to_struct (codes "reply") ≡ some (response_fields a_reply)
unfolding equal
reply_read = refl

abbrev a_context : CallbackContext a_jvm
a_context = record { transport = some an_answer; key_provider = none }

answered : java_send a_jvm (some an_answer) a_sent ≡ returned a_reply
unfolding java_send send_over java_request header_array header_items header_item java_text to_array
    fill_array http_response from_array
answered = refl

delivered : IsDelivered a_json (java_send a_jvm (some an_answer) a_sent)
delivered =
    subst (λ outcome. IsDelivered a_json outcome) (sym answered)
      (
        (200, refl, omega arith, omega arith, refl, (omega arith, omega arith)),
        (codes "reply", reply_printed, reply_read, omega arith),
      )

callback_transport-java_send_example :
    Relays
      (java_send a_jvm (some an_answer) a_sent)
      (callback_transport a_json (host a_jvm linked a_context) [] a_sent)
      (failure_at a_jvm linked a_context a_sent)
callback_transport-java_send_example =
    callback_transport-java_send a_jvm linked a_context [] a_sent (omega arith, omega arith)
      (omega arith, omega arith) (codes "request", sent_printed, sent_read, omega arith) delivered

signed : sign an_evp 1000 (token_options_at (pos 5) java_options) ≡ ok a_jwt
unfolding token_options_at set_field default_field grant_options translate_onto option_name
    grant_value plain_options struct_value ◌+ℤ◌ ◌-ℤ◌ has field_of as_string string_or_unset
    bool_or_unset struct_or_unset string_field boolean_field object_field struct_of sip_grant_of
    grant_from grants named_token is_out_of_range time_point sign take_digits from_digits from_sign
    stoll integer_of integer_field emplace_all string_map equal find_field access_token set_identity
    set_name set_metadata set_attributes set_valid_for set_sip_grant to_jwt add_int64 claims_text
    add_claim add_attribute_claim add_video_claim add_sip_claim add_agent_claim skip_spaces
    hmac_sha256 escape_json escape_byte add_bool decimal_int
signed = refl

call_printed : a_json.from_struct call_input ≡ some (codes "call")
unfolding equal string_of string_value field_or_empty find_field struct_of
call_printed = refl

sent_once :
    (lks_invoke linked
      (host a_jvm linked (record { transport = some a_throw; key_provider = none }))
      (some (codes "call"))
      a_world).1.sent
    ≡ a_sent ∷ a_world.sent
unfolding lks_invoke caught invoke_value check_length parse equal execute execute_operation
    execute_call execute_on struct_of string_field field_of string_or_unset as_string find_field
    object_field struct_or_unset boolean_field bool_or_unset integer_field integer_of stoll
    from_sign from_digits take_digits skip_spaces options_of live_kit_api client_context
    normalize_url credentials call_by_name find_operation call_found operation_method model_method
    from_model decoded operation_call room_call prepare perform room_method_name room_method_grant
    room_grant call token_for request_id random_bytes send read_response http_request
    callback_transport exchange encode checked_reply transport_request transport_response
    decode_body to_model encoded envelope copy copy_text or_null starts_with_case_insensitive
    http_scheme base64_url_decode decode_loop base64_url_encode base64 base64_url_value absorb
    strip_slashes request_id_text hex_bytes update_at host exchange_java parse_json answer_fields
    transport_fields native reply_of string_of string_value field_or_empty request_from long_of
    headers_from list_value first_value second_value header_values decimal_int java_send send_over
    java_request header_array header_items header_item java_text to_array fill_array
sent_once = refl

threw : java_send a_jvm (some a_throw) a_sent ≡ pending 7
unfolding java_send send_over java_request header_array header_items header_item java_text to_array
    fill_array
threw = refl

asked_host :
    uses_host a_jvm linked (record { transport = some a_throw; key_provider = none }) (codes "call")
    ≡ true
unfolding uses_host struct_of object_field field_of struct_or_unset boolean_field bool_or_unset
    find_field equal native
asked_host = refl

invoke_with-pending_example :
    (invoke_with a_jvm linked
      (record { transport = some a_throw; key_provider = none })
      (text_result a_jvm linked)
      (returned call_input)
      a_world).0
    ≡ pending 7
invoke_with-pending_example =
    invoke_with-pending a_jvm linked a_throw none (text_result a_jvm linked) call_input
      (codes "call") a_world a_sent 7 call_printed sent_once asked_host (omega arith, omega arith)
      (omega arith, omega arith) (codes "request", sent_printed, sent_read, omega arith) threw

abbrev lifetime_words : Words
lifetime_words = record { first = codes "valid"; others = (b'F', codes "or") ∷ [] }

find_field-options_example :
    (find_field (codes "valid_for") (plain_options java_options)
      ≡ find_field (codes "validFor") java_options)
    × IsGranted
        (codes "validFor")
        (find_field (codes "validFor") java_options)
        (find_field (codes "valid_for") (grant_options java_options))
unfolding has_byte struct_of find_field equal
find_field-options_example =
    find_field-options lifetime_words java_options (refl, (omega arith, omega arith, refl, tt)) refl
      (refl, (refl, (refl, (refl, tt)))) (refl, (refl, (refl, (refl, tt))))
