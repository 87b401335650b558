-- ===== src/Jni/Exchange.antt =====
-- pkg/java/src/main/cpp/livekit_server_jni.cpp: `Exchange`, the callback through which the C API reaches
-- Java.
use livekit_server_cpp.CApi.Fields.{text, struct_of}
use livekit_server_cpp.CApi.Host.{Reply}
use livekit_server_cpp.Common.{Option, none, some, [], ◌∷◌, Bytes, codes, equal, if◌then◌else◌}
use livekit_server_cpp.Common.Int.{pos}
use livekit_server_cpp.Error.{ErrorCode}
use livekit_server_cpp.Jni.Machine.{
  Native, returned, stuck, native, refused, ◌>>=◌, ◌>>◌, Jvm, java_text, utf8,
}
use livekit_server_cpp.Jni.Transport.{Send, java_send}
use livekit_server_cpp.Jni.{string_of, request_from, response_fields}
use livekit_server_cpp.Struct.{Struct, JsonLibrary}

-- `Encode`.
unfoldable pub encode_json : JsonLibrary → Struct → Native Bytes
encode_json json value = elim (json.from_struct value) [
  | none ↦ refused ErrorCode.protocol "could not encode binding JSON"
  | some content ↦ returned content
]

-- `ParseJson`.
unfoldable pub parse_json : JsonLibrary → Bytes → Native Struct
parse_json json content = elim (json.to_struct content) [
  | none ↦ refused ErrorCode.protocol "invalid C ABI response"
  | some object ↦ returned object
]

module _ (jvm : Jvm) where
  -- The two objects of a `CallbackContext`; a provider gives a text, or null, for a key.
  pub record CallbackContext : Type 0 where
    pub transport : Option (Send jvm)
    pub key_provider : Option (jvm.JavaString → Native (Option jvm.JavaString))

  unfoldable pub transport_fields : Option (Send jvm) → Struct → Native Struct
  transport_fields transport input = do
    request ← native (request_from input)
    result ← java_send jvm transport request
    returned (response_fields result)

  -- `secret ? Utf8(env, secret) : std::string{}`
  unfoldable pub secret_bytes : Option jvm.JavaString → Native Bytes
  secret_bytes none = returned []
  secret_bytes (some secret) = utf8 jvm secret

  unfoldable pub apply_to :
      Option (jvm.JavaString → Native (Option jvm.JavaString))
      → jvm.JavaString
      → Native (Option jvm.JavaString)
  apply_to none issuer = stuck
  apply_to (some provider) issuer = provider issuer

  unfoldable pub secret_fields :
      Option (jvm.JavaString → Native (Option jvm.JavaString)) → Struct → Native Struct
  secret_fields key_provider input = do
    jvm.push_local_frame 16
    jvm.find_class "java/util/function/Function"
    jvm.method_id "java/util/function/Function" "apply"
    issuer ← java_text jvm (string_of input "key")
    secret ← apply_to key_provider issuer
    content ← secret_bytes secret
    returned (struct_of (("secret", text content) ∷ []))

  unfoldable pub answer_fields : CallbackContext → Struct → Native Struct
  answer_fields context input =
      if equal (string_of input "kind") (codes "transport")
      then transport_fields context.transport input
      else secret_fields context.key_provider input

  -- The body of the `try`: the text that is stored.
  unfoldable pub exchange_java : JsonLibrary → CallbackContext → Bytes → Native Bytes
  exchange_java json context content = do
    input ← parse_json json content
    response ← answer_fields context input
    encode_json json response

-- What `Exchange` returns to the C API.
unfoldable pub reply_of : Native Bytes → Reply
reply_of (returned content) = record { returned = pos 0; response = some content }
reply_of _ = record { returned = pos 1; response = none }
