-- ===== src/Jni/Call.antt =====
-- pkg/java/src/main/cpp/livekit_server_jni.cpp: the native methods `call`, `getDispatch` and `token`,
-- with `Parse`, `Call` and `Guard`. The caller in Java gets a `LiveKitException` where a native method
-- has thrown one, or else the exception that is pending, or else what is returned.
mod Samples
mod Runs
use Prim.Native.String.{String}
use livekit_server_cpp.CApi.Fields.{text}
use livekit_server_cpp.CApi.Invoke.{Linked}
use livekit_server_cpp.Common.{Bool, true, false, Option, none, some, List, [], ◌∷◌, Bytes, codes}
use livekit_server_cpp.Common.Decimal.{decimal_int}
use livekit_server_cpp.Common.Int.{ℤ}
use livekit_server_cpp.Error.{ErrorCode}
use livekit_server_cpp.Http.{World}
use livekit_server_cpp.Jni.Exchange.{CallbackContext}
use livekit_server_cpp.Jni.Invoke.{invoke, input_of}
use livekit_server_cpp.Jni.Machine.{
  Native, returned, pending, thrown, stuck, native, refused, ◌>>=◌, ◌>>◌, Jvm, from_array, to_array,
  java_text,
}
use livekit_server_cpp.Jni.Options.{set_field, plain_options, grant_options}
use livekit_server_cpp.Jni.Transport.{Send}
use livekit_server_cpp.Jni.{LiveKitException, string_value}
use livekit_server_cpp.Struct.{Value, Struct, JsonLibrary, find_field}

-- `contains`.
unfoldable pub default_field : Bytes → Value → Struct → Struct
default_field key value object = elim (find_field key object) [
  | none ↦ set_field key value object
  | some found ↦ object
]

unfoldable pub set_fields : List (Bytes × Bytes) → Struct → Struct
set_fields [] input = input
set_fields ((name, value) ∷ fields) input = set_fields fields (set_field name (text value) input)

unfoldable pub is_given {ℓ} : {A : Type ℓ} → Option A → Bool
is_given none = false
is_given (some a) = true

-- The options of `token`, with the defaults, and the time.
unfoldable pub token_options_at : ℤ → Struct → Struct
token_options_at now source =
    set_field (codes "now") (text (decimal_int now))
      (default_field (codes "valid_for") (text (codes "21600")) (grant_options source))

-- The options of a call.
unfoldable pub call_options : Bool → Struct → Struct
call_options given source =
    set_field (codes "use_transport") (Value.bool given) (plain_options source)

module _ (jvm : Jvm) (linked : Linked) where
  -- `Parse`.
  unfoldable pub parse_options : Option Bytes → Native Struct
  parse_options array = from_array jvm array >>= λ content. elim (linked.json.to_struct content) [
    | none ↦ refused ErrorCode.invalid_argument "invalid binding options JSON"
    | some object ↦ returned object
  ]

  -- `Raise`.
  unfoldable pub raise : LiveKitException → Native (Unit {0})
  raise error = do
    jvm.find_class "io/livekit/server/LiveKitException"
    jvm.method_id "io/livekit/server/LiveKitException" "<init>"
    message ← java_text jvm error.message
    twirp ← java_text jvm error.twirp_code
    jvm.new_exception error

  -- `Guard`: what Java sees, where a null reference is `none`. An error for which there is no exception
  -- is dropped.
  unfoldable pub raised : {A : Type 0} → LiveKitException → Native (Unit {0}) → Native (Option A)
  raised error (returned unit) = thrown error
  raised error (pending exception) = pending exception
  raised error (thrown other) = returned none
  raised error stuck = stuck

  unfoldable pub guard : {A : Type 0} → Native (Option A) → Native (Option A)
  guard (returned result) = returned result
  guard (pending exception) = pending exception
  guard (thrown error) = raised error (raise error)
  guard stuck = stuck

  -- An invocation on an input, if there is one, and what becomes of the value.
  unfoldable pub invoke_with :
      CallbackContext jvm
      → (Value → Native (Option Bytes))
      → Native Struct
      → World
      → Native (Option Bytes) × World
  invoke_with context finish (returned input) world =
      let (value, later) = invoke jvm linked context input world in
      (guard (value >>= finish), later)
  invoke_with context finish (pending exception) world = (guard (pending exception), world)
  invoke_with context finish (thrown error) world = (guard (thrown error), world)
  invoke_with context finish stuck world = (guard stuck, world)

  abbrev transport_context : Option (Send jvm) → CallbackContext jvm
  transport_context transport = record { transport = transport; key_provider = none }

  -- The input of `Call`.
  unfoldable pub call_input_of :
      Option Bytes → Option (Send jvm) → Bytes → List (Bytes × Bytes) → Native Struct
  call_input_of options transport operation fields = do
    source ← parse_options options
    returned (set_fields fields (input_of operation (call_options (is_given transport) source)))

  unfoldable pub text_result : Value → Native (Option Bytes)
  text_result value = to_array jvm (string_value value) >>= λ content. returned (some content)

  unfoldable pub operation_text : Option jvm.JavaString → Native Bytes
  operation_text none = refused ErrorCode.invalid_argument "operation must not be null"
  operation_text (some operation) = jvm.modified_utf8 operation

  -- `Java_io_livekit_server_Native_call`.
  unfoldable pub native_call :
      Option Bytes
      → Option jvm.JavaString
      → Option Bytes
      → Option (Send jvm)
      → World
      → Native (Option Bytes) × World
  native_call options operation request transport =
      invoke_with (transport_context transport) text_result (do
        op ← operation_text operation
        content ← from_array jvm request
        call_input_of options transport op ((codes "request", content) ∷ []))

  -- `result.kind_case() == Value::kNullValue ? nullptr : Bytes(env, result.string_value())`
  unfoldable pub dispatch_result : Value → Native (Option Bytes)
  dispatch_result Value.null = returned none
  dispatch_result value = text_result value

  -- `Java_io_livekit_server_Native_getDispatch`.
  unfoldable pub native_get_dispatch :
      Option Bytes
      → Option Bytes
      → Option Bytes
      → Option (Send jvm)
      → World
      → Native (Option Bytes) × World
  native_get_dispatch options id room transport =
      invoke_with (transport_context transport) dispatch_result (do
        dispatch_id ← from_array jvm id
        room_name ← from_array jvm room
        call_input_of options transport (codes "get_dispatch")
            ((codes "dispatch_id", dispatch_id) ∷ (codes "room", room_name) ∷ []))

  -- `Java_io_livekit_server_Native_token`.
  unfoldable pub native_token : Option Bytes → ℤ → World → Native (Option Bytes) × World
  native_token options now = invoke_with (transport_context none) text_result (do
    source ← parse_options options
    returned (input_of (codes "token") (token_options_at now source)))
