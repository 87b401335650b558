-- ===== src/Jni/Invoke.antt =====
-- pkg/java/src/main/cpp/livekit_server_jni.cpp: `Invoke`, an invocation of the C API from Java. An
-- invocation passes on to Java the requests that it sends; a key provider is not part of it.
use livekit_server_cpp.CApi.Fields.{text, object_field, boolean_field}
use livekit_server_cpp.CApi.Host.{Callback, transport_request}
use livekit_server_cpp.CApi.Invoke.{Linked, Output, lks_invoke}
use livekit_server_cpp.Common.{
  ◌-◌, Bool, false, if◌then◌else◌, Option, none, some, List, [], ◌∷◌, Bytes, codes, inl, inr, ◌⊎◌,
  length,
}
use livekit_server_cpp.Common.Lists.{take}
use livekit_server_cpp.Error.{ErrorCode, Result}
use livekit_server_cpp.Http.{World, HttpRequest}
use livekit_server_cpp.Jni.Exchange.{
  CallbackContext, exchange_java, reply_of, encode_json, parse_json,
}
use livekit_server_cpp.Jni.Machine.{
  Native, returned, pending, thrown, stuck, native, refused, ◌>>=◌, Jvm,
}
use livekit_server_cpp.Jni.Options.{set_field}
use livekit_server_cpp.Jni.{LiveKitException, response_from}
use livekit_server_cpp.Struct.{Value, Struct}

-- The requests of a world that an earlier world does not have, the latest first.
unfoldable pub new_requests : World → World → List HttpRequest
new_requests before after = take (length after.sent - length before.sent) after.sent

-- `context.failure = std::current_exception()`, where the exchange failed.
unfoldable pub failure_of : Native Bytes → Option (Native Value)
failure_of (returned content) = none
failure_of (pending exception) = some (pending exception)
failure_of (thrown error) = some (thrown error)
failure_of stuck = some stuck

-- `static_cast`s and the constructor of `Error`.
unfoldable pub value_or_throw : Value ⊎ LiveKitException → Native Value
value_or_throw (inl value) = returned value
value_or_throw (inr error) = thrown error

-- `Input`.
unfoldable pub input_of : Bytes → Struct → Struct
input_of operation options =
    set_field (codes "options") (Value.struct options)
      (set_field (codes "operation") (text operation) Struct.empty)

module _ (jvm : Jvm) (linked : Linked) (context : CallbackContext jvm) where
  unfoldable pub host : Callback
  host = some (λ content. reply_of (exchange_java jvm linked.json context content))

  -- What the exchange for a request left in `context.failure`, if it took place.
  unfoldable pub failure_at : HttpRequest → Option (Native Value)
  failure_at request = elim (linked.json.from_struct (transport_request request)) [
    | none ↦ none
    | some content ↦ failure_of (exchange_java jvm linked.json context content)
  ]

  -- The latest failure.
  unfoldable pub latest_failure : List HttpRequest → Option (Native Value)
  latest_failure [] = none
  latest_failure (request ∷ requests) =
      let earlier = latest_failure requests in
      elim (failure_at request) [ none ↦ earlier | some failure ↦ some failure ]

  -- Whether the options of an input have the C API send its requests by way of `Exchange`.
  unfoldable pub uses_host : Bytes → Bool
  uses_host content = elim (linked.json.to_struct content) [
    | none ↦ false
    | some input ↦
        elim (native (object_field input "options") >>= λ options.
        native (boolean_field options "use_transport")) [ returned asked ↦ asked | _ ↦ false ]
  ]

  -- What `context.failure` holds after an invocation on an input, from its requests.
  unfoldable pub context_failure : Bytes → List HttpRequest → Option (Native Value)
  context_failure content requests = elim context.transport [
    | none ↦ none
    | some send ↦ if uses_host content then latest_failure requests else none
  ]

  -- From the returned block to the value.
  unfoldable pub read_output : Output → Native Value
  read_output output = elim output.block [
    | none ↦ refused ErrorCode.unknown "std::bad_alloc"
    | some block ↦ parse_json linked.json (take output.output_length block) >>= λ response.
        value_or_throw (response_from response)
  ]

  unfoldable pub after_invoke : Option (Native Value) → Result Output → Native Value
  after_invoke (some failure) result = failure
  after_invoke none result = native result >>= read_output

  unfoldable pub invoke_content : Bytes → World → Native Value × World
  invoke_content content before =
      let (result, after) = lks_invoke linked host (some content) before in
      (after_invoke (context_failure content (new_requests before after)) result, after)

  -- `Invoke`.
  unfoldable pub invoke : Struct → World → Native Value × World
  invoke input before = elim (encode_json linked.json input) [
    | returned content ↦ invoke_content content before
    | pending exception ↦ (pending exception, before)
    | thrown error ↦ (thrown error, before)
    | stuck ↦ (stuck, before)
  ]
