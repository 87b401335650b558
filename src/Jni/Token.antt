-- ===== src/Jni/Token.antt =====
-- The native method `token`, by what `Sign` does with the options of Java.
use livekit_server_cpp.CApi.Invoke.{Linked}
use livekit_server_cpp.Common.Int.{int_max}
use livekit_server_cpp.Common.{◌≡◌, ◌⊎◌, ◌<◌, refl, Option, some, Bytes, codes, ◌≤◌, length, Option}
use livekit_server_cpp.Error.{ErrorCode, plain_error, Result, ok, throw, undefined}
use livekit_server_cpp.Http.{World}
use livekit_server_cpp.Jni.Call.{raise}
use livekit_server_cpp.Jni.Exchange.{CallbackContext}
use livekit_server_cpp.Jni.Invoke.{invoke, invoke_content}
use livekit_server_cpp.Jni.Machine.{
  Native, returned, thrown, stuck, refused, native, ◌>>=◌, Jvm, to_array,
}
use livekit_server_cpp.Jni.Relay.{encode_json-some}
use livekit_server_cpp.Jni.Response.{exception_of}
use livekit_server_cpp.Jni.{LiveKitException}
use livekit_server_cpp.Struct.{Struct}

-- What becomes of the outcome of `Sign`.
abbrev pub token_result : Jvm → Result Bytes → Native (Option Bytes)
token_result jvm outcome =
    native outcome >>= λ jwt. to_array jvm jwt >>= λ content. returned (some content)

module _ (jvm : Jvm) (linked : Linked) where
  pub invoke-printed :
      (context : CallbackContext jvm) (object : Struct) (content : Bytes) (world : World)
      → linked.json.from_struct object ≡ some content
      → invoke jvm linked context object world ≡ invoke_content jvm linked context content world
  unfolding invoke
  invoke-printed context object content world printed =
      rw (encode_json-some linked.json object content printed, invoke) refl

  -- The Java machine makes an exception of an error, if arrays of Java hold its texts.
  abbrev pub Raises : Type 0
  Raises =
      (error : LiveKitException)
      → length error.message ≤ int_max
      → length error.twirp_code ≤ int_max
      → raise jvm linked error ≡ returned tt

  -- What Java gets for the outcome of `Sign`: the token, or the exception of the error. A token beyond
  -- the size of an array of Java is an error too, and of an error with a text beyond it nothing is said.
  abbrev pub JavaGets : Result Bytes → Native (Option Bytes) → Type 0
  JavaGets (ok jwt) result =
      ((length jwt ≤ int_max) × (result ≡ returned (some jwt)))
      ⊎ ((int_max < length jwt)
          × (result ≡ refused ErrorCode.invalid_argument "native result exceeds Java array size"))
  JavaGets (throw error) result =
      (result ≡ thrown (exception_of error))
      ⊎ (int_max < length error.message)
      ⊎ (int_max < length error.twirp_code)
  JavaGets undefined result = result ≡ stuck

  abbrev too_large : LiveKitException
  too_large =
      exception_of
        (plain_error ErrorCode.invalid_argument (codes "native result exceeds Java array size"))
