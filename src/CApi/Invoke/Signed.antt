-- ===== src/CApi/Invoke/Signed.antt =====
-- The operation that signs a token, by what `Sign` does with its options.
use livekit_server_cpp.CApi.Fields.{text, string_field, object_field, parse, encode}
use livekit_server_cpp.CApi.Host.{Callback}
use livekit_server_cpp.CApi.Invoke.{
  Linked, check_length, execute_sign, execute_operation, execute, invoke_value, lks_invoke, caught,
  envelope, copy, copy_text, or_null,
}
use livekit_server_cpp.CApi.Sign.{sign}
use livekit_server_cpp.Common.Lists.{equal}
use livekit_server_cpp.Common.{◌≡◌, refl, some, Bytes, codes, ◌≤◌, length, arith, leb, true}
use livekit_server_cpp.Common.Int.{int_max}
use livekit_server_cpp.Error.{Result, ok, throw, undefined}
use livekit_server_cpp.Http.{World, lift, ◌>>=◌, done}
use livekit_server_cpp.Struct.{Value, Struct}

-- The token as a value.
abbrev pub signed_value : Result Bytes → Result Value
signed_value (ok jwt) = ok (text jwt)
signed_value (throw error) = throw error
signed_value undefined = undefined

module _ (linked : Linked) (callback : Callback) where
  execute_sign_lem :
      (options : Struct) (world : World)
      → execute_sign linked callback options world
        ≡ (signed_value (sign linked.machine.evp linked.machine.ticks_per_second options), world)
  unfolding execute_sign
  execute_sign_lem options world =
      go (sign linked.machine.evp linked.machine.ticks_per_second options)
    where
      go :
          (outcome : Result Bytes)
          → (lift outcome >>= λ jwt. done (text jwt)) world ≡ (signed_value outcome, world)
      go (ok jwt) = refl
      go (throw error) = refl
      go undefined = refl

  pub invoke_value-sign :
      (input : Bytes) (object options : Struct) (world : World)
      → length input ≤ int_max
      → parse linked.json input ≡ ok object
      → string_field object "operation" ≡ ok (codes "token")
      → object_field object "options" ≡ ok options
      → invoke_value linked callback (some input) world
        ≡ (signed_value (sign linked.machine.evp linked.machine.ticks_per_second options), world)
  unfolding invoke_value check_length execute execute_operation equal
  invoke_value-sign input object options world short parsed token given =
      let small : leb (length input) int_max ≡ true = ground arith in
      rw (small, parsed, token, given) (execute_sign_lem options world)

  encode-printed :
      (response : Struct) (content : Bytes)
      → linked.json.from_struct response ≡ some content
      → encode linked.json response ≡ ok content
  unfolding encode
  encode-printed response content printed = rw (printed, encode) refl

  copy-printed :
      (response : Struct) (content : Bytes)
      → linked.json.from_struct response ≡ some content
      → copy linked callback response ≡ ok (copy_text linked callback content)
  unfolding copy
  copy-printed response content printed = rw (encode-printed response content printed, copy) refl

  -- Where the JSON text of the outcome is at hand and there is memory for it, that text is returned.
  pub lks_invoke-sign :
      (input : Bytes) (object options response : Struct) (content : Bytes) (world : World)
      → length input ≤ int_max
      → parse linked.json input ≡ ok object
      → string_field object "operation" ≡ ok (codes "token")
      → object_field object "options" ≡ ok options
      → envelope (signed_value (sign linked.machine.evp linked.machine.ticks_per_second options))
        ≡ ok response
      → linked.json.from_struct response ≡ some content
      → lks_invoke linked callback (some input) world
        ≡ (ok (copy_text linked callback content), world)
  unfolding lks_invoke caught or_null
  lks_invoke-sign input object options response content world short parsed token given ended
        printed =
      rw
        (
          invoke_value-sign input object options world short parsed token given,
          ended,
          copy-printed response content printed,
        )
        refl
