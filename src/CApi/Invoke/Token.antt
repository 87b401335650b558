-- ===== src/CApi/Invoke/Token.antt =====
-- The operation that signs a token: what its host is answered.
use livekit_server_cpp.CApi.Fields.{string_field, object_field, parse}
use livekit_server_cpp.CApi.Host.{Callback}
use livekit_server_cpp.CApi.Invoke.{
  Linked, Output, invoke_value, lks_invoke, caught, envelope, copy,
}
use livekit_server_cpp.CApi.Invoke.Answer.{Answers, lks_invoke-Ends}
use livekit_server_cpp.CApi.Invoke.Signed.{signed_value, invoke_value-sign}
use livekit_server_cpp.CApi.Sign.{sign}
use livekit_server_cpp.CApi.Sign.Range.{sign-undefined}
use livekit_server_cpp.Common.Int.{int_max}
use livekit_server_cpp.Common.{
  ◌<◌, ◌≤◌, ◌≡◌, ◌≢◌, sym, refl, Option, ap, ap₂, ◌∙◌, some, Bytes, codes, length, inl, inr,
}
use livekit_server_cpp.Error.{Result, ok, throw, undefined}
use livekit_server_cpp.Http.{World, lift, after_result}
use livekit_server_cpp.Struct.{Value, Struct}

signed_value-undefined :
    (signed : Result Bytes) → signed ≢ undefined → signed_value signed ≢ undefined
signed_value-undefined (ok jwt) defined = λ e. cc
signed_value-undefined (throw error) defined = λ e. cc
signed_value-undefined undefined defined = λ e. defined refl

module _ (linked : Linked) (callback : Callback) (positive : 0 < linked.machine.ticks_per_second)
    (world : World) where
  lks_invoke-world :
      (input : Option Bytes)
      → (lks_invoke linked callback input world).1 ≡ (invoke_value linked callback input world).1
  unfolding lks_invoke caught
  lks_invoke-world input = go (envelope (invoke_value linked callback input world).0)
    where
      later : World
      later = (invoke_value linked callback input world).1

      go :
          (response : Result Struct)
          → (after_result (λ response. lift (copy linked callback response)) (response, later)).1
            ≡ later
      go (ok response) = refl
      go (throw error) = refl
      go undefined = refl

  -- What `Sign` makes of the options: a token or an error.
  abbrev pub signed_of : Struct → Result Value
  signed_of options = signed_value (sign linked.machine.evp linked.machine.ticks_per_second options)

  -- A host that asks for a token, in an input whose length fits an `int` and with an object of
  -- options, is answered with what `Sign` makes of the options, if a second is at least one tick of
  -- the clock: the value under "value" or the error, as text with its length, and a null pointer only
  -- where protobuf prints no text or `malloc` has no memory. No request is sent, no clock read and no
  -- random number drawn.
  pub lks_invoke-token :
      (input : Bytes) (object options : Struct)
      → length input ≤ int_max
      → parse linked.json input ≡ ok object
      → string_field object "operation" ≡ ok (codes "token")
      → object_field object "options" ≡ ok options
      → (response : Struct) × (output : Output) × (envelope (signed_of options) ≡ ok response)
        × Answers linked callback response output
        × (lks_invoke linked callback (some input) world ≡ (ok output, world))
  lks_invoke-token input object options short parsed token given =
      let e =
        invoke_value-sign linked callback input object options world short parsed token given in
      let ended : (invoke_value linked callback (some input) world).0 ≡ signed_of options =
        ap (λ step. step.0) e in
      elim (lks_invoke-Ends linked callback (some input) world) [
        | inl (outcome, result) ↦ absurd (
            signed_value-undefined (sign linked.machine.evp linked.machine.ticks_per_second options)
              (sign-undefined linked.machine.evp linked.machine.ticks_per_second positive options)
              (sym ended ∙ outcome))
        | inr (response, output, enveloped, result, answers) ↦ (
          response,
          output,
          ap envelope (sym ended) ∙ enveloped,
          answers,
          ap₂ (λ result later. (result, later)) result
              (lks_invoke-world (some input) ∙ ap (λ step. step.1) e),
        )
      ]
