-- ===== src/CApi/Invoke/Answer.antt =====
-- What an invocation returns.
use livekit_server_cpp.CApi.Fields.{encode}
use livekit_server_cpp.CApi.Host.{Callback}
use livekit_server_cpp.CApi.Invoke.{
  Linked, Output, no_output, envelope, or_null, caught, invoke_value, copy_text, copy, lks_invoke,
}
use livekit_server_cpp.CApi.Options.{failure}
use livekit_server_cpp.Common.{
  ◌+◌, ◌≡◌, ◌⊎◌, refl, true, false, Option, none, some, [], ◌∷◌, ◌++◌, Bytes, length, Bool-cases,
  inl, inr,
}
use livekit_server_cpp.Error.{Result, ok, throw, undefined}
use livekit_server_cpp.Http.{World, after_result, lift}
use livekit_server_cpp.Struct.{Value, Struct}

module _ (linked : Linked) (callback : Callback) where
  -- The text of a response in a block that a zero byte ends, with its length; or a null pointer and
  -- length 0, exactly where the response has no text or there is no memory for it.
  abbrev pub Answers : Struct → Output → Type 0
  Answers response output =
      ((linked.json.from_struct response ≡ none) × (output ≡ no_output))
      ⊎ ((content : Bytes) × (linked.json.from_struct response ≡ some content)
          × (((linked.malloc (length content + 1) ≡ false) × (output ≡ no_output))
              ⊎ ((linked.malloc (length content + 1) ≡ true)
                  × (output ≡ record {
                    block = some (content ++ 0 ∷ []);
                    output_length = length content;
                  }))))

  copy-Answers :
      (response : Struct)
      → (output : Output) × (or_null (copy linked callback response) ≡ ok output)
        × Answers response output
  unfolding or_null copy encode copy_text
  copy-Answers response = go (linked.json.from_struct response) refl
    where
      go :
          (converted : Option Bytes)
          → linked.json.from_struct response ≡ converted
          → (output : Output) × (or_null (copy linked callback response) ≡ ok output)
            × Answers response output
      go none e = (no_output, rw (e, or_null, copy, encode) refl, inl (e, refl))
      go (some content) e = elim (Bool-cases (linked.malloc (length content + 1))) [
        | inl f ↦
            (_, rw (e, f, or_null, copy, encode, copy_text) refl, inr (content, e, inr (f, refl)))
        | inr f ↦ (
          no_output,
          rw (e, f, or_null, copy, encode, copy_text) refl,
          inr (content, e, inl (f, refl)),
        )
      ]

  -- How an invocation ends, from how `Execute` ended: on undefined behaviour, or with an output that
  -- answers the value or the error.
  abbrev pub Ends : Result Value → Result Output → Type 0
  Ends outcome result =
      ((outcome ≡ undefined) × (result ≡ undefined))
      ⊎ ((response : Struct) × (output : Output) × (envelope outcome ≡ ok response)
          × (result ≡ ok output)
          × Answers response output)

  -- No C++ exception leaves `lks_invoke`: unless the behaviour of `Execute` is undefined, the
  -- invocation returns the JSON text of the value under "value" with "ok": true, or of the error with
  -- "ok": false, in a block that a zero byte ends, and stores the length of the text; or a null pointer,
  -- exactly where protobuf does not print that object or `malloc` has no memory, and then the length is 0.
  pub lks_invoke-Ends :
      (input : Option Bytes) (world : World)
      → Ends (invoke_value linked callback input world).0 (lks_invoke linked callback input world).0
  unfolding lks_invoke caught envelope or_null
  lks_invoke-Ends input world = go (invoke_value linked callback input world).0
    where
      go :
          (outcome : Result Value)
          → Ends outcome (
              or_null
                (after_result
                  (λ response. lift (copy linked callback response))
                  (envelope outcome, (invoke_value linked callback input world).1)).0)
      go (ok value) = let (output, e, a) = copy-Answers _ in inr (_, output, refl, e, a)
      go (throw error) =
          let (output, e, a) = copy-Answers (failure error) in
          inr (failure error, output, refl, e, a)
      go undefined = inl (refl, refl)
