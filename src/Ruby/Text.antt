-- ===== src/Ruby/Text.antt =====
-- What the Ruby gem reads at the pointer that it gets, without a length.
mod Runs
use livekit_server_cpp.CApi.Invoke.{Linked, Output, no_output, envelope, invoke_value, lks_invoke}
use livekit_server_cpp.CApi.Invoke.Answer.{Answers, Ends, lks_invoke-Ends}
use livekit_server_cpp.Common.{
  ℕ, ◌≡◌, ◌⊎◌, inl, inr, refl, sym, ap, ◌∙◌, arith, true, false, Bool-cases, Option, none, some, [],
  ◌∷◌, ◌++◌, ◌==◌, Bytes, length,
}
use livekit_server_cpp.Curl.Lines.{has_byte}
use livekit_server_cpp.Error.{Result, ok, throw, undefined, ok-injective}
use livekit_server_cpp.Http.{World, ◌>>=◌, done, action-eq-ok}
use livekit_server_cpp.Ruby.{c_text, RubyCallback, ruby_host, lks_ruby_invoke}
use livekit_server_cpp.Struct.{Struct, JsonLibrary}

c_text-end :
    (content : Bytes) → has_byte 0 content ≡ false → c_text (content ++ 0 ∷ []) ≡ some content
unfolding c_text has_byte
c_text-end [] h = refl
c_text-end (c ∷ content) h =
    let rest : has_byte 0 content ≡ false = ground arith in ground (arith, c_text-end content rest)

-- The texts that the library prints hold no zero byte.
abbrev pub HasNoZero : JsonLibrary → Type 0
HasNoZero json =
    (object : Struct) (content : Bytes)
    → json.from_struct object ≡ some content
    → has_byte 0 content ≡ false

module _ (linked : Linked) (input : Option Bytes) (callback : Option RubyCallback)
    (world : World) where
  -- A response of `Execute`, and the text of it that is read.
  abbrev pub IsTextOf : Bytes → Type 0
  IsTextOf block =
      (response : Struct) × (content : Bytes) × (envelope
          (invoke_value linked (ruby_host callback) input world).0
        ≡ ok response)
      × (linked.json.from_struct response ≡ some content)
      × (c_text block ≡ some content)

  answered :
      (response : Struct) (output : Output) (block : Bytes)
      → HasNoZero linked.json
      → envelope (invoke_value linked (ruby_host callback) input world).0 ≡ ok response
      → Answers linked (ruby_host callback) response output
      → output.block ≡ some block
      → IsTextOf block
  answered response output block plain ended (inl (missing, e)) h =
      let nothing = ap (λ (o : Output). o.block) e in cc
  answered response output block plain ended (inr (content, printed, inl (full, e))) h =
      let nothing = ap (λ (o : Output). o.block) e in cc
  answered response output block plain ended (inr (content, printed, inr (memory, e))) h =
      let written = ap (λ (o : Output). o.block) e in
      let same : block ≡ content ++ 0 ∷ [] = cc in
      (
        response,
        content,
        ended,
        printed,
        ap c_text same ∙ c_text-end content (plain response content printed),
      )

  -- If the texts of the JSON library hold no zero byte, then a pointer that is not null leads to the
  -- whole JSON text of the value or the error with which `Execute` ended, and a zero byte ends it:
  -- Ruby needs no length.
  pub lks_ruby_invoke-IsTextOf :
      (block : Bytes) (later : World)
      → HasNoZero linked.json
      → lks_ruby_invoke linked input callback world ≡ (ok (some block), later)
      → IsTextOf block
  unfolding lks_ruby_invoke
  lks_ruby_invoke-IsTextOf block later plain h =
      let (output, between, e, stored) =
        action-eq-ok (lks_invoke linked (ruby_host callback) input) _ world h in
      let returned = ap (λ step. step.0) e in
      let held : output.block ≡ some block = ok-injective (ap (λ step. step.0) stored) in
      elim (lks_invoke-Ends linked (ruby_host callback) input world) [
        | inl (lost, result) ↦ cc
        | inr (response, output', ended, result, answers) ↦
            let same = ok-injective (sym returned ∙ result) in
            answered response output' block plain ended answers
              (ap (λ (o : Output). o.block) (sym same) ∙ held)
      ]
