-- ===== src/Webhook/Checks.antt =====
-- The checks of the times and of the body, as conditions.
use Prim.Native.String.{String}
use livekit_server_cpp.Struct.{Value, find_field}
use livekit_server_cpp.Common.{
  ◌-◌, ◌≡◌, ◌↔◌, refl, ap, ◌∙◌, arith, true, false, not, ◌||◌, Option, none, some, [], ◌∷◌, Bytes,
  IsBytes, codes, is_empty, inl, inr, Option-cases,
}
use livekit_server_cpp.Common.Int.{
  ℤ, pos, ◌<ℤ◌, IsInt64, int64_max, ◌≤ℤ◌, ◌+ℤ◌, fits_int64, trunc_div,
}
use livekit_server_cpp.Crypto.Compare.{constant_time_equal_iff}
use livekit_server_cpp.Crypto.Shape.{base64_encode-IsBytes, is_empty-base64_encode}
use livekit_server_cpp.Crypto.{base64_encode, constant_time_equal, sha256}
use livekit_server_cpp.Error.{ok, undefined, bind-eq-ok, throw_if-eq-ok}
use livekit_server_cpp.Token.Access.{add_int64}
use livekit_server_cpp.Webhook.Accept.{IsBackend}
use livekit_server_cpp.Webhook.Times.{json_integer_field}
use livekit_server_cpp.Webhook.{
  Backend, json_string_field, check_expiry, check_not_before, verify_times, verify_body,
  token_leeway,
}

-- Not after the expiry and the leeway, whose sum is an `int64_t`; always, where no expiry is set.
abbrev pub Unexpired : ℤ → Option ℤ → Type 0
Unexpired now none = Unit
Unexpired now (some expires) =
    (fits_int64 (expires +ℤ token_leeway) ≡ true) × (now ≤ℤ expires +ℤ token_leeway)

abbrev pub Begun : ℤ → Option ℤ → Type 0
Begun now none = Unit
Begun now (some not_before) =
    (fits_int64 (now +ℤ token_leeway) ≡ true) × (not_before ≤ℤ now +ℤ token_leeway)

check_expiry_iff : (now : ℤ) (o : Option ℤ) → (check_expiry now o ≡ ok tt) ↔ Unexpired now o
unfolding check_expiry add_int64
check_expiry_iff now none = (λ _. tt, λ _. refl)
check_expiry_iff now (some expires) = ground arith

-- The sum of the expiry and the leeway overflows an `int64_t`, which C++ leaves undefined, exactly
-- if the expiry is in the last minute of that type, though the claim was read without an error.
pub check_expiry-undefined :
    (now expires : ℤ)
    → IsInt64 expires
    → (check_expiry now (some expires) ≡ undefined) ↔ (pos (int64_max - 60) <ℤ expires)
unfolding check_expiry add_int64 ◌+ℤ◌
check_expiry-undefined now expires h = ground arith

check_not_before_iff : (now : ℤ) (o : Option ℤ) → (check_not_before now o ≡ ok tt) ↔ Begun now o
unfolding check_not_before add_int64
check_not_before_iff now none = (λ _. tt, λ _. refl)
check_not_before_iff now (some not_before) = ground arith

-- The time claims that the text shows admit the time.
pub record IsCurrent (claims : Bytes) (now : ℤ) : Type 0 where
  pub expires : Option ℤ
  pub not_before : Option ℤ
  pub shows_expiry : json_integer_field claims (codes "exp") ≡ ok expires
  pub shows_not_before : json_integer_field claims (codes "nbf") ≡ ok not_before
  pub unexpired : Unexpired now expires
  pub begun : Begun now not_before

pub verify_times_iff :
    (backend : Backend) (claims : Bytes) (now : ℤ)
    → (verify_times backend claims now ≡ ok tt)
      ↔ IsCurrent claims (trunc_div now backend.ticks_per_second)
unfolding verify_times
verify_times_iff backend claims now = (sound, complete)
  where
    now_seconds : ℤ
    now_seconds = trunc_div now backend.ticks_per_second

    sound : verify_times backend claims now ≡ ok tt → IsCurrent claims now_seconds
    sound h =
        let (expires, e₁, h₁) = bind-eq-ok (json_integer_field claims (codes "exp")) _ h in
        let (u, e₂, h₂) = bind-eq-ok (check_expiry now_seconds expires) _ h₁ in
        let (not_before, e₃, h₃) = bind-eq-ok (json_integer_field claims (codes "nbf")) _ h₂ in
        record {
          expires = expires;
          not_before = not_before;
          shows_expiry = e₁;
          shows_not_before = e₃;
          unexpired = (check_expiry_iff now_seconds expires).0 e₂;
          begun = (check_not_before_iff now_seconds not_before).0 h₃;
        }

    complete : IsCurrent claims now_seconds → verify_times backend claims now ≡ ok tt
    complete c = rw (
      c.shows_expiry,
      (check_expiry_iff now_seconds c.expires).1 c.unexpired,
      c.shows_not_before,
      (check_not_before_iff now_seconds c.not_before).1 c.begun,
    )

-- The claims hold the checksum of the body.
pub record MatchesBody (backend : Backend) (claims body : Bytes) : Type 0 where
  pub digest : Bytes
  pub digests : sha256 backend.evp body ≡ ok digest
  pub claimed : json_string_field backend.json claims "sha256" ≡ ok (base64_encode digest)

module _ (backend : Backend) (laws : IsBackend backend) where
  text_bytes :
      (json : Bytes) (name : String) {text : Bytes}
      → json_string_field backend.json json name ≡ ok text
      → IsBytes text
  unfolding json_string_field
  text_bytes json name {text} h = elim (Option-cases (backend.json.to_struct json)) [
    | inl e ↦ absurd (ground arith)
    | inr (object, e) ↦ elim (Option-cases (find_field (codes name) object)) [
      | inl e' ↦ let unset : [] ≡ text = ground arith in rw (← unset) tt
      | inr (Value.string t, e') ↦
          let same : t ≡ text = ground arith in
          rw (← same) (laws.text_bytes json (codes name) t object e e')
      | inr (Value.not_set, e') ↦ absurd (ground arith)
      | inr (Value.null, e') ↦ absurd (ground arith)
      | inr (Value.number n, e') ↦ absurd (ground arith)
      | inr (Value.bool b, e') ↦ absurd (ground arith)
      | inr (Value.struct o, e') ↦ absurd (ground arith)
      | inr (Value.list vs, e') ↦ absurd (ground arith)
    ]
  ]

  digest_set :
      (body : Bytes) {digest : Bytes}
      → sha256 backend.evp body ≡ ok digest
      → is_empty digest ≡ false
  unfolding sha256
  digest_set body {digest} h = elim (Option-cases (backend.evp.digest body)) [
    | inl e ↦ absurd (ground arith)
    | inr ([], e) ↦ absurd (ground arith)
    | inr (x ∷ out, e) ↦ ground arith
  ]

  pub verify_body_iff :
      (claims body : Bytes)
      → (verify_body backend claims body ≡ ok tt) ↔ MatchesBody backend claims body
  unfolding verify_body
  verify_body_iff claims body = (sound, complete)
    where
      sound : verify_body backend claims body ≡ ok tt → MatchesBody backend claims body
      sound h =
          let (claimed, e₁, h₁) = bind-eq-ok (json_string_field backend.json claims "sha256") _ h in
          let (digest, e₂, h₂) = bind-eq-ok (sha256 backend.evp body) _ h₁ in
          let t =
            throw_if-eq-ok
              (is_empty claimed || not (constant_time_equal claimed (base64_encode digest))) _ _
              h₂ in
          record {
            digest = digest;
            digests = e₂;
            claimed =
                e₁
                ∙ ap ok (
                    (constant_time_equal_iff claimed (base64_encode digest)
                        (text_bytes claims "sha256" e₁) (base64_encode-IsBytes digest)).0
                      (ground arith));
          }

      complete : MatchesBody backend claims body → verify_body backend claims body ≡ ok tt
      complete m =
          let b = base64_encode-IsBytes m.digest in
          rw (
            m.claimed,
            m.digests,
            is_empty-base64_encode m.digest (digest_set body m.digests),
            (constant_time_equal_iff (base64_encode m.digest) (base64_encode m.digest) b b).1 refl,
          )
