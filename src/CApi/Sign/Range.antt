-- ===== src/CApi/Sign/Range.antt =====
-- The test of `Sign` is enough for its arithmetic on 64-bit integers, and what it signs then.
use native.Mathlib.Nat.{le-div_iff_mul-le, mul-div_cancel, div-le_self}
use livekit_server_cpp.CApi.Integer.{integer_field}
use livekit_server_cpp.CApi.Sign.Defined.{
  then_undefined, ok-undefined, named_token-undefined, grants-undefined, grants-valid_for,
  integer_field-undefined,
}
use livekit_server_cpp.CApi.Sign.{grants, named_token, is_out_of_range, time_point, sign}
use livekit_server_cpp.Common.Int.{ℤ, pos, ◌+ℤ◌, ◌-ℤ◌, ◌<ℤ◌, leb_ℤ, int64_max, trunc_div, scale}
use livekit_server_cpp.Common.{
  ℕ, ◌+◌, ◌*◌, ◌/◌, ◌≤◌, ◌<◌, ◌≡◌, ◌≢◌, refl, sym, ap, ◌∙◌, arith, false, Bytes,
}
use livekit_server_cpp.Crypto.{Evp, hmac_sha256}
use livekit_server_cpp.Error.{
  ok, ◌>>=◌, undefined, ok-injective, bind-eq-ok, throw_if, throw_if-eq-ok, throw_if-bind-eq-ok,
  bind-undefined, throw_if-undefined,
}
use livekit_server_cpp.Struct.{Struct}
use livekit_server_cpp.Token.Access.{AccessToken, add_int64, to_jwt, set_valid_for}

module _ (d : ℕ) (positive : 0 < d) where
  -- What the test leaves.
  record IsInRange (now ttl : ℤ) : Type 0 where
    start : ℕ
    life : ℕ
    is_start : now ≡ pos start
    is_life : ttl ≡ pos life
    lasts : 0 < life
    ends : start + life ≤ int64_max / d

  is_out_of_range-IsInRange : (now ttl : ℤ) → is_out_of_range d now ttl ≡ false → IsInRange now ttl
  unfolding is_out_of_range ◌-ℤ◌
  is_out_of_range-IsInRange (pos n) (pos m) h = record {
    start = n;
    life = m;
    is_start = refl;
    is_life = refl;
    lasts = ground arith;
    ends = ground arith;
  }
  is_out_of_range-IsInRange (pos n) (ℤ.negsuc m) h = absurd (ground arith)
  is_out_of_range-IsInRange (ℤ.negsuc n) ttl h = absurd (ground arith)

  module _ (now ttl : ℤ) (range : IsInRange now ttl) where
    time_point_lem : time_point d now ≡ ok (scale now d)
    unfolding time_point
    time_point_lem =
        let fits : range.start * d ≤ int64_max =
          (le-div_iff_mul-le positive).0 (omega (arith, range.ends)) in
        rw (range.is_start) (ground arith)

    trunc_div-scale : trunc_div (scale now d) d ≡ now
    trunc_div-scale = rw (range.is_start) (ap pos (mul-div_cancel range.start positive))

    add_int64_lem : add_int64 now ttl ≡ ok (now +ℤ ttl)
    unfolding add_int64 ◌+ℤ◌
    add_int64_lem =
        let fits = div-le_self int64_max d in
        let ends = range.ends in rw (range.is_start, range.is_life) (ground arith)

set_valid_for-undefined : (ttl : ℤ) (token : AccessToken) → set_valid_for ttl token ≢ undefined
unfolding set_valid_for
set_valid_for-undefined ttl token =
    bind-undefined (throw_if (leb_ℤ ttl (pos 0)) _ _) _ (throw_if-undefined _ _ _)
      (λ u e. ok-undefined _)

set_valid_for-valid_for :
    (ttl : ℤ) (token timed : AccessToken)
    → set_valid_for ttl token ≡ ok timed
    → timed.valid_for ≡ ttl
unfolding set_valid_for
set_valid_for-valid_for ttl token timed h =
    let (t, k) = throw_if-bind-eq-ok (leb_ℤ ttl (pos 0)) _ _ _ h in
    sym (ap (λ t. t.valid_for) (ok-injective k))

hmac_sha256-undefined :
    (evp : Evp) (secret value : Bytes) → hmac_sha256 evp secret value ≢ undefined
unfolding hmac_sha256
hmac_sha256-undefined evp secret value = ground arith

module _ (evp : Evp) (d : ℕ) (positive : 0 < d) where
  to_jwt-undefined :
      (token : AccessToken) (now issued ttl : ℤ)
      → trunc_div issued d ≡ now
      → token.valid_for ≡ ttl
      → add_int64 now ttl ≡ ok (now +ℤ ttl)
      → to_jwt evp d token issued ≢ undefined
  unfolding to_jwt
  to_jwt-undefined token now issued ttl e f sum =
      let fits : add_int64 (trunc_div issued d) token.valid_for ≢ undefined =
        rw (e, f, sum) (ok-undefined _) in
      search (fits, then_undefined, throw_if-undefined, hmac_sha256-undefined, ok-undefined) depth
        10

  granted-undefined :
      (options : Struct) (timed : AccessToken) (now ttl : ℤ)
      → IsInRange d positive now ttl
      → timed.valid_for ≡ ttl
      → (grants options timed >>= λ granted. time_point d now >>= to_jwt evp d granted) ≢ undefined
  granted-undefined options timed now ttl range lasts =
      bind-undefined (grants options timed) _ (grants-undefined options timed) (λ granted e.
        rw (time_point_lem d positive now ttl range) (
          to_jwt-undefined granted now (scale now d) ttl (trunc_div-scale d positive now ttl range)
            (grants-valid_for options timed granted e ∙ lasts)
            (add_int64_lem d positive now ttl range)))

  -- Whatever the options, `Sign` returns a token or throws: none of its sums and conversions of
  -- 64-bit integers overflows, if a second is at least one tick of the clock.
  pub sign-undefined : (options : Struct) → sign evp d options ≢ undefined
  unfolding sign
  sign-undefined options =
      bind-undefined (named_token options) _ (named_token-undefined options) (λ token e.
        bind-undefined (integer_field options "valid_for") _ (integer_field-undefined options _)
          (λ ttl e₁.
            bind-undefined (integer_field options "now") _ (integer_field-undefined options _)
              (λ now e₂.
                bind-undefined (throw_if (is_out_of_range d now ttl) _ _) _
                  (throw_if-undefined _ _ _)
                  (λ u e₃.
                    bind-undefined (set_valid_for ttl token) _ (set_valid_for-undefined ttl token)
                      (λ timed e₄.
                        granted-undefined options timed now ttl
                          (is_out_of_range-IsInRange d positive now ttl (throw_if-eq-ok _ _ _ e₃))
                          (set_valid_for-valid_for ttl token timed e₄))))))

  -- The token that is signed, its time and its lifetime, which the options give.
  pub record IsSignedFor (options : Struct) (jwt : Bytes) : Type 0 where
    pub token : AccessToken
    pub now : ℤ
    pub ttl : ℤ
    pub reads_now : integer_field options "now" ≡ ok now
    pub reads_ttl : integer_field options "valid_for" ≡ ok ttl
    pub lasts : token.valid_for ≡ ttl
    pub positive_ttl : pos 0 <ℤ ttl
    pub signs : to_jwt evp d token (scale now d) ≡ ok jwt
    pub issued : trunc_div (scale now d) d ≡ now
    pub expires : add_int64 now ttl ≡ ok (now +ℤ ttl)

  -- A token that `Sign` returns is what `ToJwt` makes of a token with the lifetime of the options, which
  -- is positive, at the second of the options: it is issued at that second, without rounding, and
  -- expires the lifetime later, without overflow, if a second is at least one tick of the clock.
  pub sign-IsSignedFor :
      (options : Struct) (jwt : Bytes) → sign evp d options ≡ ok jwt → IsSignedFor options jwt
  unfolding sign
  sign-IsSignedFor options jwt h =
      let (token, e₁, h₁) = bind-eq-ok (named_token options) _ h in
      let (ttl, e₂, h₂) = bind-eq-ok (integer_field options "valid_for") _ h₁ in
      let (now, e₃, h₃) = bind-eq-ok (integer_field options "now") _ h₂ in
      let (t, h₄) = throw_if-bind-eq-ok (is_out_of_range d now ttl) _ _ _ h₃ in
      let (timed, e₅, h₅) = bind-eq-ok (set_valid_for ttl token) _ h₄ in
      let (granted, e₆, h₆) = bind-eq-ok (grants options timed) _ h₅ in
      let (issued, e₇, h₇) = bind-eq-ok (time_point d now) _ h₆ in
      let range = is_out_of_range-IsInRange d positive now ttl t in
      let tick : issued ≡ scale now d =
        ok-injective (sym e₇ ∙ time_point_lem d positive now ttl range) in
      record {
        token = granted;
        now = now;
        ttl = ttl;
        reads_now = e₃;
        reads_ttl = e₂;
        lasts =
            grants-valid_for options timed granted e₆ ∙ set_valid_for-valid_for ttl token timed e₅;
        positive_ttl = ground (arith, range.is_life, range.lasts);
        signs = ap (to_jwt evp d granted) (sym tick) ∙ h₇;
        issued = trunc_div-scale d positive now ttl range;
        expires = add_int64_lem d positive now ttl range;
      }
