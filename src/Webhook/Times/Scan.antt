-- ===== src/Webhook/Times/Scan.antt =====
-- What `JsonIntegerField` finds.
use livekit_server_cpp.Common.{
  ℕ, zero, suc, ◌+◌, ◌-◌, ◌*◌, ◌/◌, ◌%◌, ◌≤◌, ◌<◌, ◌≡◌, refl, sym, ◌∙◌, arith, Bool, true, false,
  some, [], ◌∷◌, ◌++◌, Bytes, ltb, if◌then◌else◌, starts_with, Bool-cases, Option-cases, inl, inr,
}
use livekit_server_cpp.Common.Decimal.{digits_onto, decimal}
use livekit_server_cpp.Common.Int.{ℤ, pos, neg_ℕ, int64_max, IsInt64}
use livekit_server_cpp.Error.{ok, ◌>>=◌, bind-eq-ok}
use livekit_server_cpp.Webhook.Times.{
  after, is_digit, skip_spaces, read_digits, read_number, read_sign, json_integer_field,
}

-- The loop never passes `INT64_MAX`.
read_digits-le :
    (json : Bytes) (value result : ℕ)
    → value ≤ int64_max
    → read_digits value json ≡ ok result
    → result ≤ int64_max
unfolding read_digits
read_digits-le [] value result h e = ground arith
read_digits-le (c ∷ json) value result h e =
    ground (arith, read_digits-le json (value * 10 + (c - b'0')) result)

abbrev pub NoDigit : Bytes → Type 0
NoDigit [] = Unit {0}
NoDigit (c ∷ s) = is_digit c ≡ false

-- The first place of the marker is where it is written, if it does not begin before.
abbrev pub Lacks : Bytes → Bytes → Bytes → Type 0
Lacks marker [] rest = Unit {0}
Lacks marker (c ∷ before) rest =
    (starts_with (c ∷ (before ++ (marker ++ rest))) marker ≡ false) × Lacks marker before rest

signed : Bool → ℕ → ℤ
signed negative n = if negative then neg_ℕ n else pos n

signed-IsInt64 : (negative : Bool) (n : ℕ) → n ≤ int64_max → IsInt64 (signed negative n)
unfolding signed
signed-IsInt64 true zero h = omega arith
signed-IsInt64 true (suc n) h = omega arith
signed-IsInt64 false n h = omega arith

read_number-digit :
    (negative : Bool) (c : ℕ) (json : Bytes)
    → is_digit c ≡ true
    → read_number negative (c ∷ json)
      ≡ (read_digits 0 (c ∷ json) >>= λ n. ok (some (signed negative n)))
unfolding read_number signed
read_number-digit negative c json h = rw h refl

read_number-IsInt64 :
    (negative : Bool) (json : Bytes) (value : ℤ)
    → read_number negative json ≡ ok (some value)
    → IsInt64 value
unfolding read_number
read_number-IsInt64 negative [] value h = absurd (ground arith)
read_number-IsInt64 negative (c ∷ json) value h = elim (Bool-cases (is_digit c)) [
  | inr other ↦ absurd (ground arith)
  | inl digit ↦
      let (n, e, k) =
        bind-eq-ok (read_digits 0 (c ∷ json)) (λ n. ok (some (signed negative n)))
          (sym (read_number-digit negative c json digit) ∙ h) in
      let same : signed negative n ≡ value = ground arith in
      rw (← same) (signed-IsInt64 negative n (read_digits-le (c ∷ json) 0 n (omega arith) e))
]

read_sign-IsInt64 : (json : Bytes) (value : ℤ) → read_sign json ≡ ok (some value) → IsInt64 value
unfolding read_sign
read_sign-IsInt64 [] value h = read_number-IsInt64 false [] value h
read_sign-IsInt64 (c ∷ json) value h =
    ground (arith, read_number-IsInt64 true json value, read_number-IsInt64 false (c ∷ json) value)

digits_onto-head :
    (f n : ℕ) (out : Bytes)
    → n < f
    → (c : ℕ) × (tail : Bytes) × (digits_onto f n out ≡ c ∷ tail) × (is_digit c ≡ true)
unfolding digits_onto
digits_onto-head zero n out h = absurd (omega arith)
digits_onto-head (suc f) n out h = elim (Bool-cases (ltb n 10)) [
  | inl small ↦ (b'0' + n, out, ground arith, ground arith)
  | inr large ↦
      let (c, tail, e, d) = digits_onto-head f (n / 10) ((b'0' + n % 10) ∷ out) (ground arith) in
      (c, tail, ground arith, d)
]

pub decimal-head : (n : ℕ) → (c : ℕ) × (tail : Bytes) × (decimal n ≡ c ∷ tail) × (is_digit c ≡ true)
unfolding decimal
decimal-head n = digits_onto-head (suc n) n [] (omega arith)

-- A claim that is found fits an `std::int64_t`.
pub json_integer_field-IsInt64 :
    (json name : Bytes) (value : ℤ) → json_integer_field json name ≡ ok (some value) → IsInt64 value
unfolding json_integer_field
json_integer_field-IsInt64 json name value h =
    elim (Option-cases (after (b'"' ∷ (name ++ b'"' ∷ [])) json)) [
      | inl e ↦ absurd (ground arith)
      | inr (behind, e) ↦ elim (Option-cases (after (b':' ∷ []) behind)) [
        | inl e' ↦ absurd (ground arith)
        | inr (found, e') ↦ read_sign-IsInt64 (skip_spaces found) value (ground arith)
      ]
    ]
