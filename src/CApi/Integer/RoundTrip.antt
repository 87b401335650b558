-- ===== src/CApi/Integer/RoundTrip.antt =====
-- `Integer` on the text of a number.
use livekit_server_cpp.CApi.Integer.{take_digits, from_digits, from_sign, stoll, integer_of}
use livekit_server_cpp.Common.Decimal.{digits_onto, decimal, decimal_int}
use livekit_server_cpp.Common.Int.{ℤ, pos, negsuc, neg_ℕ, IsInt64, fits_int64}
use livekit_server_cpp.Common.{
  ℕ, zero, suc, ◌+◌, ◌/◌, ◌%◌, ◌<◌, ◌≡◌, refl, sym, ap, ◌∙◌, arith, Bool, true, false, some, [],
  ◌∷◌, Bytes, if◌then◌else◌,
}
use livekit_server_cpp.Error.{ok}
use livekit_server_cpp.Webhook.Times.{is_digit, skip_spaces}
use livekit_server_cpp.Webhook.Times.Scan.{decimal-head}

take_digits-digits_onto :
    (f n : ℕ) (out : Bytes) → n < f → take_digits 0 (digits_onto f n out) ≡ take_digits n out
unfolding digits_onto take_digits
take_digits-digits_onto zero n out h = absurd (omega arith)
take_digits-digits_onto (suc f) n out h =
    ground (arith, take_digits-digits_onto f (n / 10) ((b'0' + n % 10) ∷ out))

pub take_digits-decimal : (n : ℕ) → take_digits 0 (decimal n) ≡ (n, [])
unfolding decimal take_digits
take_digits-decimal n = take_digits-digits_onto (suc n) n [] (omega arith)

from_digits-split :
    (negative : Bool) (c value : ℕ) (rest : Bytes)
    → is_digit c ≡ true
    → take_digits 0 (c ∷ rest) ≡ (value, [])
    → fits_int64 (if negative then neg_ℕ value else pos value) ≡ true
    → from_digits negative (c ∷ rest) ≡ some (if negative then neg_ℕ value else pos value, [])
unfolding from_digits
from_digits-split negative c value rest d e fits = rw (e, d, fits) refl

from_digits-decimal :
    (negative : Bool) (n : ℕ)
    → fits_int64 (if negative then neg_ℕ n else pos n) ≡ true
    → from_digits negative (decimal n) ≡ some (if negative then neg_ℕ n else pos n, [])
from_digits-decimal negative n fits =
    let (c, tail, e, d) = decimal-head n in
    ap (from_digits negative) e
    ∙ from_digits-split negative c n tail d (ap (take_digits 0) (sym e) ∙ take_digits-decimal n)
        fits

stoll-digit :
    (c : ℕ) (rest : Bytes) → is_digit c ≡ true → stoll (c ∷ rest) ≡ from_digits false (c ∷ rest)
unfolding stoll from_sign skip_spaces
stoll-digit c rest d = ground arith

pub stoll-decimal_int : (value : ℤ) → IsInt64 value → stoll (decimal_int value) ≡ some (value, [])
unfolding stoll from_sign skip_spaces decimal_int
stoll-decimal_int (pos n) h =
    let (c, tail, e, d) = decimal-head n in
    ap stoll e
    ∙ stoll-digit c tail d
    ∙ ap (from_digits false) (sym e)
    ∙ from_digits-decimal false n (ground arith)
stoll-decimal_int (negsuc n) h = from_digits-decimal true (suc n) (ground arith)

-- A number that fits an `std::int64_t` is read back from its decimal text, the least one too.
pub integer_of-decimal_int : (value : ℤ) → IsInt64 value → integer_of (decimal_int value) ≡ ok value
unfolding integer_of
integer_of-decimal_int value h = rw (stoll-decimal_int value h, integer_of) refl
