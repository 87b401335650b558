-- ===== src/CApi/Integer.antt =====
-- src/c_api.cpp: `Integer`, and `std::stoll` in base ten, which it calls.
pub mod RoundTrip
use Prim.Native.String.{String}
use livekit_server_cpp.CApi.Fields.{string_field}
use livekit_server_cpp.Common.{
  ℕ, ◌+◌, ◌-◌, ◌*◌, Bool, true, false, not, Option, none, some, [], ◌∷◌, Bytes, ◌==◌, if◌then◌else◌,
}
use livekit_server_cpp.Common.Int.{ℤ, pos, neg_ℕ, fits_int64}
use livekit_server_cpp.Error.{ErrorCode, Result, ok, fail, ◌>>=◌}
use livekit_server_cpp.Struct.{Struct}
use livekit_server_cpp.Webhook.Times.{is_digit, skip_spaces}

-- The value of the digits, and what follows them.
unfoldable pub take_digits : ℕ → Bytes → ℕ × Bytes
take_digits value [] = (value, [])
take_digits value (c ∷ rest) = elim (is_digit c) [
  | true ↦ take_digits (value * 10 + (c - b'0')) rest
  | false ↦ (value, c ∷ rest)
]

-- `none` stands for an exception: no digit, or a value out of range.
unfoldable pub from_digits : Bool → Bytes → Option (ℤ × Bytes)
from_digits negative [] = none
from_digits negative (c ∷ rest) =
    let (value, behind) = take_digits 0 (c ∷ rest) in
    let signed = if negative then neg_ℕ value else pos value in
    if not (is_digit c) then none else (if fits_int64 signed then some (signed, behind) else none)

unfoldable pub from_sign : Bytes → Option (ℤ × Bytes)
unfolding from_digits
from_sign [] = none
from_sign (c ∷ rest) =
    if c == b'-'
    then from_digits true rest
    else (if c == b'+' then from_digits false rest else from_digits false (c ∷ rest))

-- `std::stoll`: the value and the text behind it.
unfoldable pub stoll : Bytes → Option (ℤ × Bytes)
stoll content = from_sign (skip_spaces content)

-- A text that is one number.
unfoldable pub integer_of : Bytes → Result ℤ
integer_of content = elim (stoll content) [
  | some (value, []) ↦ ok value
  | _ ↦ fail ErrorCode.invalid_argument "invalid integer in C ABI options"
]

-- `Integer`.
unfoldable pub integer_field : Struct → String → Result ℤ
integer_field object name = string_field object name >>= integer_of
