-- ===== src/Webhook/Times.antt =====
-- src/webhook_receiver.cpp: `JsonIntegerField`, which looks for a time claim in the text itself. A
-- position in the text is the suffix that begins there.
pub mod Scan
use livekit_server_cpp.Common.{
  ℕ, ◌+◌, ◌-◌, ◌*◌, ◌/◌, Bool, true, false, not, ◌&&◌, ◌||◌, Option, none, some, [], ◌∷◌, ◌++◌,
  Bytes, leb, ltb, ◌==◌, if◌then◌else◌, length, drop, is_empty, starts_with,
}
use livekit_server_cpp.Common.Int.{ℤ, pos, neg_ℕ, int64_max}
use livekit_server_cpp.Error.{ErrorCode, Result, ok, fail, ◌>>=◌}

-- What follows the first place of `marker`: `find`, then `position + marker.size()`.
unfoldable pub after : Bytes → Bytes → Option Bytes
after marker [] = if is_empty marker then some [] else none
after marker (c ∷ json) = elim (starts_with (c ∷ json) marker) [
  | true ↦ some (drop (length marker) (c ∷ json))
  | false ↦ after marker json
]

-- `std::isspace` and `std::isdigit` in the C locale.
abbrev pub is_space : ℕ → Bool
is_space c = c == b' ' || leb 9 c && leb c 13

abbrev pub is_digit : ℕ → Bool
is_digit c = leb b'0' c && leb c b'9'

unfoldable pub skip_spaces : Bytes → Bytes
skip_spaces [] = []
skip_spaces (c ∷ json) = if is_space c then skip_spaces json else c ∷ json

-- The loop over the digits. `value` is a `std::int64_t` that never is negative.
unfoldable pub read_digits : ℕ → Bytes → Result ℕ
read_digits value [] = ok value
read_digits value (c ∷ json) = elim (is_digit c) [
  | true ↦ elim (ltb ((int64_max - (c - b'0')) / 10) value) [
    | true ↦ fail ErrorCode.authentication "webhook JWT time claim is too large"
    | false ↦ read_digits (value * 10 + (c - b'0')) json
  ]
  | false ↦ ok value
]

-- From the first digit on.
unfoldable pub read_number : Bool → Bytes → Result (Option ℤ)
read_number negative [] = fail ErrorCode.authentication "webhook JWT time claim is invalid"
read_number negative (c ∷ json) =
    if not (is_digit c)
    then fail ErrorCode.authentication "webhook JWT time claim is invalid"
    else read_digits 0 (c ∷ json) >>= λ value.
        ok (some (if negative then neg_ℕ value else pos value))

-- From the sign on.
unfoldable pub read_sign : Bytes → Result (Option ℤ)
unfolding read_number
read_sign [] = read_number false []
read_sign (c ∷ json) = if c == b'-' then read_number true json else read_number false (c ∷ json)

-- `JsonIntegerField`.
unfoldable pub json_integer_field : Bytes → Bytes → Result (Option ℤ)
unfolding read_sign
json_integer_field json name = elim (after (b'"' ∷ (name ++ b'"' ∷ [])) json) [
  | none ↦ ok none
  | some behind ↦ elim (after (b':' ∷ []) behind) [
    | none ↦ fail ErrorCode.authentication "webhook JWT contains invalid JSON"
    | some value ↦ read_sign (skip_spaces value)
  ]
]
