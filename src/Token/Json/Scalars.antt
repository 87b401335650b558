-- ===== src/Token/Json/Scalars.antt =====
-- The reader on what the code writes for a number and a string.
use livekit_server_cpp.Common.{
  ℕ, zero, suc, ◌+◌, ◌/◌, ◌%◌, ◌≤◌, ◌<◌, ◌≡◌, refl, arith, true, false, some, [], ◌∷◌, ◌++◌,
  append_assoc, Bytes, ltb, length, length-append, Bool-cases, inl, inr,
}
use livekit_server_cpp.Common.Decimal.{digits_onto, decimal}
use livekit_server_cpp.Token.Json.Read.{
  is_digit, hex_value, read_code, read_string, read_digits, read_number, cons_fst,
}
use livekit_server_cpp.Token.{hex_digit, escape_byte, escape_json, quoted}

abbrev pub NoDigit : Bytes → Type 0
NoDigit [] = Unit {0}
NoDigit (c ∷ s) = is_digit c ≡ false

read_digits-digits_onto :
    (f n : ℕ) (out rest : Bytes)
    → n < f
    → read_digits 0 (digits_onto f n out ++ rest) ≡ read_digits n (out ++ rest)
unfolding digits_onto read_digits
read_digits-digits_onto zero n out rest h = absurd (omega arith)
read_digits-digits_onto (suc f) n out rest h =
    ground (arith, read_digits-digits_onto f (n / 10) ((b'0' + n % 10) ∷ out) rest)

abbrev pub StartsWithDigit : Bytes → Type 0
StartsWithDigit s = (c : ℕ) × (r : Bytes) × (s ≡ c ∷ r) × (is_digit c ≡ true)

digits_onto-StartsWithDigit :
    (f n : ℕ) (out : Bytes) → n < f → StartsWithDigit (digits_onto f n out)
unfolding digits_onto
digits_onto-StartsWithDigit zero n out h = absurd (omega arith)
digits_onto-StartsWithDigit (suc f) n out h = elim (Bool-cases (ltb n 10)) [
  | inl e ↦ (b'0' + n, out, ground arith, ground arith)
  | inr e ↦
      rw (e, digits_onto)
        (digits_onto-StartsWithDigit f (n / 10) ((b'0' + n % 10) ∷ out) (ground arith))
]

read_digits_stop : (n : ℕ) (rest : Bytes) → NoDigit rest → read_digits n rest ≡ (n, rest)
unfolding read_digits
read_digits_stop n [] h = refl
read_digits_stop n (c ∷ rest) h = rw (h, read_digits)

pub decimal-StartsWithDigit : (n : ℕ) → StartsWithDigit (decimal n)
unfolding decimal
decimal-StartsWithDigit n = digits_onto-StartsWithDigit (suc n) n [] (omega arith)

pub read_number-decimal :
    (n : ℕ) (rest : Bytes) → NoDigit rest → read_number (decimal n ++ rest) ≡ some (n, rest)
read_number-decimal n rest h =
    let (c, r, e, d) = decimal-StartsWithDigit n in
    rw e (unfold read_number in ground (arith, counted, read_digits_stop n rest h))
  where
    counted : read_digits 0 (decimal n ++ rest) ≡ read_digits n rest
    counted = unfold decimal in read_digits-digits_onto (suc n) n [] rest (omega arith)

hex_value-hex_digit : (d : ℕ) → d < 16 → hex_value (hex_digit d) ≡ some d
hex_value-hex_digit d h = ground arith

read_code_control :
    (ch : ℕ) (s : Bytes)
    → ch < 0x20
    → read_code (b'0' ∷ b'0' ∷ hex_digit (ch / 16) ∷ hex_digit (ch % 16) ∷ s) ≡ some (ch, s)
unfolding read_code
read_code_control ch s h =
    rw (hex_value-hex_digit (ch / 16) (omega arith), hex_value-hex_digit (ch % 16) (omega arith))
      (ground arith)

read_string-escape_byte :
    (f ch : ℕ) (s : Bytes)
    → read_string (suc f) (escape_byte ch ++ s) ≡ cons_fst ch (read_string f s)
unfolding escape_byte read_string
read_string-escape_byte f ch s = ground (arith, read_code_control ch s)

-- A string is read back up to its closing quote.
pub read_string-escape_json :
    (f : ℕ) (text rest : Bytes)
    → length text < f
    → read_string f (escape_json text ++ b'"' ∷ rest) ≡ some (text, rest)
unfolding escape_json
read_string-escape_json zero text rest h = absurd (omega arith)
read_string-escape_json (suc f) [] rest h = unfold read_string in refl
read_string-escape_json (suc f) (ch ∷ text) rest h =
    rw (append_assoc, read_string-escape_byte, read_string-escape_json f text rest (omega arith))

pub length-escape_json : (text : Bytes) → length text ≤ length (escape_json text)
unfolding escape_json escape_byte
length-escape_json [] = omega arith
length-escape_json (c ∷ text) =
    ground (arith, length-append (escape_byte c) (escape_json text), length-escape_json text)

pub quoted-reads :
    (f : ℕ) (text rest : Bytes)
    → length (quoted (escape_json text)) ≤ f
    → read_string f ((escape_json text ++ b'"' ∷ []) ++ rest) ≡ some (text, rest)
quoted-reads f text rest h = rw append_assoc (
    read_string-escape_json f text rest
      (omega (arith, length-escape_json text, length-append (escape_json text) (b'"' ∷ []))))
