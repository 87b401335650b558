-- ===== src/Curl/Receive/RoundTrip.antt =====
-- A header line that `Send` writes, as `Header` reads it.
use livekit_server_cpp.Common.{
  ◌≡◌, refl, ap, ◌∙◌, arith, Bool, true, false, ◌&&◌, some, [], ◌∷◌, ◌++◌, append_assoc, Bytes,
  codes, is_empty,
}
use livekit_server_cpp.Curl.Lines.{has_byte, is_token_byte, is_token, header_line}
use livekit_server_cpp.Curl.Lines.Safe.{token_without}
use livekit_server_cpp.Curl.Receive.{
  is_blank, is_end_blank, trim_start, trim_end, split_colon, header_field,
}

-- Neither the first nor the last byte is blank.
abbrev pub starts_blank : Bytes → Bool
starts_blank [] = false
starts_blank (c ∷ value) = is_blank c

abbrev pub ends_blank : Bytes → Bool
ends_blank [] = false
ends_blank (c ∷ []) = is_end_blank c
ends_blank (c ∷ d ∷ value) = ends_blank (d ∷ value)

-- Only blanks and ends of lines.
abbrev pub all_end_blank : Bytes → Bool
all_end_blank [] = true
all_end_blank (c ∷ blanks) = is_end_blank c && all_end_blank blanks

abbrev pub all_blank : Bytes → Bool
all_blank [] = true
all_blank (c ∷ blanks) = is_blank c && all_blank blanks

trim_end-blanks : (blanks : Bytes) → all_end_blank blanks ≡ true → trim_end blanks ≡ []
unfolding trim_end
trim_end-blanks [] h = refl
trim_end-blanks (c ∷ blanks) h = ground (arith, trim_end-blanks blanks)

trim_end-append :
    (value blanks : Bytes)
    → ends_blank value ≡ false
    → all_end_blank blanks ≡ true
    → trim_end (value ++ blanks) ≡ value
unfolding trim_end
trim_end-append [] blanks h k = trim_end-blanks blanks k
trim_end-append (c ∷ []) blanks h k = ground (arith, trim_end-blanks blanks)
trim_end-append (c ∷ d ∷ value) blanks h k = ground (arith, trim_end-append (d ∷ value) blanks)

trim_start-append :
    (blanks value : Bytes)
    → all_blank blanks ≡ true
    → starts_blank value ≡ false
    → trim_start (blanks ++ value) ≡ value
unfolding trim_start
trim_start-append [] [] h k = refl
trim_start-append [] (c ∷ value) h k = ground arith
trim_start-append (c ∷ blanks) value h k = ground (arith, trim_start-append blanks value)

split_colon-append :
    (name rest : Bytes)
    → has_byte b':' name ≡ false
    → split_colon (name ++ (b':' ∷ rest)) ≡ some (name, rest)
unfolding split_colon has_byte
split_colon-append [] rest h = refl
split_colon-append (c ∷ name) rest h = ground (arith, split_colon-append name rest)

header_field-split :
    (line name value : Bytes)
    → split_colon line ≡ some (name, value)
    → header_field line ≡ some (name, trim_end (trim_start value))
unfolding header_field
header_field-split line name value h = ground arith

-- A line of a name without a colon, a colon, blanks, a value that no blanks surround, and blanks or
-- ends of lines is read as that name and that value. The value is not empty.
pub header_field-written :
    (name before value after : Bytes)
    → has_byte b':' name ≡ false
    → all_blank before ≡ true
    → starts_blank value ≡ false
    → ends_blank value ≡ false
    → is_empty value ≡ false
    → all_end_blank after ≡ true
    → header_field (name ++ (b':' ∷ (before ++ (value ++ after)))) ≡ some (name, value)
header_field-written name before [] after no_colon blank s e filled blanks = absurd (ground arith)
header_field-written name before (c ∷ value) after no_colon blank s e filled blanks =
    let text = (c ∷ value) ++ after in
    header_field-split (name ++ (b':' ∷ (before ++ text))) name (before ++ text)
      (split_colon-append name (before ++ text) no_colon)
    ∙ ap (λ value. some (name, trim_end value)) (trim_start-append before text blank s)
    ∙ ap (λ value. some (name, value)) (trim_end-append (c ∷ value) after e blanks)

-- `Header` reads the name and the value back from the line that `Send` writes, at its end a carriage
-- return and a line feed, if the name is a token and no blanks surround the value, which is not empty.
pub header_field-header_line :
    (name value : Bytes)
    → is_token name ≡ true
    → is_empty value ≡ false
    → starts_blank value ≡ false
    → ends_blank value ≡ false
    → header_field (header_line name value ++ (13 ∷ 10 ∷ [])) ≡ some (name, value)
unfolding header_line is_token is_token_byte has_byte
header_field-header_line name [] token filled s e = absurd (ground arith)
header_field-header_line name (c ∷ value) token filled s e =
    ap header_field (append_assoc name (codes ": " ++ (c ∷ value)) (13 ∷ 10 ∷ []))
    ∙ header_field-written name (codes " ") (c ∷ value) (13 ∷ 10 ∷ [])
        (token_without b':' name refl (ground arith)) refl s e filled refl
