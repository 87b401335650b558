-- ===== src/Curl/Lines/Safe.antt =====
-- No header can break out of its line.
use livekit_server_cpp.Common.{
  ℕ, ◌≡◌, refl, sym, ap, ◌∙◌, arith, true, false, not, List, [], ◌∷◌, ◌++◌, Bytes, codes, ◌==◌, All,
  Bool-cases, inl, inr,
}
use livekit_server_cpp.Curl.Lines.{
  has_byte, is_token_byte, all_token_bytes, is_token, header_line, is_header, header_lines,
}
use livekit_server_cpp.Error.{ok, bind-eq-ok, throw_if-bind-eq-ok, ok-injective}
use livekit_server_cpp.Http.{HttpHeaders}

-- Neither a line's end nor the end of a C string.
pub record IsSafe (line : Bytes) : Type 0 where
  pub no_nul : has_byte 0 line ≡ false
  pub no_feed : has_byte 10 line ≡ false
  pub no_return : has_byte 13 line ≡ false

has_byte-append :
    (byte : ℕ) (s t : Bytes)
    → has_byte byte s ≡ false
    → has_byte byte t ≡ false
    → has_byte byte (s ++ t) ≡ false
unfolding has_byte
has_byte-append byte [] t h k = k
has_byte-append byte (c ∷ s) t h k = ground (arith, has_byte-append byte s t)

pub token_without :
    (byte : ℕ) (value : Bytes)
    → is_token_byte byte ≡ false
    → all_token_bytes value ≡ true
    → has_byte byte value ≡ false
unfolding all_token_bytes has_byte
token_without byte [] h k = refl
token_without byte (c ∷ value) h k = elim (Bool-cases (c == byte)) [
  | inl e ↦
      let same : c ≡ byte = ground arith in
      let token : is_token_byte c ≡ true = ground arith in
      let clash = sym token ∙ ap is_token_byte same ∙ h in cc
  | inr e ↦ ground (arith, token_without byte value)
]

header_line_without :
    (byte : ℕ) (name value : Bytes)
    → is_token_byte byte ≡ false
    → has_byte byte (codes ";: ") ≡ false
    → is_token name ≡ true
    → has_byte byte value ≡ false
    → has_byte byte (header_line name value) ≡ false
unfolding header_line is_token has_byte
header_line_without byte name [] h p k l =
    has_byte-append byte name (codes ";") (token_without byte name h (ground arith)) (ground arith)
header_line_without byte name (c ∷ value) h p k l =
    has_byte-append byte name (codes ": " ++ (c ∷ value)) (token_without byte name h (ground arith))
      (ground (arith, has_byte-append byte (codes ": ") (c ∷ value)))

header_line-IsSafe :
    (name value : Bytes) → is_header name value ≡ true → IsSafe (header_line name value)
unfolding is_header is_token_byte has_byte
header_line-IsSafe name value h = record {
  no_nul = header_line_without 0 name value refl refl (ground arith) (ground arith);
  no_feed = header_line_without 10 name value refl refl (ground arith) (ground arith);
  no_return = header_line_without 13 name value refl refl (ground arith) (ground arith);
}

-- The lines that are handed to libcurl, one for each header, hold no end of a line and no NUL.
pub header_lines-IsSafe :
    (headers : HttpHeaders) (lines : List Bytes)
    → header_lines headers ≡ ok lines
    → All IsSafe lines
unfolding header_lines
header_lines-IsSafe [] lines h = rw (← ok-injective h) tt
header_lines-IsSafe ((name, value) ∷ headers) lines h =
    let (e, k) = throw_if-bind-eq-ok (not (is_header name value)) _ _ _ h in
    let (rest, e', k') = bind-eq-ok (header_lines headers) _ k in
    rw (← ok-injective k')
      (header_line-IsSafe name value (ground arith), header_lines-IsSafe headers rest e')
