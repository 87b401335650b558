-- ===== src/WinHttp/Key.antt =====
-- The keys of the connections tell servers apart.
use livekit_server_cpp.CApi.Integer.{take_digits}
use livekit_server_cpp.CApi.Integer.RoundTrip.{take_digits-decimal}
use livekit_server_cpp.Common.Decimal.{digits_onto, decimal}
use livekit_server_cpp.Common.{
  ℕ, zero, suc, ◌+◌, ◌/◌, ◌%◌, ◌≡◌, refl, sym, ap, ◌∙◌, arith, true, false, [], ◌∷◌, ◌++◌, Bytes,
}
use livekit_server_cpp.Curl.Lines.{has_byte}
use livekit_server_cpp.WinHttp.Connection.{Wide, connection_key}

has_byte-digits_onto :
    (f n : ℕ) (out : Bytes)
    → has_byte b':' out ≡ false
    → has_byte b':' (digits_onto f n out) ≡ false
unfolding digits_onto has_byte
has_byte-digits_onto zero n out h = h
has_byte-digits_onto (suc f) n out h =
    ground (arith, has_byte-digits_onto f (n / 10) ((b'0' + n % 10) ∷ out))

has_byte-decimal : (n : ℕ) → has_byte b':' (decimal n) ≡ false
unfolding decimal has_byte
has_byte-decimal n = has_byte-digits_onto (suc n) n [] refl

has_byte-append : (s t : Bytes) → has_byte b':' (s ++ (b':' ∷ t)) ≡ true
unfolding has_byte
has_byte-append [] t = ground arith
has_byte-append (c ∷ s) t = ground (arith, has_byte-append s t)

-- The last colon splits a text in one way.
last_colon :
    (s s' t t' : Bytes)
    → has_byte b':' t ≡ false
    → has_byte b':' t' ≡ false
    → s ++ (b':' ∷ t) ≡ s' ++ (b':' ∷ t')
    → (s ≡ s') × (t ≡ t')
last_colon [] [] t t' h h' e = (refl, cc)
last_colon [] (c ∷ s') t t' h h' e =
    let same : t ≡ s' ++ (b':' ∷ t') = cc in
    let clash : true ≡ false = sym (has_byte-append s' t') ∙ ap (has_byte b':') (sym same) ∙ h in cc
last_colon (c ∷ s) [] t t' h h' e =
    let same : s ++ (b':' ∷ t) ≡ t' = cc in
    let clash : true ≡ false = sym (has_byte-append s t) ∙ ap (has_byte b':') same ∙ h' in cc
last_colon (c ∷ s) (d ∷ s') t t' h h' e =
    let (same, rest) = last_colon s s' t t' h h' cc in (cc, rest)

-- Connections to different servers have different keys: a key has one host and one port.
pub connection_key-injective :
    (host host' : Wide) (port port' : ℕ)
    → connection_key host port ≡ connection_key host' port'
    → (host ≡ host') × (port ≡ port')
unfolding connection_key
connection_key-injective host host' port port' e =
    let (same, digits) =
      last_colon host host' (decimal port) (decimal port') (has_byte-decimal port)
        (has_byte-decimal port') e in
    let value_of = λ (text : Bytes). (take_digits 0 text).0 in
    (
      same,
      ap (λ (read : ℕ × Bytes). read.0) (sym (take_digits-decimal port))
          ∙ ap value_of digits
          ∙ ap (λ (read : ℕ × Bytes). read.0) (take_digits-decimal port'),
    )
