-- ===== src/Crypto/RoundTrip.antt =====
-- `Base64UrlDecode` reads back what `Base64` writes, with either alphabet, padded or not.
use Prim.Native.Nat.{bit_or}
use livekit_server_cpp.Common.{
  ℕ, ◌+◌, ◌-◌, ◌*◌, ◌/◌, ◌%◌, ◌^◌, ◌≤◌, ◌<◌, ◌≡◌, refl, sym, arith, Bool, true, false, [], ◌∷◌,
  ◌++◌, append_assoc, append-nil, ◌==◌, if◌then◌else◌, Bytes, IsBytes, All, List, map, get_or,
  length,
}
use livekit_server_cpp.Common.Bits.{bit_or_shift, bit_and_ones}
use livekit_server_cpp.Crypto.{
  std_alphabet, url_alphabet, group_value, sextet_char, base64, base64_encode, base64_url_encode,
  Decoder, absorb, decode_loop, base64_url_decode, shl32,
}
use livekit_server_cpp.Crypto.Sextets.{
  IsAlphabet, url-IsAlphabet, std-IsAlphabet, group_value-eq, sextet_char-eq,
}
use livekit_server_cpp.Error.{ok}

-- The buffer after one more sextet.
abbrev pub shifted : ℕ → ℕ → ℕ
shifted buffer d = buffer * 64 % 2 ^ 32 + d

shifted_lem : (buffer d : ℕ) → d < 64 → bit_or (shl32 buffer 6) d ≡ shifted buffer d
shifted_lem buffer d h = ground (arith, bit_or_shift 6 (buffer % 2 ^ 26) d h)

pub absorb_keep :
    (s : Decoder) (d : ℕ)
    → d < 64
    → s.bits < 2
    → absorb s d ≡ record { buffer = shifted s.buffer d; bits = s.bits + 6; output = s.output }
unfolding absorb
absorb_keep s d h k = ground (arith, shifted_lem s.buffer d h)

pub absorb_emit :
    (s : Decoder) (d : ℕ)
    → d < 64
    → 2 ≤ s.bits
    → absorb s d ≡ record {
      buffer = shifted s.buffer d;
      bits = s.bits + 6 - 8;
      output = s.output ++ (shifted s.buffer d / 2 ^ (s.bits + 6 - 8) % 256 ∷ []);
    }
unfolding absorb
absorb_emit s d h k =
    ground
      (arith, shifted_lem s.buffer d h, bit_and_ones 8 (shifted s.buffer d / 2 ^ (s.bits + 6 - 8)))

abbrev pub feed : Decoder → List ℕ → Decoder
feed s [] = s
feed s (d ∷ ds) = feed (absorb s d) ds

module _ (alphabet : Bytes) where
  abbrev pub char_of : ℕ → ℕ
  char_of d = get_or alphabet d 0

  -- The loop over characters of the alphabet.
  pub decode_loop-map :
      IsAlphabet alphabet
      → (ds : List ℕ) (s : Decoder) (rest : Bytes) → All (λ d. d < 64) ds
      → decode_loop s (map char_of ds ++ rest) ≡ decode_loop (feed s ds) rest
  unfolding decode_loop
  decode_loop-map good [] s rest h = refl
  decode_loop-map good (d ∷ ds) s rest h =
      ground (arith, good d h.0, decode_loop-map good ds (absorb s d) rest h.1)

-- The sextets of a text, as numbers.
abbrev pub sextets : Bytes → List ℕ
sextets [] = []
sextets (a ∷ []) = a / 4 ∷ a % 4 * 16 ∷ []
sextets (a ∷ b ∷ []) = a / 4 ∷ (a % 4 * 16 + b / 16) ∷ b % 16 * 4 ∷ []
sextets (a ∷ b ∷ c ∷ rest) =
    a / 4 ∷ (a % 4 * 16 + b / 16) ∷ (b % 16 * 4 + c / 64) ∷ c % 64 ∷ sextets rest

-- The padding behind the sextets of a text.
abbrev pub padding_of : Bytes → Bool → Bytes
padding_of [] padding = []
padding_of (a ∷ []) padding = if padding then b'=' ∷ b'=' ∷ [] else []
padding_of (a ∷ b ∷ []) padding = if padding then b'=' ∷ [] else []
padding_of (a ∷ b ∷ c ∷ rest) padding = padding_of rest padding

pub sextets-lt : (xs : Bytes) → IsBytes xs → All (λ d. d < 64) (sextets xs)
sextets-lt [] h = tt
sextets-lt (a ∷ []) h = omega arith
sextets-lt (a ∷ b ∷ []) h = omega arith
sextets-lt (a ∷ b ∷ c ∷ rest) (p, (q, (r, h))) = ground (arith, sextets-lt rest h)

module _ (alphabet : Bytes) (padding : Bool) where
  char_at :
      (a b c k d : ℕ)
      → a < 256
      → b < 256
      → c < 256
      → (a * 65536 + b * 256 + c) / 2 ^ k % 64 ≡ d
      → sextet_char alphabet (group_value a b c) k ≡ char_of alphabet d
  char_at a b c k d p q r e = rw (sextet_char-eq, group_value-eq a b c p q r, e)

  -- `Base64` writes the characters of the sextets, and the padding.
  pub base64-sextets :
      (xs : Bytes)
      → IsBytes xs
      → base64 xs alphabet padding ≡ map (char_of alphabet) (sextets xs) ++ padding_of xs padding
  unfolding base64
  base64-sextets [] h = refl
  base64-sextets (a ∷ []) (p, h) = ground (
    arith,
    char_at a 0 0 18 (a / 4) p (omega arith) (omega arith) (omega arith),
    char_at a 0 0 12 (a % 4 * 16) p (omega arith) (omega arith) (omega arith),
  )
  base64-sextets (a ∷ b ∷ []) (p, (q, h)) = ground (
    arith,
    char_at a b 0 18 (a / 4) p q (omega arith) (omega arith),
    char_at a b 0 12 (a % 4 * 16 + b / 16) p q (omega arith) (omega arith),
    char_at a b 0 6 (b % 16 * 4) p q (omega arith) (omega arith),
  )
  base64-sextets (a ∷ b ∷ c ∷ rest) (p, (q, (r, h))) = ground (
    arith,
    char_at a b c 18 (a / 4) p q r (omega arith),
    char_at a b c 12 (a % 4 * 16 + b / 16) p q r (omega arith),
    char_at a b c 6 (b % 16 * 4 + c / 64) p q r (omega arith),
    char_at a b c 0 (c % 64) p q r (omega arith),
    base64-sextets rest h,
  )

abbrev decoder : ℕ → ℕ → Bytes → Decoder
decoder buffer bits output = record { buffer = buffer; bits = bits; output = output }

-- The decoder over the first two sextets of a group, the third and the fourth.
absorb_two :
    (buffer : ℕ) (out : Bytes) (a d : ℕ)
    → a < 256
    → d < 16
    → absorb (absorb (decoder buffer 0 out) (a / 4)) (a % 4 * 16 + d)
      ≡ decoder (shifted (shifted buffer (a / 4)) (a % 4 * 16 + d)) 4 (out ++ a ∷ [])
absorb_two buffer out a d p q = ground (
  arith,
  absorb_keep (decoder buffer 0 out) (a / 4),
  absorb_emit (decoder (shifted buffer (a / 4)) 6 out) (a % 4 * 16 + d),
)

absorb_third :
    (buffer a b d : ℕ) (out : Bytes)
    → b < 256
    → d < 4
    → absorb (decoder (shifted buffer (a * 16 + b / 16)) 4 out) (b % 16 * 4 + d)
      ≡ decoder (shifted (shifted buffer (a * 16 + b / 16)) (b % 16 * 4 + d)) 2 (out ++ b ∷ [])
absorb_third buffer a b d out p q =
    ground (arith, absorb_emit (decoder (shifted buffer (a * 16 + b / 16)) 4 out) (b % 16 * 4 + d))

absorb_fourth :
    (buffer b c : ℕ) (out : Bytes)
    → c < 256
    → absorb (decoder (shifted buffer (b * 4 + c / 64)) 2 out) (c % 64)
      ≡ decoder (shifted (shifted buffer (b * 4 + c / 64)) (c % 64)) 0 (out ++ c ∷ [])
absorb_fourth buffer b c out p =
    ground (arith, absorb_emit (decoder (shifted buffer (b * 4 + c / 64)) 2 out) (c % 64))

-- Fed with the sextets of `xs`, the decoder has written `xs` and holds fewer than six bits.
pub feed-sextets :
    (xs : Bytes) (buffer : ℕ) (out : Bytes)
    → IsBytes xs
    → let s = feed (decoder buffer 0 out) (sextets xs) in (s.output ≡ out ++ xs) × (s.bits < 6)
feed-sextets [] buffer out h = (sym (append-nil out), omega arith)
feed-sextets (a ∷ []) buffer out (p, h) = ground (arith, absorb_two buffer out a 0 p (omega arith))
feed-sextets (a ∷ b ∷ []) buffer out (p, (q, h)) = ground (
  arith,
  absorb_two buffer out a (b / 16) p (omega arith),
  absorb_third (shifted buffer (a / 4)) (a % 4) b 0 (out ++ a ∷ []) q (omega arith),
  append_assoc out (a ∷ []) (b ∷ []),
)
feed-sextets (a ∷ b ∷ c ∷ rest) buffer out (p, (q, (r, h))) =
    let buffer₂ : ℕ = shifted buffer (a / 4) in
    let buffer₃ : ℕ = shifted buffer₂ (a % 4 * 16 + b / 16) in
    let buffer₄ : ℕ = shifted buffer₃ (b % 16 * 4 + c / 64) in
    ground (
      arith,
      absorb_two buffer out a (b / 16) p (omega arith),
      absorb_third buffer₂ (a % 4) b (c / 64) (out ++ a ∷ []) q (omega arith),
      absorb_fourth buffer₃ (b % 16) c ((out ++ a ∷ []) ++ b ∷ []) r,
      feed-sextets rest (shifted buffer₄ (c % 64)) (((out ++ a ∷ []) ++ b ∷ []) ++ c ∷ []) h,
      append_assoc ((out ++ a ∷ []) ++ b ∷ []) (c ∷ []) rest,
      append_assoc (out ++ a ∷ []) (b ∷ []) (c ∷ rest),
      append_assoc out (a ∷ []) (b ∷ c ∷ rest),
    )

module _ (alphabet : Bytes) (padding : Bool) where
  -- The characters written number 0, 2 or 3 past a multiple of four.
  length-base64 : (xs : Bytes) → (length (base64 xs alphabet padding) % 4 == 1) ≡ false
  unfolding base64
  length-base64 [] = refl
  length-base64 (a ∷ []) = ground arith
  length-base64 (a ∷ b ∷ []) = ground arith
  length-base64 (a ∷ b ∷ c ∷ rest) = ground (arith, length-base64 rest)

  decode_loop-padding : (xs : Bytes) (s : Decoder) → decode_loop s (padding_of xs padding) ≡ ok s
  unfolding decode_loop
  decode_loop-padding [] s = refl
  decode_loop-padding (a ∷ []) s = ground arith
  decode_loop-padding (a ∷ b ∷ []) s = ground arith
  decode_loop-padding (a ∷ b ∷ c ∷ rest) s = decode_loop-padding rest s

  -- With an alphabet that is read back, `Base64UrlDecode` undoes `Base64`.
  base64_url_decode-base64 :
      IsAlphabet alphabet
      → (xs : Bytes) → IsBytes xs
      → base64_url_decode (base64 xs alphabet padding) ≡ ok xs
  unfolding base64_url_decode
  base64_url_decode-base64 good xs h =
      let s = feed (decoder 0 0 []) (sextets xs) in
      ground (
        arith,
        base64-sextets alphabet padding xs h,
        decode_loop-map alphabet good (sextets xs) (decoder 0 0 []) (padding_of xs padding)
            (sextets-lt xs h),
        decode_loop-padding xs s,
        feed-sextets xs 0 [] h,
        length-base64 xs,
      )

-- `Base64UrlDecode` returns the bytes that `Base64UrlEncode` was given, for every byte string.
pub base64_url_decode-base64_url_encode :
    (xs : Bytes) → IsBytes xs → base64_url_decode (base64_url_encode xs) ≡ ok xs
unfolding base64_url_encode
base64_url_decode-base64_url_encode = base64_url_decode-base64 url_alphabet false url-IsAlphabet

-- `Base64UrlDecode` also reads the standard alphabet and its padding: it returns the bytes that
-- `Base64Encode` was given, for every byte string.
pub base64_url_decode-base64_encode :
    (xs : Bytes) → IsBytes xs → base64_url_decode (base64_encode xs) ≡ ok xs
unfolding base64_encode
base64_url_decode-base64_encode = base64_url_decode-base64 std_alphabet true std-IsAlphabet
