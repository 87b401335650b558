-- ===== src/Crypto/Decode.antt =====
-- `Base64UrlDecode` on any input: when it succeeds, how much it returns, and what it ignores.
use Prim.Native.Nat.{bit_or, bit_and}
use livekit_server_cpp.Common.{
  ℕ, ◌+◌, ◌-◌, ◌*◌, ◌/◌, ◌%◌, ◌<◌, ◌≤◌, ◌≡◌, refl, arith, Bool, true, false, not, ◌&&◌, ◌||◌, [],
  ◌∷◌, ◌++◌, leb, ◌==◌, if◌then◌else◌, Bytes, IsBytes, length, Bool-cases, inl, inr, ◌⊎◌,
  length-append, codes, ◌^◌,
}
use livekit_server_cpp.Common.Bits.{passes_to}
use livekit_server_cpp.Common.Ascii.{is_in, agree, is_in-test}
use livekit_server_cpp.Common.Int.{ℤ, pos, negsuc}
use livekit_server_cpp.Crypto.{
  base64_url_value, Decoder, absorb, decode_loop, decoder_start, base64_url_decode, shl32,
}
use livekit_server_cpp.Error.{
  ErrorCode, throw_if, ◌>>◌, Error, Result, ok, throw, undefined, plain_error,
}

-- What stands in front of the first `=`.
abbrev pub payload : Bytes → Bytes
payload [] = []
payload (c ∷ cs) = if c == b'=' then [] else c ∷ payload cs

-- The alphabet of base64 and, at the end, the signs that its alphabet for URLs has in place of `+` and
-- `/`.
abbrev alphabet : Bytes
alphabet = codes "ABCDEFGHIJKLMNOPQRSTUVWXYZabcdefghijklmnopqrstuvwxyz0123456789+/-_"

unfoldable pub is_base64 : ℕ → Bool
is_base64 c = is_in c alphabet

-- Every character is one of the two alphabets.
abbrev pub all_read : Bytes → Bool
all_read [] = true
all_read (c ∷ cs) = is_base64 c && all_read cs

abbrev has_value : ℕ → Bool
has_value c = elim (base64_url_value c) [ negsuc n ↦ false | pos d ↦ true ]

base64_table : passes_to (λ c. agree (is_in c alphabet) (has_value c)) 128 ≡ true
unfolding passes_to base64_url_value
base64_table = refl

no_value : (c : ℕ) → 128 ≤ c → has_value c ≡ false
unfolding base64_url_value
no_value c h = ground arith

-- The decoder has a value for exactly these characters.
is_base64_lem : (c : ℕ) → is_base64 c ≡ has_value c
unfolding is_base64
is_base64_lem c = is_in-test alphabet has_value refl base64_table no_value c

abbrev bad_character : Error
bad_character = plain_error ErrorCode.authentication (codes "JWT contains invalid base64url")

-- The decoder holds fewer than eight bits, and its output is bytes.
pub record IsReady (s : Decoder) : Type 0 where
  pub few_bits : s.bits < 8
  pub bytes : IsBytes s.output

IsBytes-concat : (xs : Bytes) (x : ℕ) → IsBytes xs → x < 256 → IsBytes (xs ++ x ∷ [])
IsBytes-concat [] x h p = (p, tt)
IsBytes-concat (y ∷ xs) x (q, h) p = (q, IsBytes-concat xs x h p)

absorb_counts :
    (s : Decoder) (d : ℕ)
    → IsReady s
    → IsReady (absorb s d)
      × (8 * length (absorb s d).output + (absorb s d).bits ≡ 8 * length s.output + s.bits + 6)
unfolding absorb
absorb_counts s d h = ground (
  arith,
  length-append s.output
      (bit_and (bit_or (shl32 s.buffer 6) d / 2 ^ (s.bits + 6 - 8)) 0xff % 2 ^ 8 ∷ []),
  IsBytes-concat s.output
      (bit_and (bit_or (shl32 s.buffer 6) d / 2 ^ (s.bits + 6 - 8)) 0xff % 2 ^ 8),
)

-- The loop over a text that can be read, from a state that is ready.
pub record IsRead (s : Decoder) (value : Bytes) : Type 0 where
  pub last : Decoder
  pub runs : decode_loop s value ≡ ok last
  pub ready : IsReady last
  pub counts :
      8 * length last.output + last.bits ≡ 8 * length s.output + s.bits + 6 * length (payload value)

abbrev KindOf : ℤ → Type 0
KindOf z = ((d : ℕ) × (z ≡ pos d)) ⊎ ((n : ℕ) × (z ≡ negsuc n))

kind_of : (z : ℤ) → KindOf z
kind_of (pos d) = inl (d, refl)
kind_of (negsuc n) = inr (n, refl)

IsRead-cons :
    (s : Decoder) (c d : ℕ) (cs : Bytes)
    → (c == b'=') ≡ false
    → base64_url_value c ≡ pos d
    → IsReady s
    → IsRead (absorb s d) cs
    → IsRead s (c ∷ cs)
IsRead-cons s c d cs e v r t = record {
  last = t.last;
  runs = unfold decode_loop in ground (arith, t.runs);
  ready = t.ready;
  counts = ground (arith, t.counts, absorb_counts s d r);
}

decode_loop-IsRead :
    (value : Bytes) (s : Decoder) → IsReady s → all_read (payload value) ≡ true → IsRead s value
decode_loop-IsRead [] s r h = record {
  last = s;
  runs = unfold decode_loop in refl;
  ready = r;
  counts = omega arith;
}
decode_loop-IsRead (c ∷ cs) s r h =
    let answer = is_base64_lem c in
    elim (Bool-cases (c == b'=')) [
      | inl e ↦ record {
        last = s;
        runs = unfold decode_loop in ground arith;
        ready = r;
        counts = ground arith;
      }
      | inr e ↦ elim (kind_of (base64_url_value c)) [
        | inl (d, v) ↦
            IsRead-cons s c d cs e v r
              (decode_loop-IsRead cs (absorb s d) (absorb_counts s d r).0 (ground arith))
        | inr (n, v) ↦ absurd (ground arith)
      ]
    ]

decode_loop_refuses :
    (value : Bytes) (s : Decoder)
    → all_read (payload value) ≡ false
    → decode_loop s value ≡ throw bad_character
unfolding decode_loop
decode_loop_refuses [] s h = cc
decode_loop_refuses (c ∷ cs) s h =
    let answer = is_base64_lem c in
    elim (kind_of (base64_url_value c)) [
      | inl (d, v) ↦ ground (arith, decode_loop_refuses cs (absorb s d))
      | inr (n, v) ↦ ground arith
    ]

start-IsReady : IsReady decoder_start
start-IsReady = record { few_bits = omega arith; bytes = tt }

-- What `Base64UrlDecode` accepts.
abbrev pub accepts : Bytes → Bool
accepts value =
    all_read (payload value) && not (length (payload value) % 4 == 1) && not (length value % 4 == 1)

-- What `Base64UrlDecode` returns on a text: bytes, six bits for a character, or its error.
abbrev pub Decodes : Bytes → Result Bytes → Type 0
Decodes value (ok out) =
    (accepts value ≡ true) × IsBytes out × (length out ≡ 6 * length (payload value) / 8)
Decodes value (throw e) = (accepts value ≡ false) × (e.code ≡ ErrorCode.authentication)
Decodes value undefined = ⊥

Decodes-read :
    (value : Bytes) → all_read (payload value) ≡ true → Decodes value (base64_url_decode value)
unfolding base64_url_decode
Decodes-read value h =
    let t = decode_loop-IsRead value decoder_start start-IsReady h in
    rw t.runs (finish t.last t.ready (omega (arith, t.counts)))
  where
    rest : Decoder → Result Bytes
    rest s = do
      throw_if (leb 6 s.bits || length value % 4 == 1) ErrorCode.authentication
          "JWT contains malformed base64url"
      ok s.output

    finish :
        (s : Decoder)
        → IsReady s
        → 8 * length s.output + s.bits ≡ 6 * length (payload value)
        → Decodes value (rest s)
    finish s r e = elim (Bool-cases (leb 6 s.bits)) [
      | inl a ↦ ground arith
      | inr a ↦ elim (Bool-cases (length value % 4 == 1)) [
        | inl b ↦ ground arith
        | inr b ↦ ground arith
      ]
    ]

-- `Base64UrlDecode` returns exactly if every character in front of the first `=` is a letter, a digit
-- or one of `+`, `/`, `-` and `_`, and neither their number nor the length of the text is 1 past a multiple of four. It then returns
-- bytes, as many as the characters hold in full; else it throws an authentication error.
pub base64_url_decode-Decodes : (value : Bytes) → Decodes value (base64_url_decode value)
base64_url_decode-Decodes value = elim (Bool-cases (all_read (payload value))) [
  | inl h ↦ Decodes-read value h
  | inr h ↦
      unfold base64_url_decode in rw (decode_loop_refuses value decoder_start h) (ground arith)
]

decode_loop-payload :
    (value : Bytes) (s : Decoder) → decode_loop s value ≡ decode_loop s (payload value)
unfolding decode_loop
decode_loop-payload [] s = refl
decode_loop-payload (c ∷ cs) s = elim (kind_of (base64_url_value c)) [
  | inl (d, v) ↦ ground (arith, decode_loop-payload cs (absorb s d))
  | inr (n, v) ↦ ground arith
]

-- What follows the first `=` changes the result only through the length of the text: two texts
-- with the same part before it, whose lengths agree modulo four, give the same result.
pub base64_url_decode-payload :
    (value other : Bytes)
    → payload value ≡ payload other
    → length value % 4 ≡ length other % 4
    → base64_url_decode value ≡ base64_url_decode other
unfolding base64_url_decode
base64_url_decode-payload value other e l =
    rw (decode_loop-payload value, decode_loop-payload other, e, l)
