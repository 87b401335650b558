-- ===== src/Crypto/Sextets.antt =====
-- The sextets of a group of three bytes, and the characters that stand for them.
use livekit_server_cpp.Common.{
  ℕ, ◌+◌, ◌*◌, ◌/◌, ◌%◌, ◌^◌, ◌<◌, ◌≡◌, refl, arith, Bool, true, false, not, ◌&&◌, ◌==◌, Bytes,
  get_or,
}
use livekit_server_cpp.Common.Bits.{bit_or_shift, bit_and_ones, passes_to, passes_to-below}
use livekit_server_cpp.Common.Int.{pos, negsuc}
use livekit_server_cpp.Crypto.{
  std_alphabet, url_alphabet, group_value, sextet_char, base64_url_value,
}

-- The character `ch` is no padding and is read as the value `v`.
abbrev is_read_as : ℕ → ℕ → Bool
is_read_as ch v =
    not (ch == b'=') && elim (base64_url_value ch) [ pos d ↦ d == v | negsuc n ↦ false ]

abbrev pub Reads : ℕ → ℕ → Type 0
Reads ch v = ((ch == b'=') ≡ false) × (base64_url_value ch ≡ pos v)

is_read_as-Reads : (ch v : ℕ) → is_read_as ch v ≡ true → Reads ch v
is_read_as-Reads ch v h = ground arith

-- An alphabet whose characters `Base64UrlValue` reads back.
abbrev pub IsAlphabet : Bytes → Type 0
IsAlphabet alphabet = (v : ℕ) → v < 64 → Reads (get_or alphabet v 0) v

url_table : passes_to (λ v. is_read_as (get_or url_alphabet v 0) v) 64 ≡ true
unfolding passes_to base64_url_value
url_table = refl

std_table : passes_to (λ v. is_read_as (get_or std_alphabet v 0) v) 64 ≡ true
unfolding passes_to base64_url_value
std_table = refl

pub url-IsAlphabet : IsAlphabet url_alphabet
url-IsAlphabet v h = is_read_as-Reads _ v (passes_to-below _ 64 h url_table)

pub std-IsAlphabet : IsAlphabet std_alphabet
std-IsAlphabet v h = is_read_as-Reads _ v (passes_to-below _ 64 h std_table)

pub group_value-eq :
    (a b c : ℕ) → a < 256 → b < 256 → c < 256 → group_value a b c ≡ a * 65536 + b * 256 + c
group_value-eq a b c p q r =
    ground (
      arith,
      bit_or_shift 16 a (b * 256) (omega arith),
      bit_or_shift 8 (a * 256 + b) c (omega arith),
    )

pub sextet_char-eq :
    (alphabet : Bytes) (value k : ℕ)
    → sextet_char alphabet value k ≡ get_or alphabet (value / 2 ^ k % 64) 0
sextet_char-eq alphabet value k = rw (bit_and_ones 6 (value / 2 ^ k))
