-- ===== src/Crypto.antt =====
-- src/detail/crypto.cpp: base64 with both alphabets, base64url decoding, the comparison that
-- takes the same time for all inputs, and the OpenSSL wrappers. A `std::span<const uint8_t>` or
-- a string is the list of its bytes. The branch for Windows is in Windows.
pub mod Windows
pub mod Sextets
pub mod RoundTrip
pub mod Compare
pub mod Decode
pub mod Shape
mod Runs
use Prim.Native.Nat.{bit_and, bit_or, bit_xor}
use livekit_server_cpp.Common.{
  ℕ, ◌+◌, ◌-◌, ◌*◌, ◌/◌, ◌%◌, ◌^◌, Bool, true, false, not, ◌&&◌, ◌||◌, [], ◌∷◌, ◌++◌, Option, none,
  some, leb, ◌==◌, if◌then◌else◌, Bytes, codes, length, get_or,
}
use livekit_server_cpp.Common.Int.{ℤ, pos, negsuc}
use livekit_server_cpp.Error.{ErrorCode, Result, ok, fail, ◌>>=◌, ◌>>◌, throw_if}

-- `x << k` on `std::uint32_t`.
abbrev pub shl32 : ℕ → ℕ → ℕ
shl32 x k = x * 2 ^ k % 2 ^ 32

abbrev pub std_alphabet : Bytes
std_alphabet = codes "ABCDEFGHIJKLMNOPQRSTUVWXYZabcdefghijklmnopqrstuvwxyz0123456789+/"

abbrev pub url_alphabet : Bytes
url_alphabet = codes "ABCDEFGHIJKLMNOPQRSTUVWXYZabcdefghijklmnopqrstuvwxyz0123456789-_"

-- `alphabet[(value >> k) & 0x3f]`.
abbrev pub sextet_char : Bytes → ℕ → ℕ → ℕ
sextet_char alphabet value k = get_or alphabet (bit_and (value / 2 ^ k) 0x3f) 0

abbrev pub group_value : ℕ → ℕ → ℕ → ℕ
group_value first second third = bit_or (bit_or (shl32 first 16) (shl32 second 8)) third

abbrev pad : Bool → Bytes
pad padding = if padding then b'=' ∷ [] else []

-- `Base64`: a round of the loop takes the next three bytes, and 0 for each that is not there.
unfoldable pub base64 : Bytes → Bytes → Bool → Bytes
base64 [] alphabet padding = []
base64 (a ∷ []) alphabet padding =
    let value = group_value a 0 0 in
    sextet_char alphabet value 18 ∷ sextet_char alphabet value 12 ∷ (pad padding ++ pad padding)
base64 (a ∷ b ∷ []) alphabet padding =
    let value = group_value a b 0 in
    sextet_char alphabet value 18
    ∷ sextet_char alphabet value 12
    ∷ sextet_char alphabet value 6
    ∷ pad padding
base64 (a ∷ b ∷ c ∷ rest) alphabet padding =
    let value = group_value a b c in
    sextet_char alphabet value 18
    ∷ sextet_char alphabet value 12
    ∷ sextet_char alphabet value 6
    ∷ sextet_char alphabet value 0
    ∷ base64 rest alphabet padding

unfoldable pub base64_encode : Bytes → Bytes
base64_encode value = base64 value std_alphabet true

unfoldable pub base64_url_encode : Bytes → Bytes
base64_url_encode value = base64 value url_alphabet false

-- `Base64UrlValue`; both alphabets are read.
unfoldable pub base64_url_value : ℕ → ℤ
base64_url_value ch =
    if leb b'A' ch && leb ch b'Z'
    then pos (ch - b'A')
    else if leb b'a' ch && leb ch b'z'
    then pos (ch - b'a' + 26)
    else if leb b'0' ch && leb ch b'9'
    then pos (ch - b'0' + 52)
    else if ch == b'-' || ch == b'+'
    then pos 62
    else if ch == b'_' || ch == b'/'
    then pos 63
    else negsuc 0

-- The variables of the loop of `Base64UrlDecode`.
pub record Decoder : Type 0 where
  pub buffer : ℕ
  pub bits : ℕ
  pub output : Bytes

-- The body of the loop, for a character of value `decoded`.
unfoldable pub absorb : Decoder → ℕ → Decoder
absorb s decoded =
    let buffer = bit_or (shl32 s.buffer 6) decoded in
    let bits = s.bits + 6 in
    if leb 8 bits
    then record {
      buffer = buffer;
      bits = bits - 8;
      output = s.output ++ (bit_and (buffer / 2 ^ (bits - 8)) 0xff % 2 ^ 8 ∷ []);
    }
    else record { buffer = buffer; bits = bits; output = s.output }

unfoldable pub decode_loop : Decoder → Bytes → Result Decoder
decode_loop s [] = ok s
decode_loop s (ch ∷ rest) = elim (ch == b'=') [
  | true ↦ ok s
  | false ↦ elim (base64_url_value ch) [
    | negsuc n ↦ fail ErrorCode.authentication "JWT contains invalid base64url"
    | pos decoded ↦ decode_loop (absorb s decoded) rest
  ]
]

abbrev pub decoder_start : Decoder
decoder_start = record { buffer = 0; bits = 0; output = [] }

-- `Base64UrlDecode`.
unfoldable pub base64_url_decode : Bytes → Result Bytes
base64_url_decode value = do
  s ← decode_loop decoder_start value
  throw_if (leb 6 s.bits || length value % 4 == 1) ErrorCode.authentication
      "JWT contains malformed base64url"
  ok s.output

-- The loop of `ConstantTimeEqual`, over spans of one length; `difference` is a `std::uint8_t`.
unfoldable pub fold_difference : ℕ → Bytes → Bytes → ℕ
fold_difference difference (l ∷ left) (r ∷ right) =
    fold_difference (bit_or difference (bit_xor l r) % 2 ^ 8) left right
fold_difference difference _ _ = difference

unfoldable pub constant_time_equal : Bytes → Bytes → Bool
constant_time_equal left right =
    if not (length left == length right) then false else fold_difference 0 left right == 0

-- OpenSSL: what `EVP_Digest` and `EVP_Q_mac` with SHA-256 write, or `none` where they fail.
pub record Evp : Type 0 where
  pub digest : Bytes → Option Bytes
  pub mac : Bytes → Bytes → Option Bytes

module _ (evp : Evp) where
  -- `Sha256`.
  unfoldable pub sha256 : Bytes → Result Bytes
  sha256 value = elim (evp.digest value) [
    | none ↦ fail ErrorCode.authentication "SHA-256 operation failed"
    | some written ↦
        if not (length written == 32)
        then fail ErrorCode.authentication "SHA-256 operation failed"
        else ok written
  ]

  -- `HmacSha256`.
  unfoldable pub hmac_sha256 : Bytes → Bytes → Result Bytes
  hmac_sha256 secret value = elim (evp.mac secret value) [
    | none ↦ fail ErrorCode.authentication "HS256 operation failed"
    | some written ↦
        if not (length written == 32)
        then fail ErrorCode.authentication "HS256 operation failed"
        else ok written
  ]
