-- ===== src/Crypto/Runs.antt =====
-- Concrete runs of the crypto functions, and the theorems at concrete inputs.
use livekit_server_cpp.Common.{◌≡◌, ◌↔◌, refl, arith, true, false, [], ◌∷◌, Bytes, IsBytes, codes}
use livekit_server_cpp.Crypto.{
  base64, base64_encode, base64_url_encode, base64_url_value, absorb, decode_loop,
  base64_url_decode, constant_time_equal, fold_difference,
}
use livekit_server_cpp.Crypto.Compare.{constant_time_equal_iff}
use livekit_server_cpp.Crypto.Decode.{Decodes, base64_url_decode-Decodes}
use livekit_server_cpp.Crypto.RoundTrip.{base64_url_decode-base64_url_encode}
use livekit_server_cpp.Error.{ErrorCode, ok, fail}

abbrev some_bytes : Bytes
some_bytes = 255 ∷ 0 ∷ 62 ∷ 251 ∷ []

encode_url : base64_url_encode some_bytes ≡ codes "_wA--w"
unfolding base64_url_encode base64
encode_url = refl

encode_std : base64_encode some_bytes ≡ codes "/wA++w=="
unfolding base64_encode base64
encode_std = refl

decode_bad :
    base64_url_decode (codes "a*") ≡ fail ErrorCode.authentication "JWT contains invalid base64url"
unfolding base64_url_decode decode_loop base64_url_value absorb
decode_bad = refl

decode_short :
    base64_url_decode (codes "_wA--")
    ≡ fail ErrorCode.authentication "JWT contains malformed base64url"
unfolding base64_url_decode decode_loop base64_url_value absorb
decode_short = refl

-- Bits that belong to no whole byte are dropped.
decode_loose : base64_url_decode (codes "_x") ≡ ok (255 ∷ [])
unfolding base64_url_decode decode_loop base64_url_value absorb
decode_loose = refl

compare_runs : constant_time_equal (codes "abc") (codes "abd") ≡ false
unfolding constant_time_equal fold_difference
compare_runs = refl

some-IsBytes : IsBytes some_bytes
some-IsBytes = omega arith

base64_url_decode-base64_url_encode_example :
    base64_url_decode (base64_url_encode some_bytes) ≡ ok some_bytes
base64_url_decode-base64_url_encode_example =
    base64_url_decode-base64_url_encode some_bytes some-IsBytes

constant_time_equal_iff_example :
    (constant_time_equal (codes "abc") (codes "abd") ≡ true) ↔ (codes "abc" ≡ codes "abd")
constant_time_equal_iff_example =
    constant_time_equal_iff (codes "abc") (codes "abd") (omega arith) (omega arith)

base64_url_decode-Decodes_example : Decodes (codes "_wA-") (base64_url_decode (codes "_wA-"))
base64_url_decode-Decodes_example = base64_url_decode-Decodes (codes "_wA-")

abbrev some_digest : Bytes
some_digest = codes "0123456789abcdef0123456789abcdef"
