-- ===== src/Crypto/Shape.antt =====
-- The text that `Base64Encode` writes: bytes, and not empty for an input that is not.
use livekit_server_cpp.Common.{
  ℕ, zero, suc, ◌<◌, ◌≡◌, refl, arith, Bool, true, false, [], ◌∷◌, Bytes, IsBytes, get_or, is_empty,
}
use livekit_server_cpp.Crypto.{std_alphabet, base64, base64_encode}

get_or-IsByte : (xs : Bytes) (i : ℕ) → IsBytes xs → get_or xs i 0 < 256
get_or-IsByte [] i h = omega arith
get_or-IsByte (x ∷ xs) zero h = h.0
get_or-IsByte (x ∷ xs) (suc i) h = get_or-IsByte xs i h.1

pub base64-IsBytes :
    (xs alphabet : Bytes) (padding : Bool) → IsBytes alphabet → IsBytes (base64 xs alphabet padding)
unfolding base64
base64-IsBytes [] alphabet padding h = tt
base64-IsBytes (a ∷ []) alphabet true h = (get_or-IsByte _ _ h, (get_or-IsByte _ _ h, omega arith))
base64-IsBytes (a ∷ []) alphabet false h = (get_or-IsByte _ _ h, (get_or-IsByte _ _ h, tt))
base64-IsBytes (a ∷ b ∷ []) alphabet true h =
    (get_or-IsByte _ _ h, (get_or-IsByte _ _ h, (get_or-IsByte _ _ h, omega arith)))
base64-IsBytes (a ∷ b ∷ []) alphabet false h =
    (get_or-IsByte _ _ h, (get_or-IsByte _ _ h, (get_or-IsByte _ _ h, tt)))
base64-IsBytes (a ∷ b ∷ c ∷ rest) alphabet padding h = (
  get_or-IsByte _ _ h,
  (
    get_or-IsByte _ _ h,
    (get_or-IsByte _ _ h, (get_or-IsByte _ _ h, base64-IsBytes rest alphabet padding h)),
  ),
)

pub base64_encode-IsBytes : (xs : Bytes) → IsBytes (base64_encode xs)
unfolding base64_encode
base64_encode-IsBytes xs = base64-IsBytes xs std_alphabet true (omega arith)

pub is_empty-base64_encode :
    (xs : Bytes) → is_empty xs ≡ false → is_empty (base64_encode xs) ≡ false
unfolding base64_encode base64
is_empty-base64_encode [] h = h
is_empty-base64_encode (a ∷ []) h = refl
is_empty-base64_encode (a ∷ b ∷ []) h = refl
is_empty-base64_encode (a ∷ b ∷ c ∷ xs) h = refl
