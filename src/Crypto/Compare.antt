-- ===== src/Crypto/Compare.antt =====
-- `ConstantTimeEqual` decides equality of byte strings.
use Prim.Native.Nat.{bit_or, bit_xor}
use livekit_server_cpp.Common.{
  ℕ, ◌%◌, ◌^◌, ◌<◌, ◌≡◌, ◌↔◌, refl, arith, true, [], ◌∷◌, Bytes, IsBytes, length,
}
use livekit_server_cpp.Common.Bits.{
  bit_or-lt, bit_xor-lt, bit_or-eq-zero, eq_of_bit_xor, bit_xor_self,
}
use livekit_server_cpp.Crypto.{fold_difference, constant_time_equal}

-- The loop ends at 0 exactly if it began at 0 and the spans are the same.
fold_difference_zero :
    (left right : Bytes) (difference : ℕ)
    → length left ≡ length right
    → IsBytes left
    → IsBytes right
    → difference < 2 ^ 8
    → fold_difference difference left right ≡ 0
    → (difference ≡ 0) × (left ≡ right)
unfolding fold_difference
fold_difference_zero [] [] difference e p q d h = (h, refl)
fold_difference_zero [] (r ∷ right) difference e p q d h = absurd (omega arith)
fold_difference_zero (l ∷ left) [] difference e p q d h = absurd (omega arith)
fold_difference_zero (l ∷ left) (r ∷ right) difference e (pl, p) (qr, q) d h = ground (
  arith,
  bit_xor-lt 8 l r pl qr,
  bit_or-lt 8 difference (bit_xor l r),
  fold_difference_zero left right (bit_or difference (bit_xor l r) % 2 ^ 8),
  bit_or-eq-zero 8 difference (bit_xor l r),
  eq_of_bit_xor 8 l r,
)

fold_difference_self : (xs : Bytes) → fold_difference 0 xs xs ≡ 0
unfolding fold_difference
fold_difference_self [] = refl
fold_difference_self (x ∷ xs) = ground (arith, bit_xor_self x, fold_difference_self xs)

-- On byte strings `ConstantTimeEqual` returns true exactly if the two are equal: a difference in
-- any byte, or in the lengths, is seen.
pub constant_time_equal_iff :
    (left right : Bytes)
    → IsBytes left
    → IsBytes right
    → (constant_time_equal left right ≡ true) ↔ (left ≡ right)
unfolding constant_time_equal
constant_time_equal_iff left right p q = (sound, complete)
  where
    sound : constant_time_equal left right ≡ true → left ≡ right
    sound h = ground (arith, fold_difference_zero left right 0)

    complete : left ≡ right → constant_time_equal left right ≡ true
    complete e = rw e (ground (arith, fold_difference_self right))
