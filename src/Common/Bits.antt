-- ===== src/Common/Bits.antt =====
-- `&`, `|` and `^` as arithmetic. The native operations stand for a recursion on binary digits;
-- the `halve` lemmas give the equation for the lowest digit, and the laws follow by halving.
use Prim.Native.Nat.{
  ℕ, zero, suc, ◌+◌, ◌-◌, ◌*◌, ◌/◌, ◌%◌, ◌^◌, ◌≤◌, ◌<◌, min, max, differ, bit_and, bit_or, bit_xor,
  digits, bit_and-bitwise, bit_or-bitwise, bit_xor-bitwise,
}
use mathlib.Core.Bool.{Bool, true, ◌&&◌}
use mathlib.Core.Path.{◌≡◌, refl, ap}
use mathlib.Core.WellFounded
use native.Mathlib.Nat.{pow-suc, one-le-pow, div-add-mod}
use native.Mathlib.Omega.{arith}
use livekit_server_cpp.Common.Order.{lt_wf}

module _ (z : ℕ → ℕ) (f : ℕ → ℕ → ℕ) where
  -- More fuel than digits changes nothing.
  digits_enough : (k a b : ℕ) → a ≤ k → digits z f k a b ≡ digits z f a a b
  digits_enough k a =
      WellFounded.induction lt_wf {C = λ n. (k b : ℕ) → n ≤ k → digits z f k n b ≡ digits z f n n b}
        a (λ n ih k b h. go n ih k b h) k
    where
      go :
          (n : ℕ)
          → ((m : ℕ) → m < n → (k b : ℕ) → m ≤ k → digits z f k m b ≡ digits z f m m b)
          → (k b : ℕ) → n ≤ k
          → digits z f k n b ≡ digits z f n n b
      go zero ih zero b h = refl
      go zero ih (suc k) b h = refl
      go (suc n) ih zero b h = absurd (omega arith)
      go (suc n) ih (suc k) b h = omega (
        arith,
        ih (suc n / 2) (omega arith) k (b / 2) (omega arith),
        ih (suc n / 2) (omega arith) n (b / 2) (omega arith),
      )

  digits_halve :
      (a b : ℕ)
      → digits z f (suc a) (suc a) b
        ≡ digits z f (suc a / 2) (suc a / 2) (b / 2) * 2 + f (suc a % 2) (b % 2)
  digits_halve a b = omega (arith, digits_enough a (suc a / 2) (b / 2) (omega arith))

bit_or_halve : (a b : ℕ) → bit_or a b ≡ bit_or (a / 2) (b / 2) * 2 + max (a % 2) (b % 2)
bit_or_halve zero b = simp bit_or-bitwise (omega arith)
bit_or_halve (suc a) b = simp bit_or-bitwise (digits_halve (λ y. y) max a b)

bit_and_halve : (a b : ℕ) → bit_and a b ≡ bit_and (a / 2) (b / 2) * 2 + min (a % 2) (b % 2)
bit_and_halve zero b = simp bit_and-bitwise (omega arith)
bit_and_halve (suc a) b = simp bit_and-bitwise (digits_halve (λ y. 0) min a b)

zero-differ : (b : ℕ) → differ 0 b ≡ b
zero-differ b = refl

bit_xor_halve : (a b : ℕ) → bit_xor a b ≡ bit_xor (a / 2) (b / 2) * 2 + differ (a % 2) (b % 2)
bit_xor_halve zero b = simp bit_xor-bitwise (omega arith)
bit_xor_halve (suc a) b = simp bit_xor-bitwise (digits_halve (λ y. y) differ a b)

bit_or-zero : (a : ℕ) → bit_or a 0 ≡ a
bit_or-zero a = WellFounded.induction lt_wf {C = λ n. bit_or n 0 ≡ n} a go
  where
    go : (n : ℕ) → ((m : ℕ) → m < n → bit_or m 0 ≡ m) → bit_or n 0 ≡ n
    go zero ih = refl
    go (suc n) ih = omega (arith, bit_or_halve (suc n) 0, ih (suc n / 2) (omega arith))

zero-bit_or : (b : ℕ) → bit_or 0 b ≡ b
zero-bit_or b = bit_or-bitwise 0 b

bit_and-zero : (a : ℕ) → bit_and a 0 ≡ 0
bit_and-zero a = WellFounded.induction lt_wf {C = λ n. bit_and n 0 ≡ 0} a go
  where
    go : (n : ℕ) → ((m : ℕ) → m < n → bit_and m 0 ≡ 0) → bit_and n 0 ≡ 0
    go zero ih = refl
    go (suc n) ih = omega (arith, bit_and_halve (suc n) 0, ih (suc n / 2) (omega arith))

double_shift : (q k : ℕ) → q * 2 ^ suc k ≡ 2 * (q * 2 ^ k)
double_shift q k = omega (arith, ap (λ (t : ℕ). q * t) (pow-suc 2 k))

-- A shift to the left leaves room for `k` bits, and `|` fills them.
pub bit_or_shift : (k q r : ℕ) → r < 2 ^ k → bit_or (q * 2 ^ k) r ≡ q * 2 ^ k + r
bit_or_shift zero q r h = ground (arith, bit_or-zero q)
bit_or_shift (suc k) q r h =
    ground (
      arith,
      double_shift q k,
      pow-suc 2 k,
      bit_or_halve (q * 2 ^ suc k) r,
      bit_or_shift k q (r / 2),
    )

mod-double : (a m : ℕ) → 0 < m → a % (2 * m) ≡ a / 2 % m * 2 + a % 2
mod-double a m h = grind (arith, div-add-mod (a / 2) m)

-- A mask of `k` ones keeps the low `k` bits.
pub bit_and_ones : (k a : ℕ) → bit_and a (2 ^ k - 1) ≡ a % 2 ^ k
bit_and_ones zero a = omega (arith, bit_and-zero a)
bit_and_ones (suc k) a = ground (
  arith,
  pow-suc 2 k,
  one-le-pow k 2,
  mod-double a (2 ^ k),
  bit_and_halve a (2 ^ suc k - 1),
  bit_and_ones k (a / 2),
)

pub bit_or-lt : (k a b : ℕ) → a < 2 ^ k → b < 2 ^ k → bit_or a b < 2 ^ k
bit_or-lt zero a b p q = ground (arith, bit_or-zero a)
bit_or-lt (suc k) a b p q =
    ground (arith, pow-suc 2 k, bit_or_halve a b, bit_or-lt k (a / 2) (b / 2))

differ-le : (a b : ℕ) → a < 2 → b < 2 → (differ a b < 2) × (differ a b ≡ 0 → a ≡ b)
differ-le zero b p q = omega arith
differ-le (suc zero) zero p q = omega arith
differ-le (suc zero) (suc zero) p q = omega arith
differ-le (suc zero) (suc (suc b)) p q = absurd (omega arith)
differ-le (suc (suc a)) b p q = absurd (omega arith)

differ_self : (a : ℕ) → differ a a ≡ 0
differ_self zero = refl
differ_self (suc a) = differ_self a

pub bit_xor-lt : (k a b : ℕ) → a < 2 ^ k → b < 2 ^ k → bit_xor a b < 2 ^ k
bit_xor-lt zero a b p q = ground (arith, bit_xor_halve a b)
bit_xor-lt (suc k) a b p q =
    ground (
      arith,
      pow-suc 2 k,
      bit_xor_halve a b,
      differ-le (a % 2) (b % 2),
      bit_xor-lt k (a / 2) (b / 2),
    )

-- `|` is zero only where both are; `^` is zero only where the two are the same.
pub bit_or-eq-zero : (k a b : ℕ) → a < 2 ^ k → bit_or a b ≡ 0 → (a ≡ 0) × (b ≡ 0)
bit_or-eq-zero zero zero b p h = omega (arith, zero-bit_or b)
bit_or-eq-zero zero (suc a) b p h = absurd (omega arith)
bit_or-eq-zero (suc k) a b p h =
    ground (arith, pow-suc 2 k, bit_or_halve a b, bit_or-eq-zero k (a / 2) (b / 2))

pub eq_of_bit_xor : (k a b : ℕ) → a < 2 ^ k → b < 2 ^ k → bit_xor a b ≡ 0 → a ≡ b
eq_of_bit_xor zero a b p q h = omega arith
eq_of_bit_xor (suc k) a b p q h = ground (
  arith,
  pow-suc 2 k,
  bit_xor_halve a b,
  differ-le (a % 2) (b % 2),
  eq_of_bit_xor k (a / 2) (b / 2),
)

pub bit_xor_self : (a : ℕ) → bit_xor a a ≡ 0
bit_xor_self a = WellFounded.induction lt_wf {C = λ n. bit_xor n n ≡ 0} a go
  where
    go : (n : ℕ) → ((m : ℕ) → m < n → bit_xor m m ≡ 0) → bit_xor n n ≡ 0
    go zero ih = refl
    go (suc n) ih = omega (
      arith,
      bit_xor_halve (suc n) (suc n),
      differ_self (suc n % 2),
      ih (suc n / 2) (omega arith),
    )

-- A test that every number below a bound passes.
unfoldable pub passes_to : (ℕ → Bool) → ℕ → Bool
passes_to test zero = true
passes_to test (suc bound) = passes_to test bound && test bound

pub passes_to-below :
    (test : ℕ → Bool) (bound : ℕ) {v : ℕ} → v < bound → passes_to test bound ≡ true → test v ≡ true
unfolding passes_to
passes_to-below test zero below h = absurd (omega arith)
passes_to-below test (suc bound) {v} below h = ground (arith, passes_to-below test bound {v = v})
