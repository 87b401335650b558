-- ===== src/Common/Ascii.antt =====
-- Membership of a character in an alphabet that is written out, and tests that agree with it.
use Prim.Native.Nat.{ℕ, ◌≤◌}
use mathlib.Core.Bool.{Bool, true, false, not, ◌&&◌, ◌||◌}
use mathlib.Core.List.{List, [], ◌∷◌}
use mathlib.Core.Path.{◌≡◌, refl, sym, ◌∙◌}
use mathlib.Core.Logic.{◌↔◌, ◌⊎◌, inl, inr}
use native.Mathlib.Omega.{arith}
use livekit_server_cpp.Common.Bits.{passes_to, passes_to-below}
use livekit_server_cpp.Common.Tests.{ltb, ◌==◌, Bool-cases}

abbrev pub is_in : ℕ → List ℕ → Bool
is_in c [] = false
is_in c (d ∷ ds) = c == d || is_in c ds

abbrev pub IsIn : ℕ → List ℕ → Type 0
IsIn c [] = ⊥
IsIn c (d ∷ ds) = (c ≡ d) ⊎ IsIn c ds

pub is_in_iff : (c : ℕ) (ds : List ℕ) → (is_in c ds ≡ true) ↔ IsIn c ds
is_in_iff c [] = (λ h. absurd (ground arith), λ h. absurd h)
is_in_iff c (d ∷ ds) = ground (arith, is_in_iff c ds)

abbrev pub all_ascii : List ℕ → Bool
all_ascii [] = true
all_ascii (c ∷ cs) = ltb c 128 && all_ascii cs

is_in-ascii : (c : ℕ) (ds : List ℕ) → 128 ≤ c → all_ascii ds ≡ true → is_in c ds ≡ false
is_in-ascii c [] h k = refl
is_in-ascii c (d ∷ ds) h k = ground (arith, is_in-ascii c ds h)

abbrev pub agree : Bool → Bool → Bool
agree true test = test
agree false test = not test

agree-same : (known test : Bool) → agree known test ≡ true → known ≡ test
agree-same true true h = refl
agree-same true false h = sym h
agree-same false true h = h
agree-same false false h = refl

-- A test that holds of no character above ASCII is membership, if it is so on ASCII.
pub is_in-test :
    (alphabet : List ℕ) (test : ℕ → Bool)
    → all_ascii alphabet ≡ true
    → passes_to (λ c. agree (is_in c alphabet) (test c)) 128 ≡ true
    → ((c : ℕ) → 128 ≤ c → test c ≡ false)
    → (c : ℕ) → is_in c alphabet ≡ test c
is_in-test alphabet test plain table above c = elim (Bool-cases (ltb c 128)) [
  | inl h ↦
      agree-same (is_in c alphabet) (test c)
        (passes_to-below (λ c. agree (is_in c alphabet) (test c)) 128 {v = c} (ground arith) table)
  | inr h ↦ let big : 128 ≤ c = ground arith in is_in-ascii c alphabet big plain ∙ sym (above c big)
]
