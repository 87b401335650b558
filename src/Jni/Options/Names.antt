-- ===== src/Jni/Options/Names.antt =====
-- The names of options, in Java and in the C API.
use livekit_server_cpp.Common.Lists.{equal, equal_iff}
use livekit_server_cpp.Common.{
  ℕ, ◌≤◌, ◌++◌, List, ap₂, not, ◌+◌, ◌-◌, ◌≡◌, ◌≢◌, refl, sym, ap, ◌∙◌, arith, Bool, true, false,
  ◌&&◌, [], ◌∷◌, Bytes, Bool-cases, inl, inr, leb,
}
use livekit_server_cpp.Curl.Lines.{has_byte}
use livekit_server_cpp.Jni.Options.{option_name}

-- No underscore in a name.
abbrev pub IsPlain : Bytes → Type 0
IsPlain name = has_byte b'_' name ≡ false

abbrev is_capital : ℕ → Bool
is_capital ch = leb b'A' ch && leb ch b'Z'

option_name-capital :
    (c : ℕ) (name : Bytes)
    → is_capital c ≡ true
    → option_name (c ∷ name) ≡ b'_' ∷ (c + b'a' - b'A') ∷ option_name name
unfolding option_name
option_name-capital c name a = rw a refl

option_name-other :
    (c : ℕ) (name : Bytes) → is_capital c ≡ false → option_name (c ∷ name) ≡ c ∷ option_name name
unfolding option_name
option_name-other c name a = rw a refl

option_name-nil : (c : ℕ) (name : Bytes) → option_name (c ∷ name) ≢ []
option_name-nil c name e = elim (Bool-cases (is_capital c)) [
  | inl a ↦ let shape = option_name-capital c name a in cc
  | inr a ↦ let shape = option_name-other c name a in cc
]

-- An underscore at the start comes from a capital.
option_name-same :
    (c d : ℕ) (name key : Bytes)
    → has_byte b'_' (c ∷ name) ≡ false
    → is_capital c ≡ false
    → is_capital d ≡ true
    → option_name (c ∷ name) ≢ option_name (d ∷ key)
unfolding has_byte
option_name-same c d name key h a b e =
    let left = option_name-other c name a in
    let right = option_name-capital d key b in let same : c ≡ b'_' = cc in ground arith

option_name-injective :
    (name key : Bytes)
    → IsPlain name
    → IsPlain key
    → option_name name ≡ option_name key
    → name ≡ key
unfolding option_name has_byte
option_name-injective [] [] h k e = refl
option_name-injective [] (d ∷ key) h k e = elim (option_name-nil d key (sym e)) [ ]
option_name-injective (c ∷ name) [] h k e = elim (option_name-nil c name e) [ ]
option_name-injective (c ∷ name) (d ∷ key) h k e =
    let h' : IsPlain name = ground arith in
    let k' : IsPlain key = ground arith in
    let rest = option_name-injective name key h' k' in
    elim (Bool-cases (is_capital c)) [
      | inl a ↦
          let left = option_name-capital c name a in
          elim (Bool-cases (is_capital d)) [
            | inl b ↦
                let right = option_name-capital d key b in
                let same : option_name name ≡ option_name key = cc in
                let shift : c + b'a' - b'A' ≡ d + b'a' - b'A' = cc in
                let head : c ≡ d = omega arith in let tail = rest same in cc
            | inr b ↦ elim (option_name-same d c key name k b a (sym e)) [ ]
          ]
      | inr a ↦ elim (Bool-cases (is_capital d)) [
        | inl b ↦ elim (option_name-same c d name key h a b e) [ ]
        | inr b ↦
            let left = option_name-other c name a in
            let right = option_name-other d key b in
            let same : option_name name ≡ option_name key = cc in
            let head : c ≡ d = cc in let tail = rest same in cc
      ]
    ]

-- What a plain name is translated to is equal to another's translation exactly if the names are.
pub equal-option_name :
    (name key : Bytes)
    → IsPlain name
    → IsPlain key
    → equal (option_name key) (option_name name) ≡ equal key name
equal-option_name name key h k = elim (Bool-cases (equal key name)) [
  | inl e ↦
      let same = ap option_name ((equal_iff key name).0 e) in
      (equal_iff (option_name key) (option_name name)).1 same ∙ sym e
  | inr e ↦ elim (Bool-cases (equal (option_name key) (option_name name))) [
    | inl f ↦
        let same =
          option_name-injective key name k h
            ((equal_iff (option_name key) (option_name name)).0 f) in
        let known = (equal_iff key name).1 same in (cc)
    | inr f ↦ f ∙ sym e
  ]
]

-- A name of Java: a first word, and words that a capital begins. No other capitals stand in it.
pub record Words : Type 0 where
  pub first : Bytes
  pub others : List (ℕ × Bytes)

abbrev no_capital : Bytes → Bool
no_capital [] = true
no_capital (c ∷ text) = not (is_capital c) && no_capital text

abbrev AreWords : List (ℕ × Bytes) → Type 0
AreWords [] = Unit
AreWords ((capital, tail) ∷ words) =
    (b'A' ≤ capital) × (capital ≤ b'Z') × (no_capital tail ≡ true) × AreWords words

abbrev pub IsCamel : Words → Type 0
IsCamel words = (no_capital words.first ≡ true) × AreWords words.others

abbrev camel_words : List (ℕ × Bytes) → Bytes
camel_words [] = []
camel_words ((capital, tail) ∷ words) = capital ∷ (tail ++ camel_words words)

-- The name in Java, as in `apiKey`.
abbrev pub camel : Words → Bytes
camel words = words.first ++ camel_words words.others

abbrev snake_words : List (ℕ × Bytes) → Bytes
snake_words [] = []
snake_words ((capital, tail) ∷ words) = b'_' ∷ (capital + 32) ∷ (tail ++ snake_words words)

-- The name in the C API, as in `api_key`.
abbrev pub snake : Words → Bytes
snake words = words.first ++ snake_words words.others

option_name-append :
    (text rest : Bytes)
    → no_capital text ≡ true
    → option_name (text ++ rest) ≡ text ++ option_name rest
option_name-append [] rest h = refl
option_name-append (c ∷ text) rest h =
    option_name-other c (text ++ rest) (ground arith)
    ∙ ap (λ name. c ∷ name) (option_name-append text rest (ground arith))

option_name-words :
    (words : List (ℕ × Bytes))
    → AreWords words
    → option_name (camel_words words) ≡ snake_words words
unfolding option_name
option_name-words [] h = refl
option_name-words ((capital, tail) ∷ words) (low, high, small, h) =
    let shift : capital + b'a' - b'A' ≡ capital + 32 = omega arith in
    option_name-capital capital (tail ++ camel_words words) (ground arith)
    ∙ ap₂ (λ letter name. b'_' ∷ letter ∷ name) shift
        (option_name-append tail (camel_words words) small
          ∙ ap (λ name. tail ++ name) (option_name-words words h))

pub option_name-camel : (words : Words) → IsCamel words → option_name (camel words) ≡ snake words
option_name-camel words (small, h) =
    option_name-append words.first (camel_words words.others) small
    ∙ ap (λ name. words.first ++ name) (option_name-words words.others h)
