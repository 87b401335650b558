-- ===== src/Token/Json/Read.antt =====
-- A reader of JSON text without white space. Fuel bounds the depth of the calls; three for each
-- byte of the text is enough (`RoundTrip`). A number may have leading zeros, and is an integer.
use livekit_server_cpp.Common.{
  ℕ, zero, suc, ◌+◌, ◌-◌, ◌*◌, Bool, true, false, ◌&&◌, ◌||◌, Option, none, some, [], ◌∷◌, Bytes,
  leb, ltb, ◌==◌, if◌then◌else◌, length,
}
use livekit_server_cpp.Common.Int.{pos, neg_ℕ}
use livekit_server_cpp.Token.Json.{Json, Items, Members}

infixl 5 ◌>>=◌
abbrev pub ◌>>=◌ : {A B : Type 0} → Option A → (A → Option B) → Option B
none >>= f = none
some a >>= f = f a

abbrev pub is_digit : ℕ → Bool
is_digit c = leb b'0' c && leb c b'9'

-- The value of a hexadecimal digit, in lower or upper case.
abbrev pub hex_value : ℕ → Option ℕ
hex_value c =
    if is_digit c
    then some (c - b'0')
    else if leb b'a' c && leb c b'f'
    then some (c - b'a' + 10)
    else if leb b'A' c && leb c b'F'
    then some (c - b'A' + 10)
    else none

-- The text `expected`, and what follows it.
unfoldable pub expect : Bytes → Bytes → Option Bytes
expect [] s = some s
expect (e ∷ es) [] = none
expect (e ∷ es) (c ∷ s) = if c == e then expect es s else none

-- Four hexadecimal digits of a code point below 0x80, which UTF-8 writes as one byte.
unfoldable pub read_code : Bytes → Option (ℕ × Bytes)
read_code (a ∷ b ∷ c ∷ d ∷ s) = do
  w ← hex_value a
  x ← hex_value b
  y ← hex_value c
  z ← hex_value d
  if w == 0 && x == 0 && ltb y 8 then some (y * 16 + z, s) else none
read_code _ = none

-- What follows a backslash.
unfoldable pub read_escape : Bytes → Option (ℕ × Bytes)
read_escape [] = none
read_escape (c ∷ s) =
    if c == b'"' || c == b'\\' || c == b'/'
    then some (c, s)
    else if c == b'b'
    then some (8, s)
    else if c == b'f'
    then some (12, s)
    else if c == b'n'
    then some (10, s)
    else if c == b'r'
    then some (13, s)
    else if c == b't'
    then some (9, s)
    else if c == b'u'
    then read_code s
    else none

abbrev pub cons_fst : ℕ → Option (Bytes × Bytes) → Option (Bytes × Bytes)
cons_fst c none = none
cons_fst c (some (text, s)) = some (c ∷ text, s)

-- A string, behind its opening quote.
unfoldable pub read_string : ℕ → Bytes → Option (Bytes × Bytes)
unfolding read_escape
read_string zero s = none
read_string (suc f) [] = none
read_string (suc f) (c ∷ s) = elim (c == b'"') [
  | true ↦ some ([], s)
  | false ↦ elim (c == b'\\') [
    | true ↦ read_escape s >>= λ p. cons_fst p.0 (read_string f p.1)
    | false ↦ elim (ltb c 0x20) [ true ↦ none | false ↦ cons_fst c (read_string f s) ]
  ]
]

-- The digits in front of the text, read after `n`.
unfoldable pub read_digits : ℕ → Bytes → ℕ × Bytes
read_digits n [] = (n, [])
read_digits n (c ∷ s) = elim (is_digit c) [
  | true ↦ read_digits (n * 10 + (c - b'0')) s
  | false ↦ (n, c ∷ s)
]

unfoldable pub read_number : Bytes → Option (ℕ × Bytes)
unfolding read_digits
read_number [] = none
read_number (c ∷ s) = if is_digit c then some (read_digits 0 (c ∷ s)) else none

unfoldable mutual
  unfolding read_string read_number expect

  pub read_value : ℕ → Bytes → Option (Json × Bytes)
  read_value zero s = none
  read_value (suc f) [] = none
  read_value (suc f) (c ∷ s) = elim (c == b'"') [
    | true ↦ read_string f s >>= λ p. some (Json.str p.0, p.1)
    | false ↦ elim (c == b'{') [
      | true ↦ read_object f s
      | false ↦ elim (c == b'[') [
        | true ↦ read_array f s
        | false ↦ elim (c == b't') [
          | true ↦ expect (b'r' ∷ b'u' ∷ b'e' ∷ []) s >>= λ r. some (Json.bool true, r)
          | false ↦ elim (c == b'f') [
            | true ↦ expect (b'a' ∷ b'l' ∷ b's' ∷ b'e' ∷ []) s >>= λ r. some (Json.bool false, r)
            | false ↦ elim (c == b'-') [
              | true ↦ read_number s >>= λ p. some (Json.num (neg_ℕ p.0), p.1)
              | false ↦ read_number (c ∷ s) >>= λ p. some (Json.num (pos p.0), p.1)
            ]
          ]
        ]
      ]
    ]
  ]

  pub read_array : ℕ → Bytes → Option (Json × Bytes)
  read_array zero s = none
  read_array (suc f) [] = none
  read_array (suc f) (c ∷ s) = elim (c == b']') [
    | true ↦ some (Json.arr Items.nil, s)
    | false ↦ read_items f (c ∷ s) >>= λ p. some (Json.arr p.0, p.1)
  ]

  -- One value at least, with commas between, and the bracket.
  pub read_items : ℕ → Bytes → Option (Items × Bytes)
  read_items zero s = none
  read_items (suc f) s = read_value f s >>= λ p. elim p.1 [
    | [] ↦ none
    | c ∷ r ↦ elim (c == b',') [
      | true ↦ read_items f r >>= λ q. some (Items.cons p.0 q.0, q.1)
      | false ↦ if c == b']' then some (Items.cons p.0 Items.nil, r) else none
    ]
  ]

  pub read_object : ℕ → Bytes → Option (Json × Bytes)
  read_object zero s = none
  read_object (suc f) [] = none
  read_object (suc f) (c ∷ s) = elim (c == b'}') [
    | true ↦ some (Json.obj Members.end, s)
    | false ↦ read_members f (c ∷ s) >>= λ p. some (Json.obj p.0, p.1)
  ]

  -- One member at least.
  pub read_members : ℕ → Bytes → Option (Members × Bytes)
  read_members zero s = none
  read_members (suc f) s = do
    named ← expect (b'"' ∷ []) s
    name ← read_string f named
    valued ← expect (b':' ∷ []) name.1
    value ← read_value f valued
    elim value.1 [
      | [] ↦ none
      | c ∷ r ↦ elim (c == b',') [
        | true ↦ read_members f r >>= λ q. some (Members.member name.0 value.0 q.0, q.1)
        | false ↦ if c == b'}' then some (Members.member name.0 value.0 Members.end, r) else none
      ]
    ]

-- A whole text.
unfoldable pub read_json : Bytes → Option Json
unfolding read_value
read_json s = read_value (3 * length s) s >>= λ p. elim p.1 [ [] ↦ some p.0 | c ∷ r ↦ none ]
