-- ===== src/CApi/StringMap/Refinement.antt =====
-- `StringMap` as a map: its pairs are in order, and hold what the object's fields hold.
use livekit_server_cpp.CApi.Fields.{as_string}
use livekit_server_cpp.CApi.StringMap.{less, emplace, emplace_all, string_map}
use livekit_server_cpp.Common.{
  ◌≡◌, refl, sym, ap, ◌∙◌, arith, Bool, true, false, Option, none, some, List, [], ◌∷◌, Bytes,
  if◌then◌else◌, equal, equal_iff, Bool-cases, inl, inr,
}
use livekit_server_cpp.Error.{ok, bind-eq-ok, ok-injective}
use livekit_server_cpp.Struct.{Value, Struct, find_field}

less_self : (s : Bytes) → less s s ≡ false
unfolding less
less_self [] = refl
less_self (c ∷ s) = ground (arith, less_self s)

less_trans : (s t u : Bytes) → less s t ≡ true → less t u ≡ true → less s u ≡ true
unfolding less
less_trans [] t [] h k = ground arith
less_trans [] t (e ∷ u) h k = refl
less_trans (c ∷ s) [] u h k = cc
less_trans (c ∷ s) (d ∷ t) [] h k = cc
less_trans (c ∷ s) (d ∷ t) (e ∷ u) h k = ground (arith, less_trans s t u)

pub eq_of_less : (s t : Bytes) → less s t ≡ false → less t s ≡ false → s ≡ t
unfolding less
eq_of_less [] [] h k = refl
eq_of_less [] (d ∷ t) h k = cc
eq_of_less (c ∷ s) [] h k = cc
eq_of_less (c ∷ s) (d ∷ t) h k = ground (arith, eq_of_less s t)

-- The first key is above a key, and the keys ascend.
abbrev pub IsAbove : Bytes → List (Bytes × Bytes) → Type 0
IsAbove key [] = Unit {0}
IsAbove key ((other, content) ∷ pairs) = less key other ≡ true

abbrev pub IsAscending : List (Bytes × Bytes) → Type 0
IsAscending [] = Unit {0}
IsAscending ((key, value) ∷ pairs) = IsAbove key pairs × IsAscending pairs

-- `find` in the pairs.
unfoldable pub lookup : Bytes → List (Bytes × Bytes) → Option Bytes
lookup name [] = none
lookup name ((key, value) ∷ pairs) = if equal key name then some value else lookup name pairs

abbrev pub first_of : Option Bytes → Option Bytes → Option Bytes
first_of none second = second
first_of (some value) second = some value

IsAbove-trans :
    (low key : Bytes) (pairs : List (Bytes × Bytes))
    → less low key ≡ true
    → IsAbove key pairs
    → IsAbove low pairs
IsAbove-trans low key [] h k = tt
IsAbove-trans low key ((other, content) ∷ pairs) h k = less_trans low key other h k

pub lookup-above :
    (key : Bytes) (pairs : List (Bytes × Bytes))
    → IsAbove key pairs
    → IsAscending pairs
    → lookup key pairs ≡ none
unfolding lookup
lookup-above key [] h k = refl
lookup-above key ((other, content) ∷ pairs) h (above, k) = elim (Bool-cases (equal other key)) [
  | inl e ↦
      let same = (equal_iff other key).0 e in
      let clash = sym h ∙ ap (less key) same ∙ less_self key in cc
  | inr e ↦ rw e (lookup-above key pairs (IsAbove-trans key other pairs h above) k)
]

emplace-IsAbove :
    (low key value : Bytes) (pairs : List (Bytes × Bytes))
    → less low key ≡ true
    → IsAbove low pairs
    → IsAbove low (emplace key value pairs)
unfolding emplace
emplace-IsAbove low key value [] h k = h
emplace-IsAbove low key value ((other, content) ∷ pairs) h k =
    ground (arith, Bool-cases (less key other), Bool-cases (less other key))

emplace-IsAscending :
    (key value : Bytes) (pairs : List (Bytes × Bytes))
    → IsAscending pairs
    → IsAscending (emplace key value pairs)
unfolding emplace
emplace-IsAscending key value [] h = (tt, tt)
emplace-IsAscending key value ((other, content) ∷ pairs) (above, h) =
    elim (Bool-cases (less key other)) [
      | inl e ↦ rw e (e, (above, h))
      | inr e ↦ elim (Bool-cases (less other key)) [
        | inl e' ↦
            rw (e, e')
              (
                emplace-IsAbove other key value pairs e' above,
                emplace-IsAscending key value pairs h,
              )
        | inr e' ↦ rw (e, e') (above, h)
      ]
    ]

first_of-none : (first : Option Bytes) → first_of first none ≡ first
first_of-none none = refl
first_of-none (some value) = refl

first_of_assoc :
    (first second third : Option Bytes)
    → first_of (first_of first second) third ≡ first_of first (first_of second third)
first_of_assoc none second third = refl
first_of_assoc (some value) second third = refl

lookup-emplace :
    (name key value : Bytes) (pairs : List (Bytes × Bytes))
    → IsAscending pairs
    → lookup name (emplace key value pairs)
      ≡ first_of (lookup name pairs) (if equal key name then some value else none)
unfolding emplace lookup
lookup-emplace name key value [] h = refl
lookup-emplace name key value ((other, content) ∷ pairs) (above, h) =
    elim (Bool-cases (less key other)) [
      | inl e ↦ elim (Bool-cases (equal key name)) [
        | inl n ↦
            let same = (equal_iff key name).0 n in
            let absent =
              ap (λ k. lookup k ((other, content) ∷ pairs)) (sym same)
              ∙ lookup-above key ((other, content) ∷ pairs) e (above, h) in
            ground (arith, absent)
        | inr n ↦ ground (arith, first_of-none (lookup name pairs))
      ]
      | inr e ↦ elim (Bool-cases (less other key)) [
        | inl e' ↦ ground (arith, lookup-emplace name key value pairs h)
        | inr e' ↦
            let same = ap (λ k. equal k name) (eq_of_less key other e e') in
            ground (arith, same, first_of-none (lookup name pairs))
      ]
    ]

-- The text of a value that is one.
abbrev pub text_of : Option Value → Option Bytes
text_of (some (Value.string content)) = some content
text_of _ = none

text_of-if :
    (test : Bool) (content : Bytes) (rest : Option Value)
    → text_of (if test then some (Value.string content) else rest)
      ≡ first_of (if test then some content else none) (text_of rest)
text_of-if true content rest = refl
text_of-if false content rest = refl

-- Reading a value as text succeeds on texts only.
as_string-eq-ok :
    (value : Value) {content : Bytes} → as_string value ≡ ok content → value ≡ Value.string content
unfolding as_string
as_string-eq-ok (Value.string t) h = ap Value.string (ok-injective h)
as_string-eq-ok Value.not_set h = cc
as_string-eq-ok Value.null h = cc
as_string-eq-ok (Value.number n) h = cc
as_string-eq-ok (Value.bool b) h = cc
as_string-eq-ok (Value.struct o) h = cc
as_string-eq-ok (Value.list vs) h = cc

pub emplace_all-refines :
    (result pairs : List (Bytes × Bytes)) (object : Struct)
    → IsAscending result
    → emplace_all result object ≡ ok pairs
    → IsAscending pairs
      × ((name : Bytes)
          → lookup name pairs ≡ first_of (lookup name result) (text_of (find_field name object)))
unfolding emplace_all find_field
emplace_all-refines result pairs Struct.empty h e =
    rw (← ok-injective e) (h, λ name. sym (first_of-none (lookup name result)))
emplace_all-refines result pairs (Struct.field key value fields) h e =
    let (content, e₁, e₂) = bind-eq-ok (as_string value) _ e in
    let (ascending, found) =
      emplace_all-refines (emplace key content result) pairs fields
        (emplace-IsAscending key content result h) e₂ in
    (
      ascending,
      λ name.
          found name
          ∙ ap (λ before. first_of before (text_of (find_field name fields)))
              (lookup-emplace name key content result h)
          ∙ first_of_assoc (lookup name result) (if equal key name then some content else none) _
          ∙ ap (first_of (lookup name result)) (
              sym (text_of-if (equal key name) content (find_field name fields))
              ∙ ap (λ v. text_of (if equal key name then some v else find_field name fields))
                  (sym (as_string-eq-ok value e₁))),
    )

-- All fields are texts.
abbrev pub all_texts : Struct → Bool
all_texts Struct.empty = true
all_texts (Struct.field key (Value.string content) fields) = all_texts fields
all_texts (Struct.field key _ fields) = false

pub emplace_all-total :
    (result : List (Bytes × Bytes)) (object : Struct)
    → all_texts object ≡ true
    → (pairs : List (Bytes × Bytes)) × (emplace_all result object ≡ ok pairs)
unfolding emplace_all as_string
emplace_all-total result Struct.empty h = (result, refl)
emplace_all-total result (Struct.field key (Value.string content) fields) h =
    emplace_all-total (emplace key content result) fields h
emplace_all-total result (Struct.field key Value.not_set fields) h = cc
emplace_all-total result (Struct.field key Value.null fields) h = cc
emplace_all-total result (Struct.field key (Value.number n) fields) h = cc
emplace_all-total result (Struct.field key (Value.bool b) fields) h = cc
emplace_all-total result (Struct.field key (Value.struct o) fields) h = cc
emplace_all-total result (Struct.field key (Value.list vs) fields) h = cc

-- Where all fields of an object are texts, `StringMap` returns pairs in the strict order of their
-- keys, and finding a name in them gives the text of the field of that name, or nothing.
pub string_map-refines :
    (object : Struct) (name : Bytes)
    → all_texts object ≡ true
    → (pairs : List (Bytes × Bytes)) × (string_map object ≡ ok pairs)
      × IsAscending pairs
      × (lookup name pairs ≡ text_of (find_field name object))
unfolding string_map lookup
string_map-refines object name h =
    let (pairs, e) = emplace_all-total [] object h in
    let (ascending, found) = emplace_all-refines [] pairs object tt e in
    (pairs, e, ascending, found name)
