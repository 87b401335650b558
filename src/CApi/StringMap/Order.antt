-- ===== src/CApi/StringMap/Order.antt =====
-- `StringMap` and the order in which protobuf's map passes its fields, which is not specified.
use livekit_server_cpp.CApi.StringMap.Refinement.{
  IsAscending, lookup, lookup-above, eq_of_less, all_texts, text_of, emplace_all-refines,
  emplace_all-total,
}
use livekit_server_cpp.CApi.StringMap.{less, string_map}
use livekit_server_cpp.Common.Lists.{equal, equal_iff, equal_self}
use livekit_server_cpp.Common.{
  subst, ◌≡◌, ◌≢◌, refl, sym, ap, ◌∙◌, arith, true, none, some, List, [], ◌∷◌, Bytes, Bool-cases,
  inl, inr,
}
use livekit_server_cpp.Error.{ok}
use livekit_server_cpp.Struct.{Struct, find_field}

lookup_self :
    (key value : Bytes) (pairs : List (Bytes × Bytes))
    → lookup key ((key, value) ∷ pairs) ≡ some value
unfolding lookup
lookup_self key value pairs = rw (equal_self key) refl

-- Two lists with the same lookups do not start with keys of which one is above the other.
lookup-differs :
    (key value other content : Bytes) (p q : List (Bytes × Bytes))
    → less key other ≡ true
    → IsAscending ((other, content) ∷ q)
    → lookup key ((key, value) ∷ p) ≢ lookup key ((other, content) ∷ q)
lookup-differs key value other content p q e k same =
    let found = lookup_self key value p in
    let absent = lookup-above key ((other, content) ∷ q) e k in cc

tail_lem :
    (key value : Bytes) (p q : List (Bytes × Bytes))
    → IsAscending ((key, value) ∷ p)
    → IsAscending ((key, value) ∷ q)
    → ((name : Bytes) → lookup name ((key, value) ∷ p) ≡ lookup name ((key, value) ∷ q))
    → (name : Bytes) → lookup name p ≡ lookup name q
unfolding lookup
tail_lem key value p q (above, h) (above', k) same name = elim (Bool-cases (equal key name)) [
  | inl e ↦
      let known = (equal_iff key name).0 e in
      let left = ap (λ n. lookup n p) (sym known) ∙ lookup-above key p above h in
      let right = ap (λ n. lookup n q) (sym known) ∙ lookup-above key q above' k in left ∙ sym right
  | inr e ↦ ground (arith, same name)
]

same_key :
    (key value content : Bytes) (p q : List (Bytes × Bytes))
    → IsAscending ((key, value) ∷ p)
    → IsAscending ((key, content) ∷ q)
    → ((name : Bytes) → lookup name ((key, value) ∷ p) ≡ lookup name ((key, content) ∷ q))
    → (((name : Bytes) → lookup name p ≡ lookup name q) → p ≡ q)
    → (key, value) ∷ p ≡ (key, content) ∷ q
same_key key value content p q h k same rest =
    let left = lookup_self key value p in
    let right = lookup_self key content q in
    let equated = same key in
    let values : value ≡ content = cc in
    let moved =
      subst (λ v. (name : Bytes) → lookup name ((key, value) ∷ p) ≡ lookup name ((key, v) ∷ q))
        (sym values) same in
    let tails = rest (tail_lem key value p q h k moved) in cc

cons_lem :
    (key value other content : Bytes) (p q : List (Bytes × Bytes))
    → key ≡ other
    → IsAscending ((key, value) ∷ p)
    → IsAscending ((other, content) ∷ q)
    → ((name : Bytes) → lookup name ((key, value) ∷ p) ≡ lookup name ((other, content) ∷ q))
    → (((name : Bytes) → lookup name p ≡ lookup name q) → p ≡ q)
    → (key, value) ∷ p ≡ (other, content) ∷ q
cons_lem key value other content p q keys h k same rest =
    let moved = subst (λ o. IsAscending ((o, content) ∷ q)) (sym keys) k in
    let found =
      subst (λ o. (name : Bytes) → lookup name ((key, value) ∷ p) ≡ lookup name ((o, content) ∷ q))
        (sym keys) same in
    same_key key value content p q h moved found rest ∙ ap (λ o. (o, content) ∷ q) keys

IsAscending-unique :
    (p q : List (Bytes × Bytes))
    → IsAscending p
    → IsAscending q
    → ((name : Bytes) → lookup name p ≡ lookup name q)
    → p ≡ q
unfolding lookup
IsAscending-unique [] [] h k same = refl
IsAscending-unique [] ((other, content) ∷ q) h k same =
    let found = lookup_self other content q in
    let missing : lookup other [] ≡ none = refl in let equated = same other in cc
IsAscending-unique ((key, value) ∷ p) [] h k same =
    let found = lookup_self key value p in
    let missing : lookup key [] ≡ none = refl in let equated = same key in cc
IsAscending-unique ((key, value) ∷ p) ((other, content) ∷ q) h k same =
    elim (Bool-cases (less key other)) [
      | inl e ↦ absurd (lookup-differs key value other content p q e k (same key))
      | inr e ↦ elim (Bool-cases (less other key)) [
        | inl e' ↦ absurd (lookup-differs other content key value q p e' h (sym (same other)))
        | inr e' ↦
            cons_lem key value other content p q (eq_of_less key other e e') h k same
              (IsAscending-unique p q (h.1) (k.1))
      ]
    ]

-- Of two objects of texts in which the same text is found under each name, `StringMap` makes the same
-- map: the order of their fields does not matter, nor that of fields behind another of the same name.
pub string_map-same :
    (object other : Struct)
    → all_texts object ≡ true
    → all_texts other ≡ true
    → ((name : Bytes) → find_field name object ≡ find_field name other)
    → string_map object ≡ string_map other
unfolding string_map lookup
string_map-same object other h k same =
    let (pairs, e) = emplace_all-total [] object h in
    let (pairs', e') = emplace_all-total [] other k in
    let (ascending, found) = emplace_all-refines [] pairs object tt e in
    let (ascending', found') = emplace_all-refines [] pairs' other tt e' in
    e
    ∙ ap ok (
        IsAscending-unique pairs pairs' ascending ascending'
          (λ name. found name ∙ ap text_of (same name) ∙ sym (found' name)))
    ∙ sym e'
