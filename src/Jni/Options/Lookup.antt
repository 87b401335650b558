-- ===== src/Jni/Options/Lookup.antt =====
-- What is found in the translated options.
use livekit_server_cpp.Common.Lists.{equal, equal_iff}
use livekit_server_cpp.Common.{
  ◌⊎◌, subst, codes, ◌≡◌, ◌≢◌, refl, sym, ap, ◌∙◌, arith, true, false, Option, none, some, Bytes,
  Bool-cases, inl, inr, if◌then◌else◌,
}
use livekit_server_cpp.Jni.{struct_value}
use livekit_server_cpp.Jni.Options.Names.{
  IsPlain, equal-option_name, Words, IsCamel, camel, snake, option_name-camel,
}
use livekit_server_cpp.Jni.Options.{
  set_field, option_name, translate_onto, plain_options, is_grant, grant_value, grant_options,
}
use livekit_server_cpp.Struct.{Value, Struct, find_field}

equal-other :
    (name key other : Bytes)
    → equal other key ≡ false
    → equal other name ≡ true
    → equal key name ≡ false
equal-other name key other e f = elim (Bool-cases (equal key name)) [
  | inl g ↦
      let same = (equal_iff other name).0 f ∙ sym ((equal_iff key name).0 g) in
      let known = (equal_iff other key).1 same in (cc)
  | inr g ↦ g
]

pub find_field-set_field :
    (name key : Bytes) (value : Value) (object : Struct)
    → find_field name (set_field key value object)
      ≡ (if equal key name then some value else find_field name object)
unfolding set_field find_field
find_field-set_field name key value Struct.empty = refl
find_field-set_field name key value (Struct.field other content fields) =
    elim (Bool-cases (equal other key)) [
      | inl e ↦
          let same = ap (λ k. equal k name) ((equal_iff other key).0 e) in
          ground (arith, Bool-cases (equal other name), same)
      | inr e ↦
          let rest = find_field-set_field name key value fields in
          elim (Bool-cases (equal other name)) [
            | inl f ↦ let differ = equal-other name key other e f in ground (arith, rest)
            | inr f ↦ ground (arith, rest)
          ]
    ]

abbrev pub AllPlain : Struct → Type 0
AllPlain Struct.empty = Unit
AllPlain (Struct.field key value fields) = IsPlain key × AllPlain fields

abbrev pub IsUnique : Struct → Type 0
IsUnique Struct.empty = Unit
IsUnique (Struct.field key value fields) = (find_field key fields ≡ none) × IsUnique fields

-- The changed value of a field, or else what was there before.
overlay : (Value → Value) → Option Value → Option Value → Option Value
overlay change none before = before
overlay change (some value) before = some (change value)

find_field-translate_onto :
    (change : Bytes → Value → Value) (name : Bytes) (source result : Struct)
    → IsPlain name
    → AllPlain source
    → IsUnique source
    → find_field (option_name name) (translate_onto change result source)
      ≡ overlay (change name) (find_field name source) (find_field (option_name name) result)
unfolding translate_onto overlay find_field
find_field-translate_onto change name Struct.empty result h p u = refl
find_field-translate_onto change name (Struct.field key value source) result h (k, p) (q, u) =
    let next = set_field (option_name key) (change key value) result in
    let rest = find_field-translate_onto change name source next h p u in
    let found =
      find_field-set_field (option_name name) (option_name key) (change key value) result in
    let same = equal-option_name name key h k in
    elim (Bool-cases (equal key name)) [
      | inl e ↦
          let known = (equal_iff key name).0 e in
          let absent : find_field name source ≡ none =
            ap (λ n. find_field n source) (sym known) ∙ q in
          let changed = ap (λ n. change n value) known in ground arith
      | inr e ↦ ground arith
    ]

abbrev pub change_option : (Value → Value) → Option Value → Option Value
change_option change none = none
change_option change (some value) = some (change value)

overlay-none :
    (change : Value → Value) (found : Option Value)
    → overlay change found none ≡ change_option change found
unfolding overlay
overlay-none change none = refl
overlay-none change (some value) = refl

change_option-same : (found : Option Value) → change_option (λ value. value) found ≡ found
change_option-same none = refl
change_option-same (some value) = refl

-- What is found in the options of a token: the options of a grant are translated themselves, every
-- other value is Java's.
abbrev pub IsGranted : Bytes → Option Value → Option Value → Type 0
IsGranted name given found =
    (((name ≡ codes "video") ⊎ (name ≡ codes "sip") ⊎ (name ≡ codes "agent"))
      × (found ≡ change_option (λ value. Value.struct (plain_options (struct_value value))) given))
    ⊎ ((name ≢ codes "video") × (name ≢ codes "sip") × (name ≢ codes "agent") × (found ≡ given))

unequal : (name other : Bytes) → equal name other ≡ false → name ≢ other
unequal name other h e = let same = (equal_iff name other).1 e in cc

grant_value-grant :
    (name : Bytes) (given : Option Value)
    → is_grant name ≡ true
    → change_option (grant_value name) given
      ≡ change_option (λ value. Value.struct (plain_options (struct_value value))) given
unfolding grant_value
grant_value-grant name none h = refl
grant_value-grant name (some value) h = rw h refl

grant_value-other :
    (name : Bytes) (given : Option Value)
    → is_grant name ≡ false
    → change_option (grant_value name) given ≡ given
unfolding grant_value
grant_value-other name none h = refl
grant_value-other name (some value) h = rw h refl

grant_value-IsGranted :
    (name : Bytes) (given : Option Value)
    → IsGranted name given (change_option (grant_value name) given)
grant_value-IsGranted name given = elim (Bool-cases (equal name (codes "video"))) [
  | inl e ↦
      inl (inl ((equal_iff name (codes "video")).0 e), grant_value-grant name given (ground arith))
  | inr e ↦ elim (Bool-cases (equal name (codes "sip"))) [
    | inl f ↦ inl (
      inr (inl ((equal_iff name (codes "sip")).0 f)),
      grant_value-grant name given (ground arith),
    )
    | inr f ↦ elim (Bool-cases (equal name (codes "agent"))) [
      | inl g ↦ inl (
        inr (inr ((equal_iff name (codes "agent")).0 g)),
        grant_value-grant name given (ground arith),
      )
      | inr g ↦ inr (
        unequal name (codes "video") e,
        unequal name (codes "sip") f,
        unequal name (codes "agent") g,
        grant_value-other name given (ground arith),
      )
    ]
  ]
]

-- If no name among the options holds an underscore and none occurs twice, what Java gives under a name
-- without underscores, of words that begin with capitals, is what the C API finds under the same words
-- in small letters, each after an underscore but the first, and where Java gives nothing, nothing is
-- found. The values are Java's, but the options of a video, a SIP and an agent grant of a token are
-- translated themselves.
pub find_field-options :
    (words : Words) (source : Struct)
    → IsCamel words
    → IsPlain (camel words)
    → AllPlain source
    → IsUnique source
    → (find_field (snake words) (plain_options source) ≡ find_field (camel words) source)
      × IsGranted
          (camel words)
          (find_field (camel words) source)
          (find_field (snake words) (grant_options source))
unfolding plain_options grant_options find_field
find_field-options words source c h p u =
    let name = camel words in
    let plain = find_field-translate_onto (λ key value. value) name source Struct.empty h p u in
    let granted = find_field-translate_onto grant_value name source Struct.empty h p u in
    let found = find_field name source in
    let same = option_name-camel words c in
    (
      ap (λ n. find_field n (plain_options source)) (sym same)
          ∙ plain
          ∙ overlay-none (λ value. value) found
          ∙ change_option-same found,
      subst (λ result. IsGranted name found result)
          (sym (
            ap (λ n. find_field n (grant_options source)) (sym same)
            ∙ granted
            ∙ overlay-none (grant_value name) found))
          (grant_value-IsGranted name found),
    )
