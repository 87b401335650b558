-- ===== src/Jni/Defaults.antt =====
-- The options of a token in Java, with the time and the defaults.
use livekit_server_cpp.CApi.Fields.{text}
use livekit_server_cpp.Common.Decimal.{decimal_int}
use livekit_server_cpp.Common.Int.{ℤ}
use livekit_server_cpp.Common.Lists.{equal, equal_iff}
use livekit_server_cpp.Common.{
  ◌≡◌, ◌⊎◌, inl, inr, refl, sym, ◌∙◌, false, Option, none, some, Bytes, codes, Bool-cases,
  Option-cases,
}
use livekit_server_cpp.Jni.Call.{default_field, token_options_at}
use livekit_server_cpp.Jni.Options.Lookup.{find_field-set_field}
use livekit_server_cpp.Jni.Options.{set_field, grant_options}
use livekit_server_cpp.Struct.{Value, Struct, find_field}

-- The options of a token: the translated ones of Java, the time under "now", and six hours under
-- "valid_for" if Java gives no lifetime.
pub record IsTokenOptions (now : ℤ) (source options : Struct) : Type 0 where
  pub time : find_field (codes "now") options ≡ some (text (decimal_int now))
  pub lifetime :
      ((find_field (codes "valid_for") (grant_options source) ≡ none)
        × (find_field (codes "valid_for") options ≡ some (text (codes "21600"))))
      ⊎ ((value : Value) × (find_field (codes "valid_for") (grant_options source) ≡ some value)
          × (find_field (codes "valid_for") options ≡ some value))
  pub others :
      (name : Bytes)
      → (name ≡ codes "now")
        ⊎ (name ≡ codes "valid_for")
        ⊎ (find_field name options ≡ find_field name (grant_options source))

default_field-lookup :
    (key name : Bytes) (value : Value) (object : Struct)
    → equal key name ≡ false
    → find_field name (default_field key value object) ≡ find_field name object
unfolding default_field
default_field-lookup key name value object differ = go (find_field key object)
  where
    go :
        (found : Option Value)
        → find_field name (elim found [ none ↦ set_field key value object | some kept ↦ object ])
          ≡ find_field name object
    go none = find_field-set_field name key value object ∙ rw differ refl
    go (some kept) = refl

pub token_options_at-IsTokenOptions :
    (now : ℤ) (source : Struct) → IsTokenOptions now source (token_options_at now source)
unfolding token_options_at equal default_field find_field
token_options_at-IsTokenOptions now source = record {
  time = find_field-set_field (codes "now") (codes "now") (text (decimal_int now)) defaulted;
  lifetime = elim (Option-cases (find_field (codes "valid_for") given)) [
    | inl e ↦ inl (
      e,
      behind
          ∙ (rw (e, default_field)
              (find_field-set_field (codes "valid_for") (codes "valid_for") six_hours given)),
    )
    | inr (value, e) ↦ inr (value, e, behind ∙ (rw (e, default_field) e))
  ];
  others = λ name. elim (Bool-cases (equal (codes "now") name)) [
    | inl e ↦ inl (sym ((equal_iff (codes "now") name).0 e))
    | inr e ↦ elim (Bool-cases (equal (codes "valid_for") name)) [
      | inl f ↦ inr (inl (sym ((equal_iff (codes "valid_for") name).0 f)))
      | inr f ↦ inr (
          inr (
            find_field-set_field name (codes "now") (text (decimal_int now)) defaulted
            ∙ rw e (default_field-lookup (codes "valid_for") name six_hours given f)))
    ]
  ];
}
  where
    six_hours : Value
    six_hours = text (codes "21600")

    given : Struct
    given = grant_options source

    defaulted : Struct
    defaulted = default_field (codes "valid_for") six_hours given

    behind :
        find_field (codes "valid_for") (token_options_at now source)
        ≡ find_field (codes "valid_for") defaulted
    behind =
        find_field-set_field (codes "valid_for") (codes "now") (text (decimal_int now)) defaulted
