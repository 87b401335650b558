-- ===== src/Jni/Options.antt =====
-- pkg/java/src/main/cpp/livekit_server_jni.cpp: `Options`, which gives the options of Java the names that
-- they have in the C API.
pub mod Names
pub mod Lookup
use livekit_server_cpp.Common.{
  ℕ, ◌+◌, ◌-◌, Bool, true, false, ◌&&◌, ◌||◌, [], ◌∷◌, Bytes, codes, leb, equal, if◌then◌else◌,
}
use livekit_server_cpp.Jni.{struct_value}
use livekit_server_cpp.Struct.{Value, Struct}

-- `(*result.mutable_fields())[key] = value;`
unfoldable pub set_field : Bytes → Value → Struct → Struct
set_field key value Struct.empty = Struct.field key value Struct.empty
set_field key value (Struct.field other content fields) =
    if equal other key
    then Struct.field other value fields
    else Struct.field other content (set_field key value fields)

-- The loop over a name: a capital becomes an underscore and the small letter.
unfoldable pub option_name : Bytes → Bytes
option_name [] = []
option_name (ch ∷ key) =
    let rest = option_name key in
    if leb b'A' ch && leb ch b'Z' then b'_' ∷ (ch + b'a' - b'A') ∷ rest else ch ∷ rest

-- The loop over the fields, with what becomes of a value.
unfoldable pub translate_onto : (Bytes → Value → Value) → Struct → Struct → Struct
translate_onto change result Struct.empty = result
translate_onto change result (Struct.field key value fields) =
    translate_onto change (set_field (option_name key) (change key value) result) fields

-- `Options(source)`.
unfoldable pub plain_options : Struct → Struct
plain_options source = translate_onto (λ key value. value) Struct.empty source

abbrev pub is_grant : Bytes → Bool
is_grant key = equal key (codes "video") || equal key (codes "sip") || equal key (codes "agent")

unfoldable pub grant_value : Bytes → Value → Value
grant_value key value =
    if is_grant key then Value.struct (plain_options (struct_value value)) else value

-- `Options(source, true)`.
unfoldable pub grant_options : Struct → Struct
grant_options source = translate_onto grant_value Struct.empty source
