-- ===== src/CApi/StringMap.antt =====
-- src/c_api.cpp: `StringMap`, which makes a `std::map` of an object's fields.
pub mod Refinement
pub mod Order
use livekit_server_cpp.Common.{
  ℕ, Bool, true, false, Option, none, some, List, [], ◌∷◌, Bytes, ltb, ◌==◌, if◌then◌else◌, equal,
}
use livekit_server_cpp.CApi.Fields.{as_string}
use livekit_server_cpp.Error.{Result, ok, ◌>>=◌}
use livekit_server_cpp.Struct.{Struct}

-- `std::string`'s order, in which bytes count as unsigned.
unfoldable pub less : Bytes → Bytes → Bool
less s [] = false
less [] (d ∷ t) = true
less (c ∷ s) (d ∷ t) = if ltb c d then true else (if ltb d c then false else less s t)

-- `emplace` into the pairs in the order of their keys: a key that is there keeps its value.
unfoldable pub emplace : Bytes → Bytes → List (Bytes × Bytes) → List (Bytes × Bytes)
emplace key value [] = (key, value) ∷ []
emplace key value ((other, content) ∷ pairs) =
    if less key other
    then (key, value) ∷ (other, content) ∷ pairs
    else (if less other key
        then (other, content) ∷ emplace key value pairs
        else (other, content) ∷ pairs)

-- The loop over the fields.
unfoldable pub emplace_all : List (Bytes × Bytes) → Struct → Result (List (Bytes × Bytes))
emplace_all result Struct.empty = ok result
emplace_all result (Struct.field key value fields) = do
  content ← as_string value
  emplace_all (emplace key content result) fields

-- `StringMap`.
unfoldable pub string_map : Struct → Result (List (Bytes × Bytes))
string_map object = emplace_all [] object
