-- ===== src/CApi/Fields.antt =====
-- src/c_api.cpp: reading the fields of a JSON object, and JSON text itself. `json` converts text.
use Prim.Native.String.{String}
use livekit_server_cpp.Common.{Bool, true, false, none, some, List, [], ◌∷◌, Bytes, codes}
use livekit_server_cpp.Crypto.{base64_url_decode}
use livekit_server_cpp.Error.{ErrorCode, Result, ok, fail, ◌>>=◌}
use livekit_server_cpp.Struct.{Value, Values, Struct, find_field, JsonLibrary}

-- `Text`.
abbrev pub text : Bytes → Value
text content = Value.string content

-- `Has`.
unfoldable pub has : Struct → String → Bool
has object name = elim (find_field (codes name) object) [ none ↦ false | some value ↦ true ]

-- `Field`: a value that is not set where there is none.
unfoldable pub field_of : Struct → String → Value
field_of object name = elim (find_field (codes name) object) [
  | none ↦ Value.not_set
  | some value ↦ value
]

-- `RequireKind` throws this.
abbrev pub wrong_kind {ℓ} : {A : Type ℓ} → Result A
wrong_kind = fail ErrorCode.invalid_argument "invalid C ABI field type"

-- A value of the kind of texts, and so on.
unfoldable pub as_string : Value → Result Bytes
as_string (Value.string content) = ok content
as_string _ = wrong_kind

unfoldable pub string_or_unset : Value → Result Bytes
unfolding as_string
string_or_unset Value.not_set = ok []
string_or_unset value = as_string value

unfoldable pub bool_or_unset : Value → Result Bool
bool_or_unset Value.not_set = ok false
bool_or_unset (Value.bool b) = ok b
bool_or_unset _ = wrong_kind

unfoldable pub struct_or_unset : Value → Result Struct
struct_or_unset Value.not_set = ok Struct.empty
struct_or_unset (Value.struct object) = ok object
struct_or_unset _ = wrong_kind

unfoldable pub strings_of : Values → Result (List Bytes)
strings_of Values.nil = ok []
strings_of (Values.cons item items) = do
  content ← as_string item
  rest ← strings_of items
  ok (content ∷ rest)

unfoldable pub strings_or_unset : Value → Result (List Bytes)
strings_or_unset Value.not_set = ok []
strings_or_unset (Value.list items) = strings_of items
strings_or_unset _ = wrong_kind

-- `String`, `Boolean`, `Object` and `StringList`.
unfoldable pub string_field : Struct → String → Result Bytes
string_field object name = string_or_unset (field_of object name)

unfoldable pub boolean_field : Struct → String → Result Bool
boolean_field object name = bool_or_unset (field_of object name)

unfoldable pub object_field : Struct → String → Result Struct
object_field object name = struct_or_unset (field_of object name)

unfoldable pub string_list_field : Struct → String → Result (List Bytes)
string_list_field object name = strings_or_unset (field_of object name)

-- `Parse`.
unfoldable pub parse : JsonLibrary → Bytes → Result Struct
parse json content = elim (json.to_struct content) [
  | none ↦ fail ErrorCode.invalid_argument "invalid C ABI JSON"
  | some object ↦ ok object
]

-- `Encode`.
unfoldable pub encode : JsonLibrary → Struct → Result Bytes
encode json object = elim (json.from_struct object) [
  | none ↦ fail ErrorCode.protocol "could not encode C ABI result"
  | some content ↦ ok content
]

-- The fields that are set one after another, in the order of the source.
unfoldable pub struct_of : List (String × Value) → Struct
struct_of [] = Struct.empty
struct_of ((name, value) ∷ fields) = Struct.field (codes name) value (struct_of fields)

-- `NewObject`.
unfoldable pub new_object : List (String × Bytes) → List (String × Value)
new_object [] = []
new_object ((name, content) ∷ fields) = (name, text content) ∷ new_object fields

-- `DecodeBody`.
unfoldable pub decode_body : Struct → String → Result Bytes
decode_body object name = string_field object name >>= base64_url_decode
