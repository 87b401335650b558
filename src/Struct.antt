-- ===== src/Struct.antt =====
-- What the source uses of protobuf's JSON support: `google.protobuf.Struct` and `Value`, and the
-- conversion of JSON text. The message types are protobuf's; the conversion is a parameter.
use livekit_server_cpp.Common.{Bool, Bytes, Option, none, some, equal, if◌then◌else◌}
use livekit_server_cpp.Common.Int.{ℤ}

-- A `Value` by its kind. A number is a double of which the source writes whole ones and reads none.
mutual
  pub data Value : Type 0 where
    not_set null : Value
    number : ℤ → Value
    string : Bytes → Value
    bool : Bool → Value
    struct : Struct → Value
    list : Values → Value

  pub data Values : Type 0 where
    nil : Values
    cons : Value → Values → Values

  -- The fields of a `Struct`, a map from names.
  pub data Struct : Type 0 where
    empty : Struct
    field : Bytes → Value → Struct → Struct

-- `fields().find(name)`.
unfoldable pub find_field : Bytes → Struct → Option Value
find_field name Struct.empty = none
find_field name (Struct.field key value fields) =
    if equal key name then some value else find_field name fields

-- `JsonStringToMessage` into a `Struct`, and `MessageToJsonString` of one; `none` is a status that
-- is not ok.
pub record JsonLibrary : Type 0 where
  pub to_struct : Bytes → Option Struct
  pub from_struct : Struct → Option Bytes
