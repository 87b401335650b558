-- ===== src/Token/Json.antt =====
-- JSON values, the text that the claims are to have for such a value, and a reader of JSON text
-- by RFC 8259 (`Read`), which knows nothing of the code that writes it.
pub mod Read
pub mod Scalars
pub mod RoundTrip
use livekit_server_cpp.Common.{Bool, true, false, ◌&&◌, [], ◌∷◌, ◌++◌, Bytes, if◌then◌else◌}
use livekit_server_cpp.Common.Decimal.{decimal_int}
use livekit_server_cpp.Common.Int.{ℤ}
use livekit_server_cpp.Token.{escape_json, quoted, comma, bool_text}

mutual
  pub data Json : Type 0 where
    str : Bytes → Json
    num : ℤ → Json
    bool : Bool → Json
    arr : Items → Json
    obj : Members → Json

  pub data Items : Type 0 where
    nil : Items
    cons : Json → Items → Items

  pub data Members : Type 0 where
    end : Members
    member : Bytes → Json → Members → Members

-- The flag says that nothing stands in front, as `first` does in the source.
unfoldable mutual
  pub print : Json → Bytes
  print (str text) = quoted (escape_json text)
  print (num n) = decimal_int n
  print (bool b) = bool_text b
  print (arr xs) = b'[' ∷ (print_items true xs ++ b']' ∷ [])
  print (obj ms) = b'{' ∷ (print_members true ms ++ b'}' ∷ [])

  pub print_items : Bool → Items → Bytes
  print_items first nil = []
  print_items first (cons x xs) = comma first ++ (print x ++ print_items false xs)

  pub print_members : Bool → Members → Bytes
  print_members first end = []
  print_members first (member name x ms) =
      comma first ++ (quoted (escape_json name) ++ b':' ∷ (print x ++ print_members false ms))
