-- ===== src/Token/Json/RoundTrip.antt =====
-- The reader reads back what `print` writes.
use livekit_server_cpp.Common.{
  ℕ, zero, suc, ◌+◌, ◌*◌, ◌≤◌, ◌<◌, ◌≡◌, refl, ap, arith, Bool, true, false, some, [], ◌∷◌, ◌++◌,
  append_assoc, append-nil, Bytes, ◌==◌, length, length-append,
}
use livekit_server_cpp.Common.Decimal.{decimal_int}
use livekit_server_cpp.Common.Int.{ℤ, pos, negsuc}
use livekit_server_cpp.Token.Json.Read.{
  is_digit, read_number, read_value, read_items, read_members, read_json,
}
use livekit_server_cpp.Token.Json.{Json, Items, Members, print, print_items, print_members}
use livekit_server_cpp.Token.{escape_json, quoted}
use livekit_server_cpp.Token.Json.Scalars.{
  NoDigit, decimal-StartsWithDigit, read_number-decimal, length-escape_json,
  read_string-escape_json, quoted-reads,
}

-- What the reader makes of the text of a value, of items and of members, with enough fuel.
abbrev ValueReads : Json → Type 0
ValueReads j =
    (f : ℕ) (rest : Bytes)
    → 3 * length (print j) ≤ f
    → NoDigit rest
    → read_value f (print j ++ rest) ≡ some (j, rest)

abbrev ItemsRead : Items → Type 0
ItemsRead Items.nil = Unit
ItemsRead (Items.cons x xs) =
    (f : ℕ) (rest : Bytes)
    → 3 * length (print_items true (Items.cons x xs)) < f
    → read_items f (print_items true (Items.cons x xs) ++ b']' ∷ rest)
      ≡ some (Items.cons x xs, rest)

abbrev MembersRead : Members → Type 0
MembersRead Members.end = Unit
MembersRead (Members.member name x ms) =
    (f : ℕ) (rest : Bytes)
    → 3 * length (print_members true (Members.member name x ms)) < f
    → read_members f (print_members true (Members.member name x ms) ++ b'}' ∷ rest)
      ≡ some (Members.member name x ms, rest)

str-reads : (text : Bytes) → ValueReads (Json.str text)
unfolding print
str-reads text zero rest h d = absurd (omega arith)
str-reads text (suc f) rest h d = unfold read_value in rw (quoted-reads f text rest (omega arith))

value_of_number :
    (f c n : ℕ) (s rest : Bytes)
    → is_digit c ≡ true
    → read_number (c ∷ s) ≡ some (n, rest)
    → read_value (suc f) (c ∷ s) ≡ some (Json.num (pos n), rest)
value_of_number f c n s rest d h = unfold read_value in ground arith

num-reads : (n : ℤ) → ValueReads (Json.num n)
unfolding print decimal_int
num-reads (pos n) zero rest h d =
    let (c, r, e, dg) = decimal-StartsWithDigit n in absurd (omega (arith, ap length e))
num-reads (pos n) (suc f) rest h d =
    let (c, r, e, dg) = decimal-StartsWithDigit n in
    rw e (value_of_number f c n (r ++ rest) rest dg (rw e at (read_number-decimal n rest d)))
num-reads (negsuc n) zero rest h d = absurd (omega arith)
num-reads (negsuc n) (suc f) rest h d = unfold read_value in rw (read_number-decimal (suc n) rest d)

bool-reads : (b : Bool) → ValueReads (Json.bool b)
unfolding print
bool-reads true zero rest h d = absurd (omega arith)
bool-reads false zero rest h d = absurd (omega arith)
bool-reads true (suc f) rest h d = unfold read_value in refl
bool-reads false (suc f) rest h d = unfold read_value in refl

-- No value begins with the bracket that ends an array.
StartsBelow : Bytes → Type 0
StartsBelow s = (c : ℕ) × (r : Bytes) × (s ≡ c ∷ r) × ((c == b']') ≡ false)

print-StartsBelow : (j : Json) → StartsBelow (print j)
unfolding print StartsBelow decimal_int
print-StartsBelow (Json.str text) = (b'"', _, refl, refl)
print-StartsBelow (Json.num (pos n)) =
    let (c, r, e, d) = decimal-StartsWithDigit n in (c, r, e, ground arith)
print-StartsBelow (Json.num (negsuc n)) = (b'-', _, refl, refl)
print-StartsBelow (Json.bool true) = (b't', _, refl, refl)
print-StartsBelow (Json.bool false) = (b'f', _, refl, refl)
print-StartsBelow (Json.arr xs) = (b'[', _, refl, refl)
print-StartsBelow (Json.obj ms) = (b'{', _, refl, refl)

array_of_items :
    (f : ℕ) (s rest : Bytes) (xs : Items)
    → StartsBelow s
    → read_items f s ≡ some (xs, rest)
    → read_value (suc (suc f)) (b'[' ∷ s) ≡ some (Json.arr xs, rest)
unfolding read_value StartsBelow
array_of_items f s rest xs (c, r, e, d) h = ground arith

StartsBelow-append : (s rest : Bytes) → StartsBelow s → StartsBelow (s ++ rest)
unfolding StartsBelow
StartsBelow-append s rest (c, r, e, d) = (c, r ++ rest, rw e, d)

arr-reads : (xs : Items) → ItemsRead xs → ValueReads (Json.arr xs)
unfolding print
arr-reads xs r zero rest h d = absurd (omega arith)
arr-reads xs r (suc zero) rest h d = absurd (omega arith)
arr-reads Items.nil r (suc (suc f)) rest h d = unfold read_value in refl
arr-reads (Items.cons x xs) r (suc (suc f)) rest h d =
    let items = print_items true (Items.cons x xs) in
    rw append_assoc (
      array_of_items f (items ++ b']' ∷ rest) rest (Items.cons x xs)
        (StartsBelow-append items _ (StartsBelow-append (print x) _ (print-StartsBelow x)))
        (r f rest (omega (arith, length-append items (b']' ∷ [])))))

items_last :
    (f : ℕ) (s rest : Bytes) (x : Json)
    → read_value f s ≡ some (x, b']' ∷ rest)
    → read_items (suc f) s ≡ some (Items.cons x Items.nil, rest)
items_last f s rest x h = unfold read_items in rw h

items_more :
    (f : ℕ) (text more rest : Bytes) (x : Json) (xs : Items)
    → read_value f (text ++ b',' ∷ (more ++ b']' ∷ rest)) ≡ some (x, b',' ∷ (more ++ b']' ∷ rest))
    → read_items f (more ++ b']' ∷ rest) ≡ some (xs, rest)
    → read_items (suc f) ((text ++ b',' ∷ more) ++ b']' ∷ rest) ≡ some (Items.cons x xs, rest)
items_more f text more rest x xs h k = rw append_assoc (unfold read_items in rw (h, k))

cons-reads : (x : Json) (xs : Items) → ValueReads x → ItemsRead xs → ItemsRead (Items.cons x xs)
unfolding print
cons-reads x xs v r zero rest h = absurd (omega arith)
cons-reads x Items.nil v r (suc f) rest h =
    rw append-nil
      (items_last f _ rest x (v f (b']' ∷ rest) (omega (arith, length-append (print x) [])) refl))
cons-reads x (Items.cons y ys) v r (suc f) rest h =
    let more = print_items true (Items.cons y ys) in
    let fits = length-append (print x) (b',' ∷ more) in
    items_more f (print x) more rest x (Items.cons y ys)
      (v f (b',' ∷ (more ++ b']' ∷ rest)) (omega (arith, fits)) refl)
      (r f rest (omega (arith, fits)))

object_of_members :
    (f : ℕ) (s rest : Bytes) (ms : Members)
    → read_members f (b'"' ∷ s) ≡ some (ms, rest)
    → read_value (suc (suc f)) (b'{' ∷ b'"' ∷ s) ≡ some (Json.obj ms, rest)
object_of_members f s rest ms h = unfold read_value in rw h

obj-reads : (ms : Members) → MembersRead ms → ValueReads (Json.obj ms)
unfolding print
obj-reads ms r zero rest h d = absurd (omega arith)
obj-reads ms r (suc zero) rest h d = absurd (omega arith)
obj-reads Members.end r (suc (suc f)) rest h d = unfold read_value in refl
obj-reads (Members.member name x ms) r (suc (suc f)) rest h d =
    let members = print_members true (Members.member name x ms) in
    rw append_assoc (
      object_of_members f _ rest (Members.member name x ms)
        (r f rest (omega (arith, length-append members (b'}' ∷ [])))))

-- A member's text, regrouped as the reader goes through it.
member_text :
    (name text more : Bytes)
    → (quoted (escape_json name) ++ b':' ∷ text) ++ more
      ≡ b'"' ∷ (escape_json name ++ b'"' ∷ b':' ∷ (text ++ more))
member_text name text more = simp append_assoc

members_last :
    (f : ℕ) (name text rest : Bytes) (x : Json)
    → length name < f
    → read_value f (text ++ b'}' ∷ rest) ≡ some (x, b'}' ∷ rest)
    → read_members (suc f) ((quoted (escape_json name) ++ b':' ∷ (text ++ [])) ++ b'}' ∷ rest)
      ≡ some (Members.member name x Members.end, rest)
members_last f name text rest x h k =
    rw (append-nil, member_text name text (b'}' ∷ rest))
      (unfold read_members in rw (read_string-escape_json f name _ h, k))

members_more :
    (f : ℕ) (name text more rest : Bytes) (x : Json) (ms : Members)
    → length name < f
    → read_value f (text ++ b',' ∷ (more ++ b'}' ∷ rest)) ≡ some (x, b',' ∷ (more ++ b'}' ∷ rest))
    → read_members f (more ++ b'}' ∷ rest) ≡ some (ms, rest)
    → read_members
        (suc f)
        ((quoted (escape_json name) ++ b':' ∷ (text ++ b',' ∷ more)) ++ b'}' ∷ rest)
      ≡ some (Members.member name x ms, rest)
members_more f name text more rest x ms h k l =
    rw (member_text name (text ++ b',' ∷ more) (b'}' ∷ rest), append_assoc text)
      (unfold read_members in rw (read_string-escape_json f name _ h, k, l))

-- The text of a member has room for its name, its value, what follows and three marks.
member_fits :
    (name text more : Bytes)
    → length name + length text + length more + 3
      ≤ length (quoted (escape_json name) ++ b':' ∷ (text ++ more))
member_fits name text more = omega (
  arith,
  length-escape_json name,
  length-append (escape_json name ++ b'"' ∷ []) (b':' ∷ (text ++ more)),
  length-append (escape_json name) (b'"' ∷ []),
  length-append text more,
)

member-reads :
    (name : Bytes) (x : Json) (ms : Members)
    → ValueReads x
    → MembersRead ms
    → MembersRead (Members.member name x ms)
unfolding print
member-reads name x ms v r zero rest h = absurd (omega arith)
member-reads name x Members.end v r (suc f) rest h =
    let fits = member_fits name (print x) [] in
    members_last f name (print x) rest x (omega (arith, fits))
      (v f (b'}' ∷ rest) (omega (arith, fits)) refl)
member-reads name x (Members.member other y ms) v r (suc f) rest h =
    let more = print_members true (Members.member other y ms) in
    let fits = member_fits name (print x) (b',' ∷ more) in
    members_more f name (print x) more rest x (Members.member other y ms) (omega (arith, fits))
      (v f (b',' ∷ (more ++ b'}' ∷ rest)) (omega (arith, fits)) refl)
      (r f rest (omega (arith, fits)))

mutual
  value-reads : (j : Json) → ValueReads j
  value-reads (Json.str text) = str-reads text
  value-reads (Json.num n) = num-reads n
  value-reads (Json.bool b) = bool-reads b
  value-reads (Json.arr xs) = arr-reads xs (items-read xs)
  value-reads (Json.obj ms) = obj-reads ms (members-read ms)

  items-read : (xs : Items) → ItemsRead xs
  items-read Items.nil = tt
  items-read (Items.cons x xs) = cons-reads x xs (value-reads x) (items-read xs)

  members-read : (ms : Members) → MembersRead ms
  members-read Members.end = tt
  members-read (Members.member name x ms) = member-reads name x ms (value-reads x) (members-read ms)

-- The reader returns the value whose text it is given, whatever strings, keys and numbers it holds.
pub read_json-print : (j : Json) → read_json (print j) ≡ some j
unfolding read_json
read_json-print j = rw (rw append-nil at (value-reads j (3 * length (print j)) [] (omega arith) tt))
