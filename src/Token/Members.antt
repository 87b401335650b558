-- ===== src/Token/Members.antt =====
-- Writing to a stream with the flag `first`, as adding members to an object.
use Prim.Native.String.{String}
use livekit_server_cpp.Common.{
  ℕ, ◌+◌, ◌≡◌, refl, sym, ap, ap₂, ◌∙◌, arith, Bool, true, false, not, ◌&&◌, ◌||◌, List, [], ◌∷◌,
  ◌++◌, append_assoc, append-nil, Option, none, some, ltb, ◌==◌, Bytes, codes,
}
use livekit_server_cpp.Token.Json.{Json, Items, Members, print, print_items, print_members}
use livekit_server_cpp.Token.{
  Writer, comma, quoted, escape_byte, escape_json, add_bool, add_string, add_optional, add_sources,
  add_source_list,
}

infixl 65 ◌+++◌
abbrev pub ◌+++◌ : Members → Members → Members
Members.end +++ ns = ns
Members.member name x ms +++ ns = Members.member name x (ms +++ ns)

abbrev pub is_end : Members → Bool
is_end Members.end = true
is_end (Members.member name x ms) = false

-- The member `name` holds true, or is left out.
abbrev pub flag : String → Bool → Members
flag name true = Members.member (codes name) (Json.bool true) Members.end
flag name false = Members.end

-- The member `name` holds a text, or is left out where that is empty.
abbrev pub text : String → Bytes → Members
text name [] = Members.end
text name (c ∷ value) = Members.member (codes name) (Json.str (c ∷ value)) Members.end

abbrev pub optional : String → Option Bool → Members
optional name none = Members.end
optional name (some value) = Members.member (codes name) (Json.bool value) Members.end

abbrev pub strings : List Bytes → Items
strings [] = Items.nil
strings (value ∷ values) = Items.cons (Json.str value) (strings values)

abbrev pub string_list : String → List Bytes → Members
string_list name [] = Members.end
string_list name (value ∷ values) =
    Members.member (codes name) (Json.arr (strings (value ∷ values))) Members.end

-- The stream after the members have been written.
abbrev pub write : Members → Writer → Writer
write ms w = record { json = w.json ++ print_members w.first ms; first = w.first && is_end ms }

and_false : (b : Bool) → b && false ≡ false
and_false true = refl
and_false false = refl

and_true : (b : Bool) → b && true ≡ b
and_true true = refl
and_true false = refl

pub is_end-append : (ms ns : Members) → is_end ms ≡ false → is_end (ms +++ ns) ≡ false
is_end-append Members.end ns h = cc
is_end-append (Members.member name x ms) ns h = refl

pub print_members-append :
    (first : Bool) (ms ns : Members)
    → print_members first (ms +++ ns)
      ≡ print_members first ms ++ print_members (first && is_end ms) ns
unfolding print_members
print_members-append true Members.end ns = refl
print_members-append false Members.end ns = refl
print_members-append first (Members.member name x ms) ns =
    simp (print_members-append false ms ns, append_assoc, and_false first)

-- A text that `EscapeJson` leaves alone.
abbrev pub is_plain : Bytes → Bool
is_plain [] = true
is_plain (c ∷ s) = not (c == b'"' || c == b'\\' || ltb c 0x20) && is_plain s

pub escape_json_plain : (s : Bytes) → is_plain s ≡ true → escape_json s ≡ s
unfolding escape_json escape_byte
escape_json_plain [] h = refl
escape_json_plain (c ∷ s) h = ground (arith, escape_json_plain s)

abbrev writer : Bytes → Bool → Writer
writer json first = record { json = json; first = first }

-- The stream after one member, as the source writes it.
member_write :
    (name : Bytes) (x : Json) (w : Writer)
    → is_plain name ≡ true
    → writer (w.json ++ comma w.first ++ quoted name ++ b':' ∷ [] ++ print x) false
      ≡ write (Members.member name x Members.end) w
unfolding print
member_write name x w plain =
    ap₂ writer (simp (append_assoc, append-nil, escape_json_plain name plain))
      (sym (and_false w.first))

write_end : (w : Writer) → w ≡ write Members.end w
unfolding print
write_end w = ap₂ writer (sym (append-nil w.json)) (sym (and_true w.first))

-- Each function of the source writes its members.
module _ (name : String) (plain : is_plain (codes name) ≡ true) where
  pub add_bool-write :
      (value : Bool) (w : Writer) → add_bool name value false w ≡ write (flag name value) w
  unfolding add_bool
  add_bool-write true w = unfold print in member_write (codes name) (Json.bool true) w plain
  add_bool-write false w = write_end w

  pub add_string-write :
      (value : Bytes) (w : Writer) → add_string name value w ≡ write (text name value) w
  unfolding add_string
  add_string-write [] w = write_end w
  add_string-write (c ∷ value) w =
      unfold print in member_write (codes name) (Json.str (c ∷ value)) w plain

  pub add_optional-write :
      (value : Option Bool) (w : Writer) → add_optional name value w ≡ write (optional name value) w
  unfolding add_optional add_bool
  add_optional-write none w = write_end w
  add_optional-write (some true) w =
      unfold print in member_write (codes name) (Json.bool true) w plain
  add_optional-write (some false) w =
      unfold print in member_write (codes name) (Json.bool false) w plain

later : (index : ℕ) → (index + 1 == 0) ≡ false
later index = ground arith

add_sources-print_items :
    (sources : List Bytes) (index : ℕ) (json : Bytes)
    → add_sources index sources json ≡ json ++ print_items (index == 0) (strings sources)
unfolding add_sources print
add_sources-print_items [] index json = sym (append-nil json)
add_sources-print_items (source ∷ sources) index json =
    add_sources-print_items sources (index + 1) _ ∙ rw (later index) (simp append_assoc)

pub add_source_list-write :
    (sources : List Bytes) (w : Writer)
    → add_source_list sources w ≡ write (string_list "canPublishSources" sources) w
unfolding add_source_list
add_source_list-write [] w = write_end w
add_source_list-write (source ∷ sources) w =
    unfold print in
    ap₂ writer (rw (add_sources-print_items (source ∷ sources) 0) (simp append_assoc)) refl
    ∙ member_write (codes "canPublishSources") (Json.arr (strings (source ∷ sources))) w refl

-- `v` is the stream `w` after the members `ms`.
pub record Wrote (w : Writer) (ms : Members) (v : Writer) : Type 0 where
  pub wrote : v ≡ write ms w

pub Wrote-none : (w : Writer) → Wrote w Members.end w
Wrote-none w = record { wrote = write_end w }

write_flags :
    (first : Bool) (ms n : Members) → first && is_end ms && is_end n ≡ first && is_end (ms +++ n)
write_flags true Members.end n = refl
write_flags false Members.end n = refl
write_flags true (Members.member name x ms) n = refl
write_flags false (Members.member name x ms) n = refl

-- One more write behind those of `ms`.
pub Wrote-then :
    {w v : Writer} {ms : Members} (n : Members) (f : Writer → Writer)
    → Wrote w ms v
    → ((u : Writer) → f u ≡ write n u)
    → Wrote w (ms +++ n) (f v)
Wrote-then {w} {v} {ms} n f e h = record {
  wrote =
      h v
      ∙ rw e.wrote (
          ap₂ writer
            (append_assoc w.json _ _ ∙ ap (◌++◌ w.json) (sym (print_members-append w.first ms n)))
            (write_flags w.first ms n));
}

module _ {w v : Writer} {ms : Members} (e : Wrote w ms v) where
  pub then_bool :
      (name : String) (value : Bool)
      → is_plain (codes name) ≡ true
      → Wrote w (ms +++ flag name value) (add_bool name value false v)
  then_bool name value plain = Wrote-then _ _ e (add_bool-write name plain value)

  pub then_string :
      (name : String) (value : Bytes)
      → is_plain (codes name) ≡ true
      → Wrote w (ms +++ text name value) (add_string name value v)
  then_string name value plain = Wrote-then _ _ e (add_string-write name plain value)

  pub then_optional :
      (name : String) (value : Option Bool)
      → is_plain (codes name) ≡ true
      → Wrote w (ms +++ optional name value) (add_optional name value v)
  then_optional name value plain = Wrote-then _ _ e (add_optional-write name plain value)

  pub then_source_list :
      (sources : List Bytes)
      → Wrote w (ms +++ string_list "canPublishSources" sources) (add_source_list sources v)
  then_source_list sources = Wrote-then _ _ e (add_source_list-write sources)
