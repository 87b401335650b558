-- ===== src/Context/Uuid.antt =====
-- The shape of a request's id.
use Prim.Native.Nat.{bit_and, bit_or}
use livekit_server_cpp.Common.Bits.{bit_and_ones, passes_to, passes_to-below}
use livekit_server_cpp.Common.{
  [], none, ◌∷◌, take, Bool, some, Option, ℕ, ◌+◌, ◌-◌, ◌*◌, ◌%◌, ◌++◌, [], ◌∷◌, Option, none, some,
  if◌then◌else◌, ap, take, drop, ◌^◌, ◌/◌, ◌<◌, ◌≡◌, refl, arith, true, Bytes, length, get_or, leb,
  ltb, ◌==◌, ◌&&◌,
}
use livekit_server_cpp.Context.{request_id, request_id_text, hex_bytes, update_at}
use livekit_server_cpp.Error.{ok}
use livekit_server_cpp.Http.{Machine, World, random_bytes}
use livekit_server_cpp.Token.{hex_digit}

-- A lower-case hexadecimal digit, read.
unfoldable pub read_digit : ℕ → Option ℕ
read_digit c =
    if leb b'0' c && leb c b'9'
    then some (c - b'0')
    else if leb b'a' c && leb c b'f'
    then some (c - b'a' + 10)
    else none

-- The bytes that a text of lower-case hexadecimal digits holds, two digits for each.
unfoldable pub read_hex : Bytes → Option Bytes
read_hex [] = some []
read_hex (c ∷ []) = none
read_hex (c ∷ d ∷ cs) =
    let bytes = read_hex cs in
    elim (read_digit c) [
      | none ↦ none
      | some high ↦ elim (read_digit d) [
        | none ↦ none
        | some low ↦ elim bytes [ none ↦ none | some rest ↦ some ((16 * high + low) ∷ rest) ]
      ]
    ]

-- The text of a UUID of version 4: five groups of lower-case hexadecimal digits with dashes between
-- them, for sixteen bytes, of which the seventh has the version and the ninth the variant.
pub record IsUuid (text bytes : Bytes) : Type 0 where
  pub time_low : Bytes
  pub time_mid : Bytes
  pub time_high : Bytes
  pub clock : Bytes
  pub node : Bytes
  pub dashes :
      text ≡ time_low ++ b'-' ∷ (time_mid ++ b'-' ∷ (time_high ++ b'-' ∷ (clock ++ b'-' ∷ node)))
  pub lengths :
      (length time_low ≡ 8)
      × (length time_mid ≡ 4)
      × (length time_high ≡ 4)
      × (length clock ≡ 4)
      × (length node ≡ 12)
  pub digits : read_hex (time_low ++ time_mid ++ time_high ++ clock ++ node) ≡ some bytes
  pub version : get_or bytes 6 0 / 16 ≡ 4
  pub variant : get_or bytes 8 0 / 64 ≡ 2

read_digit-hex_digit : (d : ℕ) → d < 16 → read_digit (hex_digit d) ≡ some d
unfolding read_digit
read_digit-hex_digit d h = ground arith

read_hex-byte :
    (byte : ℕ) (cs bytes : Bytes)
    → byte < 256
    → read_hex cs ≡ some bytes
    → read_hex (hex_digit (byte / 16) ∷ hex_digit (byte % 16) ∷ cs) ≡ some (byte ∷ bytes)
unfolding read_hex
read_hex-byte byte cs bytes h e =
    rw
      (
        read_digit-hex_digit (byte / 16) (omega arith),
        read_digit-hex_digit (byte % 16) (omega arith),
        e,
        read_hex,
      )
      (ap (λ b. some (b ∷ bytes)) (omega arith))

read_hex-nil : read_hex [] ≡ some []
unfolding read_hex
read_hex-nil = refl

abbrev is_version : ℕ → Bool
is_version low = bit_or low 0x40 / 16 == 4 && ltb (bit_or low 0x40) 256

abbrev is_variant : ℕ → Bool
is_variant low = bit_or low 0x80 / 64 == 2 && ltb (bit_or low 0x80) 256

version_table : passes_to is_version 16 ≡ true
unfolding passes_to
version_table = refl

variant_table : passes_to is_variant 64 ≡ true
unfolding passes_to
variant_table = refl

version_rest_table : passes_to (λ low. bit_or low 0x40 % 16 == low) 16 ≡ true
unfolding passes_to
version_rest_table = refl

variant_rest_table : passes_to (λ low. bit_or low 0x80 % 64 == low) 64 ≡ true
unfolding passes_to
variant_rest_table = refl

version_byte :
    (byte : ℕ)
    → (bit_or (bit_and byte 0x0f) 0x40 / 16 ≡ 4) × (bit_or (bit_and byte 0x0f) 0x40 < 256)
version_byte byte =
    let h =
      passes_to-below is_version 16 {v = bit_and byte 0x0f} (omega (arith, bit_and_ones 4 byte))
        version_table in
    ground (arith, h)

variant_byte :
    (byte : ℕ)
    → (bit_or (bit_and byte 0x3f) 0x80 / 64 ≡ 2) × (bit_or (bit_and byte 0x3f) 0x80 < 256)
variant_byte byte =
    let h =
      passes_to-below is_variant 64 {v = bit_and byte 0x3f} (omega (arith, bit_and_ones 6 byte))
        variant_table in
    ground (arith, h)

version_rest : (byte : ℕ) → bit_or (bit_and byte 0x0f) 0x40 % 16 ≡ byte % 16
version_rest byte =
    let h =
      passes_to-below (λ low. bit_or low 0x40 % 16 == low) 16 {v = bit_and byte 0x0f}
        (omega (arith, bit_and_ones 4 byte)) version_rest_table in
    ground (arith, h, bit_and_ones 4 byte)

variant_rest : (byte : ℕ) → bit_or (bit_and byte 0x3f) 0x80 % 64 ≡ byte % 64
variant_rest byte =
    let h =
      passes_to-below (λ low. bit_or low 0x80 % 64 == low) 64 {v = bit_and byte 0x3f}
        (omega (arith, bit_and_ones 6 byte)) variant_rest_table in
    ground (arith, h, bit_and_ones 6 byte)

below : (n : ℕ) → n % 2 ^ 8 < 256
below n = omega arith

-- The bytes of a UUID are random ones, but for the upper bits of the seventh and the ninth.
pub record IsDrawn (drawn bytes : Bytes) : Type 0 where
  pub first : take 6 bytes ≡ take 6 drawn
  pub seventh : get_or bytes 6 0 % 16 ≡ get_or drawn 6 0 % 16
  pub eighth : get_or bytes 7 0 ≡ get_or drawn 7 0
  pub ninth : get_or bytes 8 0 % 64 ≡ get_or drawn 8 0 % 64
  pub last : drop 9 bytes ≡ drop 9 drawn

-- Every request gets the text of a UUID of version 4, for sixteen random bytes, in which the upper
-- bits of the seventh and the ninth make way for the version and the variant.
pub request_id-IsUuid :
    (machine : Machine) (world : World)
    → (text bytes drawn : Bytes) × ((request_id machine world).0 ≡ ok text)
      × ((random_bytes machine 16 world).0 ≡ ok drawn)
      × IsUuid text bytes
      × IsDrawn drawn bytes
unfolding request_id request_id_text random_bytes hex_bytes update_at
request_id-IsUuid machine world = (
  _,
  _,
  _,
  refl,
  refl,
  record {
    time_low = _ ∷ _ ∷ _ ∷ _ ∷ _ ∷ _ ∷ _ ∷ _ ∷ [];
    time_mid = _ ∷ _ ∷ _ ∷ _ ∷ [];
    time_high = _ ∷ _ ∷ _ ∷ _ ∷ [];
    clock = _ ∷ _ ∷ _ ∷ _ ∷ [];
    node = _ ∷ _ ∷ _ ∷ _ ∷ _ ∷ _ ∷ _ ∷ _ ∷ _ ∷ _ ∷ _ ∷ _ ∷ [];
    dashes = refl;
    lengths = (refl, refl, refl, refl, refl);
    digits = read_hex-byte _ _ _ (below _) (
        read_hex-byte _ _ _ (below _) (
          read_hex-byte _ _ _ (below _) (
            read_hex-byte _ _ _ (below _) (
              read_hex-byte _ _ _ (below _) (
                read_hex-byte _ _ _ (below _) (
                  read_hex-byte _ _ _ ((version_byte _).1) (
                    read_hex-byte _ _ _ (below _) (
                      read_hex-byte _ _ _ ((variant_byte _).1) (
                        read_hex-byte _ _ _ (below _) (
                          read_hex-byte _ _ _ (below _) (
                            read_hex-byte _ _ _ (below _) (
                              read_hex-byte _ _ _ (below _) (
                                read_hex-byte _ _ _ (below _) (
                                  read_hex-byte _ _ _ (below _)
                                    (read_hex-byte _ _ _ (below _) read_hex-nil)))))))))))))));
    version = (version_byte _).0;
    variant = (variant_byte _).0;
  },
  record {
    first = refl;
    seventh = version_rest _;
    eighth = refl;
    ninth = variant_rest _;
    last = refl;
  },
)
