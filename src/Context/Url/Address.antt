-- ===== src/Context/Url/Address.antt =====
-- The four schemes of an address, and the address with the scheme of HTTP.
use livekit_server_cpp.Common.{
  ℕ, ◌+◌, ◌≡◌, ◌≤◌, ◌↔◌, ◌⊎◌, refl, subst, sym, ap, ◌∙◌, arith, Bool, true, false, not, ◌&&◌, ◌||◌,
  [], ◌∷◌, ◌++◌, Bytes, codes, leb, ◌==◌, drop, length, Bool-cases, inl, inr,
}
use livekit_server_cpp.Common.Lists.{starts_with}
use livekit_server_cpp.Context.Url.{to_lower, starts_with_case_insensitive, http_scheme}

-- A character is the small letter or the other sign, or the capital of the letter.
abbrev pub IsLetter : ℕ → ℕ → Type 0
IsLetter c p = (c ≡ p) ⊎ ((b'a' ≤ p) × (p ≤ b'z') × (c + 32 ≡ p))

-- A text is a name but for capitals.
abbrev pub Spells : Bytes → Bytes → Type 0
Spells [] [] = Unit
Spells (c ∷ text) (p ∷ name) = IsLetter c p × Spells text name
Spells _ _ = ⊥

-- An address with one of four schemes, in letters of any size, and the address of HTTP that it stands
-- for: a web socket's scheme becomes that of HTTP, with or without encryption, and what follows the
-- scheme stays.
pub record IsAddress (url http : Bytes) : Type 0 where
  pub scheme : Bytes
  pub rest : Bytes
  pub parts : url ≡ scheme ++ rest
  pub known :
      (Spells scheme (codes "ws://") × (http ≡ codes "http://" ++ rest))
      ⊎ (Spells scheme (codes "wss://") × (http ≡ codes "https://" ++ rest))
      ⊎ (Spells scheme (codes "http://") × (http ≡ url))
      ⊎ (Spells scheme (codes "https://") × (http ≡ url))

abbrev all_small : Bytes → Bool
all_small [] = true
all_small (p ∷ name) = not (leb b'A' p && leb p b'Z') && all_small name

IsLetter-iff :
    (c p : ℕ)
    → not (leb b'A' p && leb p b'Z') ≡ true
    → ((to_lower p == to_lower c) ≡ true) ↔ IsLetter c p
IsLetter-iff c p h = (λ e. ground arith, λ e. ground arith)

-- A text that starts with a name but for capitals is a spelling of the name and what follows.
starts-Spells :
    (url name : Bytes)
    → all_small name ≡ true
    → starts_with_case_insensitive url name ≡ true
    → (scheme : Bytes) × (url ≡ scheme ++ drop (length name) url) × Spells scheme name
unfolding starts_with_case_insensitive
starts-Spells url [] small h = ([], refl, tt)
starts-Spells [] (p ∷ name) small h = absurd (ground arith)
starts-Spells (c ∷ url) (p ∷ name) small h =
    let (scheme, e, spells) = starts-Spells url name (ground arith) (ground arith) in
    (
      c ∷ scheme,
      ap (λ url. c ∷ url) e,
      ((IsLetter-iff c p (ground arith)).0 (ground arith), spells),
    )

Spells-starts :
    (scheme name rest : Bytes)
    → all_small name ≡ true
    → Spells scheme name
    → (starts_with_case_insensitive (scheme ++ rest) name ≡ true)
      × (drop (length name) (scheme ++ rest) ≡ rest)
unfolding starts_with_case_insensitive
Spells-starts [] [] rest small h = (refl, refl)
Spells-starts [] (p ∷ name) rest small h = absurd h
Spells-starts (c ∷ scheme) [] rest small h = absurd h
Spells-starts (c ∷ scheme) (p ∷ name) rest small (letter, h) =
    let (starts, dropped) = Spells-starts scheme name rest (ground arith) h in
    let same = (IsLetter-iff c p (ground arith)).1 letter in (ground arith, dropped)

-- Where a spelling of a name starts with a second name but for capitals, the name itself does.
Spells-same :
    (scheme name rest other : Bytes)
    → all_small name ≡ true
    → all_small other ≡ true
    → length other ≤ length name
    → Spells scheme name
    → starts_with_case_insensitive (scheme ++ rest) other ≡ true
    → starts_with name other ≡ true
unfolding starts_with_case_insensitive starts_with
Spells-same scheme name rest [] small small' l h k = refl
Spells-same [] [] rest (q ∷ other) small small' l h k = absurd (omega arith)
Spells-same [] (p ∷ name) rest (q ∷ other) small small' l h k = absurd h
Spells-same (c ∷ scheme) [] rest (q ∷ other) small small' l h k = absurd h
Spells-same (c ∷ scheme) (p ∷ name) rest (q ∷ other) small small' l (letter, h) k =
    let later =
      Spells-same scheme name rest other (ground arith) (ground arith) (omega arith) h
        (ground arith) in
    let same : p ≡ q = ground arith in ground arith

Spells-other :
    (scheme name rest other : Bytes)
    → all_small name ≡ true
    → all_small other ≡ true
    → length other ≤ length name
    → starts_with name other ≡ false
    → Spells scheme name
    → starts_with_case_insensitive (scheme ++ rest) other ≡ false
Spells-other scheme name rest other small small' l differ h =
    elim (Bool-cases (starts_with_case_insensitive (scheme ++ rest) other)) [
      | inl k ↦ let same = Spells-same scheme name rest other small small' l h k in cc
      | inr k ↦ k
    ]

abbrev pub has_http_scheme : Bytes → Bool
has_http_scheme url =
    starts_with_case_insensitive url (codes "http://")
    || starts_with_case_insensitive url (codes "https://")

http_scheme-IsAddress :
    (url : Bytes) → has_http_scheme (http_scheme url) ≡ true → IsAddress url (http_scheme url)
unfolding http_scheme
http_scheme-IsAddress url h = elim (Bool-cases (starts_with_case_insensitive url (codes "ws://"))) [
  | inl e ↦
      let (scheme, parts, spells) = starts-Spells url (codes "ws://") refl e in
      record { scheme = scheme; rest = drop 5 url; parts = parts; known = inl (spells, rw e refl) }
  | inr e ↦ elim (Bool-cases (starts_with_case_insensitive url (codes "wss://"))) [
    | inl f ↦
        let (scheme, parts, spells) = starts-Spells url (codes "wss://") refl f in
        record {
          scheme = scheme;
          rest = drop 6 url;
          parts = parts;
          known = inr (inl (spells, rw (e, f) refl));
        }
    | inr f ↦
        let k : has_http_scheme url ≡ true = rw (e, f) at h in
        elim (Bool-cases (starts_with_case_insensitive url (codes "http://"))) [
          | inl g ↦
              let (scheme, parts, spells) = starts-Spells url (codes "http://") refl g in
              record {
                scheme = scheme;
                rest = drop 7 url;
                parts = parts;
                known = inr (inr (inl (spells, rw (e, f) refl)));
              }
          | inr g ↦
              let (scheme, parts, spells) = starts-Spells url (codes "https://") refl (rw g at k) in
              record {
                scheme = scheme;
                rest = drop 8 url;
                parts = parts;
                known = inr (inr (inr (spells, rw (e, f) refl)));
              }
        ]
  ]
]

http_scheme_lem :
    (url http : Bytes)
    → IsAddress url http
    → (has_http_scheme (http_scheme url) ≡ true) × (http_scheme url ≡ http)
unfolding http_scheme starts_with_case_insensitive starts_with
http_scheme_lem url http a = elim a.known [
  | inl (h, e) ↦
      let (starts, dropped) = Spells-starts a.scheme (codes "ws://") a.rest refl h in
      rw (a.parts, starts, dropped) (refl, sym e)
  | inr (inl (h, e)) ↦
      let (starts, dropped) = Spells-starts a.scheme (codes "wss://") a.rest refl h in
      let not_ws =
        Spells-other a.scheme (codes "wss://") a.rest (codes "ws://") refl refl (omega arith) refl
          h in
      rw (a.parts, not_ws, starts, dropped) (refl, sym e)
  | inr (inr (inl (h, e))) ↦
      let (starts, dropped) = Spells-starts a.scheme (codes "http://") a.rest refl h in
      let not_ws =
        Spells-other a.scheme (codes "http://") a.rest (codes "ws://") refl refl (omega arith) refl
          h in
      let not_wss =
        Spells-other a.scheme (codes "http://") a.rest (codes "wss://") refl refl (omega arith) refl
          h in
      rw (a.parts, not_ws, not_wss, starts) (refl, sym (e ∙ a.parts))
  | inr (inr (inr (h, e))) ↦
      let (starts, dropped) = Spells-starts a.scheme (codes "https://") a.rest refl h in
      let not_ws =
        Spells-other a.scheme (codes "https://") a.rest (codes "ws://") refl refl (omega arith) refl
          h in
      let not_wss =
        Spells-other a.scheme (codes "https://") a.rest (codes "wss://") refl refl (omega arith)
          refl h in
      rw (a.parts, not_ws, not_wss, starts) (either _, sym (e ∙ a.parts))
]
  where
    either : (b : Bool) → (b || true) ≡ true
    either true = refl
    either false = refl

pub IsAddress-iff :
    (url http : Bytes)
    → ((has_http_scheme (http_scheme url) ≡ true) × (http_scheme url ≡ http)) ↔ IsAddress url http
IsAddress-iff url http = (
  λ h. subst (λ text. IsAddress url text) h.1 (http_scheme-IsAddress url h.0),
  http_scheme_lem url http,
)
