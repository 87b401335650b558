-- ===== src/Webhook/Split.antt =====
-- Splitting a token at its dots.
use livekit_server_cpp.Common.{
  ◌≡◌, ◌↔◌, refl, ap, ◌∙◌, arith, Bool, true, false, Option, none, some, [], ◌∷◌, ◌++◌, Bytes, ◌==◌,
  if◌then◌else◌, Option-cases, inl, inr,
}
use livekit_server_cpp.Error.{ok}
use livekit_server_cpp.Webhook.{JwtParts, split_dot, split_jwt}

-- No dot in a text.
abbrev pub has_dot : Bytes → Bool
has_dot [] = false
has_dot (c ∷ s) = if c == b'.' then true else has_dot s

-- The text of the three parts.
abbrev pub joined : JwtParts → Bytes
joined parts = parts.header ++ b'.' ∷ (parts.claims ++ b'.' ∷ parts.signature)

-- No part holds a dot.
pub record IsJwt (parts : JwtParts) : Type 0 where
  pub header_dots : has_dot parts.header ≡ false
  pub claims_dots : has_dot parts.claims ≡ false
  pub signature_dots : has_dot parts.signature ≡ false

split_dot-append :
    (before behind : Bytes)
    → has_dot before ≡ false
    → split_dot (before ++ b'.' ∷ behind) ≡ some (before, behind)
unfolding split_dot
split_dot-append [] behind h = refl
split_dot-append (c ∷ before) behind h = ground (arith, split_dot-append before behind)

split_dot-none : (s : Bytes) → has_dot s ≡ false → split_dot s ≡ none
unfolding split_dot
split_dot-none [] h = refl
split_dot-none (c ∷ s) h = ground (arith, split_dot-none s)

split_dot-eq-none : (s : Bytes) → split_dot s ≡ none → has_dot s ≡ false
unfolding split_dot
split_dot-eq-none [] h = refl
split_dot-eq-none (c ∷ s) h = elim (Option-cases (split_dot s)) [
  | inl e ↦ ground (arith, split_dot-eq-none s)
  | inr ((x, y), e) ↦ ground arith
]

split_dot-eq-some :
    (s before behind : Bytes)
    → split_dot s ≡ some (before, behind)
    → (s ≡ before ++ b'.' ∷ behind) × (has_dot before ≡ false)
unfolding split_dot
split_dot-eq-some [] before behind h = cc
split_dot-eq-some (c ∷ s) before behind h = elim (Option-cases (split_dot s)) [
  | inl e ↦ ground arith
  | inr ((x, y), e) ↦ ground (arith, split_dot-eq-some s x y)
]

-- A token is split into three parts exactly if it is three texts without dots, joined by two dots.
pub split_jwt_iff :
    (token : Bytes) (parts : JwtParts)
    → (split_jwt token ≡ ok parts) ↔ ((token ≡ joined parts) × IsJwt parts)
unfolding split_jwt
split_jwt_iff token parts = (sound (split_dot token) refl, complete)
  where
    three :
        (header claims signature behind : Bytes)
        → split_dot token ≡ some (header, behind)
        → split_dot behind ≡ some (claims, signature)
        → has_dot signature ≡ false
        → record { header = header; claims = claims; signature = signature } ≡ parts
        → (token ≡ joined parts) × IsJwt parts
    three header claims signature behind e e' n h =
        let (t, p) = split_dot-eq-some token header behind e in
        let (u, q) = split_dot-eq-some behind claims signature e' in
        rw (← h) (
          t ∙ ap (λ (x : Bytes). header ++ b'.' ∷ x) u,
          record { header_dots = p; claims_dots = q; signature_dots = n },
        )

    sound :
        (o : Option (Bytes × Bytes))
        → split_dot token ≡ o
        → split_jwt token ≡ ok parts
        → (token ≡ joined parts) × IsJwt parts
    sound none e h = ground arith
    sound (some (header, behind)) e h = elim (Option-cases (split_dot behind)) [
      | inl e' ↦ ground arith
      | inr ((claims, signature), e') ↦ elim (Option-cases (split_dot signature)) [
        | inl e'' ↦
            three header claims signature behind e e' (split_dot-eq-none signature e'')
              (ground arith)
        | inr (more, e'') ↦ ground arith
      ]
    ]

    complete : (token ≡ joined parts) × IsJwt parts → split_jwt token ≡ ok parts
    complete (e, j) = ground (
      arith,
      split_dot-append parts.header (parts.claims ++ b'.' ∷ parts.signature),
      split_dot-append parts.claims parts.signature,
      split_dot-none parts.signature,
    )
