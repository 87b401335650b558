-- ===== src/Context/Url/Normal.antt =====
-- What `NormalizeUrl` accepts, and what it makes of it.
use livekit_server_cpp.Common.{
  ℕ, zero, suc, ◌≡◌, ◌↔◌, refl, sym, ap, ap₂, ◌∙◌, arith, Bool, true, false, not, ◌&&◌, [], ◌∷◌,
  ◌++◌, Bytes, codes, ◌==◌, is_empty, Bool-cases, inl, inr,
}
use livekit_server_cpp.Context.Url.{
  starts_with_case_insensitive, strip_slashes, http_scheme, normalize_url,
}
use livekit_server_cpp.Context.Url.Address.{IsAddress, has_http_scheme, IsAddress-iff}
use livekit_server_cpp.Error.{ok, throw_if-bind-eq-ok}

abbrev pub slashes : ℕ → Bytes
slashes zero = []
slashes (suc n) = b'/' ∷ slashes n

-- The last byte, where there is one, is no slash.
abbrev pub ends_in_slash : Bytes → Bool
ends_in_slash [] = false
ends_in_slash (c ∷ []) = c == b'/'
ends_in_slash (c ∷ d ∷ url) = ends_in_slash (d ∷ url)

strip_slashes-empty : (n : ℕ) → strip_slashes (slashes n) ≡ []
unfolding strip_slashes
strip_slashes-empty zero = refl
strip_slashes-empty (suc n) = ground (arith, strip_slashes-empty n)

-- Stripping undoes what slashes were added to a text that ends in none.
strip_slashes-append :
    (url : Bytes) (n : ℕ) → ends_in_slash url ≡ false → strip_slashes (url ++ slashes n) ≡ url
unfolding strip_slashes
strip_slashes-append [] n h = strip_slashes-empty n
strip_slashes-append (c ∷ []) n h = ground (arith, strip_slashes-empty n)
strip_slashes-append (c ∷ d ∷ url) n h = ground (arith, strip_slashes-append (d ∷ url) n h)

strip_slashes-drop :
    (c : ℕ) (url : Bytes)
    → (c == b'/' && is_empty (strip_slashes url)) ≡ true
    → strip_slashes (c ∷ url) ≡ []
unfolding strip_slashes
strip_slashes-drop c url h = rw h refl

strip_slashes-keep :
    (c : ℕ) (url : Bytes)
    → (c == b'/' && is_empty (strip_slashes url)) ≡ false
    → strip_slashes (c ∷ url) ≡ c ∷ strip_slashes url
unfolding strip_slashes
strip_slashes-keep c url h = rw h refl

slash_only : (c : ℕ) (url : Bytes) → (c == b'/' && is_empty url) ≡ true → (c ≡ b'/') × (url ≡ [])
slash_only c [] h = (ground arith, refl)
slash_only c (d ∷ url) h = absurd (ground arith)

ends_in_slash-keep :
    (c : ℕ) (url : Bytes)
    → (c == b'/' && is_empty url) ≡ false
    → ends_in_slash url ≡ false
    → ends_in_slash (c ∷ url) ≡ false
ends_in_slash-keep c [] h k = ground arith
ends_in_slash-keep c (d ∷ url) h k = k

strip_slashes-nil : strip_slashes [] ≡ []
unfolding strip_slashes
strip_slashes-nil = refl

strip_slashes-parts :
    (url : Bytes)
    → (ends_in_slash (strip_slashes url) ≡ false) × (n : ℕ) × (url ≡ strip_slashes url ++ slashes n)
strip_slashes-parts [] = rw strip_slashes-nil (refl, zero, refl)
strip_slashes-parts (c ∷ url) =
    let (kept, n, e) = strip_slashes-parts url in
    elim (Bool-cases (c == b'/' && is_empty (strip_slashes url))) [
      | inl h ↦
          let (slash, none) = slash_only c (strip_slashes url) h in
          rw (strip_slashes-drop c url h)
            (refl, suc n, ap₂ (λ c url. c ∷ url) slash (e ∙ ap (λ s. s ++ slashes n) none))
      | inr h ↦
          rw (strip_slashes-keep c url h)
            (ends_in_slash-keep c (strip_slashes url) h kept, n, ap (λ url. c ∷ url) e)
    ]

normalize_url-http_scheme :
    (url normal : Bytes)
    → (normalize_url url ≡ ok normal) ↔ (
        (has_http_scheme (http_scheme url) ≡ true)
        × (ends_in_slash normal ≡ false)
        × (n : ℕ) × (http_scheme url ≡ normal ++ slashes n))
unfolding normalize_url
normalize_url-http_scheme url normal = (sound, complete)
  where
    sound :
        normalize_url url ≡ ok normal
        → (has_http_scheme (http_scheme url) ≡ true)
          × (ends_in_slash normal ≡ false)
          × (n : ℕ) × (http_scheme url ≡ normal ++ slashes n)
    sound h =
        let (t, k) =
          throw_if-bind-eq-ok
            (not (starts_with_case_insensitive (http_scheme url) (codes "http://"))
              && not (starts_with_case_insensitive (http_scheme url) (codes "https://")))
            _ _ _ h in
        let stripped : strip_slashes (http_scheme url) ≡ normal = ground arith in
        let (kept, n, e) = strip_slashes-parts (http_scheme url) in
        (
          ground arith,
          ap ends_in_slash (sym stripped) ∙ kept,
          n,
          e ∙ ap (λ s. s ++ slashes n) stripped,
        )

    complete :
        (has_http_scheme (http_scheme url) ≡ true)
          × (ends_in_slash normal ≡ false)
          × (n : ℕ) × (http_scheme url ≡ normal ++ slashes n)
        → normalize_url url ≡ ok normal
    complete (scheme, kept, n, e) =
        let strip : strip_slashes (http_scheme url) ≡ normal =
          ap strip_slashes e ∙ strip_slashes-append normal n kept in
        ground arith

-- `NormalizeUrl` returns a text exactly if the address has one of the four schemes, in letters of any
-- size, and the address of HTTP that it stands for is that text and slashes behind it, of which the
-- text keeps none.
pub normalize_url_iff :
    (url normal : Bytes)
    → (normalize_url url ≡ ok normal) ↔ (
        (http : Bytes) × IsAddress url http
        × (ends_in_slash normal ≡ false)
        × (n : ℕ) × (http ≡ normal ++ slashes n))
normalize_url_iff url normal =
    let (sound, complete) = normalize_url-http_scheme url normal in
    (
      λ h.
          let (scheme, kept, n, e) = sound h in
          (http_scheme url, (IsAddress-iff url (http_scheme url)).0 (scheme, refl), kept, n, e),
      λ (http, address, kept, n, e).
          let (scheme, same) = (IsAddress-iff url http).1 address in
          complete (scheme, kept, n, same ∙ e),
    )
