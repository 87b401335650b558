-- ===== src/Webhook/Issued.antt =====
-- A token that `AccessToken` signs, at a receiver that knows the key.
use livekit_server_cpp.Common.{
  ℕ, zero, suc, ◌≡◌, refl, sym, subst, ap, ◌∙◌, arith, false, ◌||◌, [], ◌∷◌, ◌++◌, append_assoc,
  Bytes, IsBytes, codes, is_empty, get_or, ◌==◌, if◌then◌else◌, inl, inr, Bool-cases,
}
use livekit_server_cpp.Common.Int.{ℤ, ◌+ℤ◌, fits_int64, trunc_div}
use livekit_server_cpp.Crypto.{url_alphabet, base64, base64_url_encode, hmac_sha256}
use livekit_server_cpp.Crypto.RoundTrip.{base64_url_decode-base64_url_encode}
use livekit_server_cpp.Error.{
  Result, ◌>>=◌, ok, undefined, ok-injective, bind-eq-ok, throw_if-bind-eq-ok,
}
use livekit_server_cpp.Token.Access.{AccessToken, claims_text, jwt_header, add_int64, to_jwt}
use livekit_server_cpp.Webhook.Accept.{IsBackend, hmac_bytes, verify_signature_complete}
use livekit_server_cpp.Webhook.Split.{has_dot, joined, split_jwt_iff}
use livekit_server_cpp.Webhook.{
  Backend, KeyProvider, JwtParts, json_string_field, split_jwt, verify_signature,
}

get_or-no_dot : (xs : Bytes) (i : ℕ) → has_dot xs ≡ false → (get_or xs i 0 == b'.') ≡ false
get_or-no_dot [] i h = refl
get_or-no_dot (x ∷ xs) zero h = ground arith
get_or-no_dot (x ∷ xs) (suc i) h = get_or-no_dot xs i (ground arith)

abbrev NoDots : Bytes → Type 0
NoDots [] = Unit {0}
NoDots (c ∷ s) = ((c == b'.') ≡ false) × NoDots s

has_dot-NoDots : (s : Bytes) → NoDots s → has_dot s ≡ false
has_dot-NoDots [] h = refl
has_dot-NoDots (c ∷ s) (h, k) = rw h (has_dot-NoDots s k)

base64-NoDots : (xs alphabet : Bytes) → has_dot alphabet ≡ false → NoDots (base64 xs alphabet false)
unfolding base64
base64-NoDots [] alphabet h = tt
base64-NoDots (a ∷ []) alphabet h = (get_or-no_dot alphabet _ h, (get_or-no_dot alphabet _ h, tt))
base64-NoDots (a ∷ b ∷ []) alphabet h =
    (get_or-no_dot alphabet _ h, (get_or-no_dot alphabet _ h, (get_or-no_dot alphabet _ h, tt)))
base64-NoDots (a ∷ b ∷ c ∷ xs) alphabet h = (
  get_or-no_dot alphabet _ h,
  (
    get_or-no_dot alphabet _ h,
    (get_or-no_dot alphabet _ h, (get_or-no_dot alphabet _ h, base64-NoDots xs alphabet h)),
  ),
)

has_dot-base64_url_encode : (xs : Bytes) → has_dot (base64_url_encode xs) ≡ false
unfolding base64_url_encode
has_dot-base64_url_encode xs =
    has_dot-NoDots (base64_url_encode xs) (base64-NoDots xs url_alphabet refl)

-- The text that the source puts together from the left.
glue : (s t : Bytes) → s ++ b'.' ∷ [] ++ t ≡ s ++ (b'.' ∷ t)
glue s t = append_assoc s (b'.' ∷ []) t

three :
    (header claims signature : Bytes)
    → header ++ b'.' ∷ [] ++ claims ++ b'.' ∷ [] ++ signature
      ≡ header ++ (b'.' ∷ (claims ++ b'.' ∷ signature))
three header claims signature = simp append_assoc refl

add_int64-eq-ok : (a b sum : ℤ) → add_int64 a b ≡ ok sum → sum ≡ a +ℤ b
unfolding add_int64
add_int64-eq-ok a b sum h = elim (Bool-cases (fits_int64 (a +ℤ b))) [
  | inl fits ↦ sym (ok-injective (sym (ap (λ t. if t then ok (a +ℤ b) else undefined) fits) ∙ h))
  | inr large ↦ absurd (ground arith)
]

-- The claims that a token is signed with at a time.
abbrev pub claims_at : Backend → AccessToken → ℤ → Bytes
claims_at backend token now =
    let issued_at = trunc_div now backend.ticks_per_second in
    claims_text token issued_at (issued_at +ℤ token.valid_for)

module _ (backend : Backend) (key_provider : KeyProvider) (laws : IsBackend backend)
    (token : AccessToken) (now : ℤ) (jwt : Bytes) where
  -- The token's parts, as the receiver sees them, and the claims that it takes from them.
  pub record IsIssued : Type 0 where
    pub parts : JwtParts
    pub splits : split_jwt jwt ≡ ok parts
    pub verified : verify_signature backend key_provider parts ≡ ok (claims_at backend token now)

  -- The last steps of `ToJwt`.
  finish : Bytes → Result Bytes
  finish claims =
      hmac_sha256 backend.evp token.api_secret
        (base64_url_encode jwt_header ++ b'.' ∷ [] ++ base64_url_encode claims)
      >>= λ signature. ok (
          base64_url_encode jwt_header
          ++ b'.' ∷ []
          ++ base64_url_encode claims
          ++ b'.' ∷ []
          ++ base64_url_encode signature)

  -- A token that `ToJwt` signs is split by the receiver, and its signature is accepted, if the
  -- receiver's key provider has the token's secret for its key and protobuf's JSON reads the two
  -- fields `alg` and `iss` back from what was written. HMAC and the claims are assumed to be bytes.
  pub to_jwt-IsIssued :
      to_jwt backend.evp backend.ticks_per_second token now ≡ ok jwt
      → key_provider token.api_key ≡ ok token.api_secret
      → json_string_field backend.json jwt_header "alg" ≡ ok (codes "HS256")
      → json_string_field backend.json (claims_at backend token now) "iss" ≡ ok token.api_key
      → IsBytes (claims_at backend token now)
      → IsIssued
  unfolding to_jwt finish
  to_jwt-IsIssued h has_secret reads_alg iss claims_bytes =
      let issued_at = trunc_div now backend.ticks_per_second in
      let (filled, h₁) =
        throw_if-bind-eq-ok (is_empty token.api_key || is_empty token.api_secret) _ _ _ h in
      let (expires_at, e₂, h₂) = bind-eq-ok (add_int64 issued_at token.valid_for) _ h₁ in
      let claims = claims_at backend token now in
      let sum = add_int64-eq-ok issued_at token.valid_for expires_at e₂ in
      let same : claims_text token issued_at expires_at ≡ claims =
        ap (claims_text token issued_at) sum in
      let header_part = base64_url_encode jwt_header in
      let claims_part = base64_url_encode claims in
      let (mac, e₃, h₃) =
        bind-eq-ok
          (hmac_sha256 backend.evp token.api_secret (header_part ++ b'.' ∷ [] ++ claims_part)) _
          (subst (λ text. finish text ≡ ok jwt) same h₂) in
      let parts : JwtParts = record {
        header = header_part;
        claims = claims_part;
        signature = base64_url_encode mac;
      } in
      let mac_bytes =
        hmac_bytes backend key_provider laws token.api_secret
          (header_part ++ b'.' ∷ [] ++ claims_part) e₃ in
      let text : jwt ≡ joined parts =
        sym (ok-injective h₃) ∙ three header_part claims_part (base64_url_encode mac) in
      record {
        parts = parts;
        splits = (split_jwt_iff jwt parts).1 (
          text,
          record {
            header_dots = has_dot-base64_url_encode jwt_header;
            claims_dots = has_dot-base64_url_encode claims;
            signature_dots = has_dot-base64_url_encode mac;
          },
        );
        verified = verify_signature_complete backend key_provider laws parts claims (record {
          header = jwt_header;
          issuer = token.api_key;
          secret = token.api_secret;
          mac = mac;
          header_text = base64_url_decode-base64_url_encode jwt_header (omega arith);
          algorithm = reads_alg;
          claims_text = base64_url_decode-base64_url_encode claims claims_bytes;
          names_issuer = iss;
          issuer_set = ground arith;
          has_secret = has_secret;
          secret_set = ground arith;
          signs =
              ap (hmac_sha256 backend.evp token.api_secret) (sym (glue header_part claims_part))
              ∙ e₃;
          signature = base64_url_decode-base64_url_encode mac mac_bytes;
        });
      }
