-- ===== src/Webhook/Accept.antt =====
-- What an accepted event has passed, and that nothing else is asked of it.
use livekit_server_cpp.Common.{
  ◌≡◌, refl, ap, sym, ◌∙◌, arith, Bool, true, false, not, some, ◌∷◌, ◌++◌, Bytes, IsBytes, codes,
  is_empty, equal, equal_iff, equal_self, Option-cases, inl, inr,
}
use livekit_server_cpp.Crypto.{base64_url_decode, constant_time_equal, hmac_sha256}
use livekit_server_cpp.Crypto.Compare.{constant_time_equal_iff}
use livekit_server_cpp.Crypto.Decode.{base64_url_decode-Decodes}
use livekit_server_cpp.Error.{ok, ok-injective, bind-eq-ok, throw_if-bind-eq-ok}
use livekit_server_cpp.Struct.{Value, Struct, find_field}
use livekit_server_cpp.Webhook.{Backend, KeyProvider, JwtParts, json_string_field, verify_signature}

-- What the code relies on: digests and texts hold bytes.
pub record IsBackend (backend : Backend) : Type 0 where
  pub mac_bytes : (secret value out : Bytes) → backend.evp.mac secret value ≡ some out → IsBytes out
  pub text_bytes :
      (json name text : Bytes) (object : Struct)
      → backend.json.to_struct json ≡ some object
      → find_field name object ≡ some (Value.string text)
      → IsBytes text

not-eq-false : (b : Bool) → not b ≡ false → b ≡ true
not-eq-false true h = refl
not-eq-false false h = cc

module _ (backend : Backend) (key_provider : KeyProvider) where
  -- The claims are signed with HS256 by the issuer that they name, whose secret the provider has.
  pub record IsSigned (parts : JwtParts) (claims : Bytes) : Type 0 where
    pub header : Bytes
    pub issuer : Bytes
    pub secret : Bytes
    pub mac : Bytes
    pub header_text : base64_url_decode parts.header ≡ ok header
    pub algorithm : json_string_field backend.json header "alg" ≡ ok (codes "HS256")
    pub claims_text : base64_url_decode parts.claims ≡ ok claims
    pub names_issuer : json_string_field backend.json claims "iss" ≡ ok issuer
    pub issuer_set : is_empty issuer ≡ false
    pub has_secret : key_provider issuer ≡ ok secret
    pub secret_set : is_empty secret ≡ false
    pub signs : hmac_sha256 backend.evp secret (parts.header ++ b'.' ∷ parts.claims) ≡ ok mac
    pub signature : base64_url_decode parts.signature ≡ ok mac

  -- The members of `IsSigned` but the signature, as the code computes them.
  pub hmac_bytes :
      IsBackend backend
      → (secret value : Bytes) {mac : Bytes} → hmac_sha256 backend.evp secret value ≡ ok mac
      → IsBytes mac
  unfolding hmac_sha256
  hmac_bytes laws secret value {mac} h = elim (Option-cases (backend.evp.mac secret value)) [
    | inl e ↦ ground arith
    | inr (out, e) ↦
        let b = laws.mac_bytes secret value out e in
        let same : out ≡ mac = ground arith in rw (← same) b
  ]

  decoded_bytes : (value : Bytes) {out : Bytes} → base64_url_decode value ≡ ok out → IsBytes out
  decoded_bytes value h = (rw h at (base64_url_decode-Decodes value)).1

  pub verify_signature_sound :
      IsBackend backend
      → (parts : JwtParts) (claims : Bytes)
      → verify_signature backend key_provider parts ≡ ok claims
      → IsSigned parts claims
  unfolding verify_signature
  verify_signature_sound laws parts claims h =
      let (header, e₁, h₁) = bind-eq-ok (base64_url_decode parts.header) _ h in
      let (alg, e₂, h₂) = bind-eq-ok (json_string_field backend.json header "alg") _ h₁ in
      let (t₂, h₃) = throw_if-bind-eq-ok (not (equal alg (codes "HS256"))) _ _ _ h₂ in
      let (claims', e₄, h₄) = bind-eq-ok (base64_url_decode parts.claims) _ h₃ in
      let (issuer, e₅, h₅) = bind-eq-ok (json_string_field backend.json claims' "iss") _ h₄ in
      let (t₅, h₆) = throw_if-bind-eq-ok (is_empty issuer) _ _ _ h₅ in
      let (secret, e₇, h₇) = bind-eq-ok (key_provider issuer) _ h₆ in
      let (t₇, h₈) = throw_if-bind-eq-ok (is_empty secret) _ _ _ h₇ in
      let (mac, e₉, h₉) =
        bind-eq-ok (hmac_sha256 backend.evp secret (parts.header ++ b'.' ∷ parts.claims)) _ h₈ in
      let (actual, e, h₁₀) = bind-eq-ok (base64_url_decode parts.signature) _ h₉ in
      let (t, last) = throw_if-bind-eq-ok (not (constant_time_equal mac actual)) _ _ _ h₁₀ in
      let same : claims' ≡ claims = ok-injective last in
      let equal_macs : mac ≡ actual =
        (constant_time_equal_iff mac actual (hmac_bytes laws secret _ e₉)
            (decoded_bytes parts.signature e)).0
          (not-eq-false _ t) in
      record {
        header = header;
        issuer = issuer;
        secret = secret;
        mac = mac;
        header_text = e₁;
        algorithm = e₂ ∙ ap ok ((equal_iff alg (codes "HS256")).0 (not-eq-false _ t₂));
        claims_text = e₄ ∙ last;
        names_issuer = rw same at e₅;
        issuer_set = t₅;
        has_secret = e₇;
        secret_set = t₇;
        signs = e₉;
        signature = e ∙ ap ok (sym equal_macs);
      }

  pub verify_signature_complete :
      IsBackend backend
      → (parts : JwtParts) (claims : Bytes) → IsSigned parts claims
      → verify_signature backend key_provider parts ≡ ok claims
  unfolding verify_signature
  verify_signature_complete laws parts claims s =
      let b = hmac_bytes laws s.secret (parts.header ++ b'.' ∷ parts.claims) s.signs in
      rw (
        s.header_text,
        s.algorithm,
        equal_self (codes "HS256"),
        s.claims_text,
        s.names_issuer,
        s.issuer_set,
        s.has_secret,
        s.secret_set,
        s.signs,
        s.signature,
        (constant_time_equal_iff s.mac s.mac b b).1 refl,
      )
