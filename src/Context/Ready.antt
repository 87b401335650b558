-- ===== src/Context/Ready.antt =====
-- What the constructor of `ClientContext` guarantees, and what it is enough for.
use livekit_server_cpp.Common.{
  ◌≡◌, ◌⊎◌, refl, sym, ap, ◌∙◌, arith, true, false, ◌&&◌, ◌||◌, Option, none, some, [], ◌∷◌, ◌++◌,
  Bytes, is_empty, Bool-cases, inl, inr,
}
use livekit_server_cpp.Common.Int.{ℤ, pos, ◌<ℤ◌, leb_ℤ, ◌+ℤ◌, fits_int64, trunc_div}
use livekit_server_cpp.Context.Call.{give, granted_token, token_for}
use livekit_server_cpp.Context.Create.{insufficient, chosen_url, chosen_transport, client_context}
use livekit_server_cpp.Context.Url.Normal.{ends_in_slash, normalize_url_iff}
use livekit_server_cpp.Context.Url.{normalize_url}
use livekit_server_cpp.Context.{ClientContext, RequestGrant, credentials}
use livekit_server_cpp.Crypto.{base64_url_encode, hmac_sha256}
use livekit_server_cpp.Error.{
  Result, is_ok, ◌>>=◌, ok, throw, undefined, ok-injective, bind-eq-ok, throw_if-bind-eq-ok,
}
use livekit_server_cpp.Http.{ApiOptions, Machine, World, read_clock}
use livekit_server_cpp.Token.Access.{
  AccessToken, access_token, set_video_grant, set_sip_grant, set_agent_grant, add_int64, to_jwt,
}
use livekit_server_cpp.Token.{VideoGrant, SipGrant, AgentGrant}

-- A context that can sign or send its token, in good time, to an address without a slash at its end.
pub record IsReady (context : ClientContext) : Type 0 where
  pub can_authorize :
      (is_empty context.access_token && (is_empty context.api_key || is_empty context.api_secret))
      ≡ false
  pub in_time : pos 0 <ℤ context.timeout
  pub no_slash : ends_in_slash context.url ≡ false

-- Every context that the constructor builds, from the options and the environment, is ready: it
-- holds a token or both key and secret, its timeout is positive and its address ends in no slash.
pub client_context-IsReady :
    (machine : Machine) (options : ApiOptions) (context : ClientContext)
    → client_context machine options ≡ ok context
    → IsReady context
unfolding client_context
client_context-IsReady machine options context h =
    let c = credentials machine options in
    let (t₁, h₁) = throw_if-bind-eq-ok (is_empty (chosen_url machine options)) _ _ _ h in
    let (url, e₂, h₂) = bind-eq-ok (normalize_url (chosen_url machine options)) _ h₁ in
    let (t₃, h₃) = throw_if-bind-eq-ok (insufficient c) _ _ _ h₂ in
    let (t₄, h₄) = throw_if-bind-eq-ok (leb_ℤ options.timeout (pos 0)) _ _ _ h₃ in
    let (transport, e₅, h₅) = bind-eq-ok (chosen_transport machine options.transport) _ h₄ in
    let (http, address, kept, n, rest) =
      (normalize_url_iff (chosen_url machine options) url).0 e₂ in
    let built = ok-injective h₅ in
    record {
      can_authorize =
          ap
            (λ built.
              is_empty built.access_token && (is_empty built.api_key || is_empty built.api_secret))
            (sym built)
          ∙ t₃;
      in_time =
          positive context.timeout (ap (λ built. leb_ℤ built.timeout (pos 0)) (sym built) ∙ t₄);
      no_slash = ap (λ built. ends_in_slash built.url) (sym built) ∙ kept;
    }
  where
    positive : (timeout : ℤ) → leb_ℤ timeout (pos 0) ≡ false → pos 0 <ℤ timeout
    positive timeout h = ground arith

-- The token that carries a grant for a context: its key and secret, the grants, six hours, and nothing
-- else.
abbrev pub grant_token : ClientContext → RequestGrant → AccessToken
grant_token context grant = record {
  api_key = context.api_key;
  api_secret = context.api_secret;
  identity = [];
  name = [];
  metadata = [];
  attributes = [];
  valid_for = pos 21600;
  video_grant = grant.video;
  sip_grant = grant.sip;
  agent_grant = grant.agent;
}

granted_token_lem :
    (context : ClientContext) (grant : RequestGrant)
    → granted_token context grant ≡ grant_token context grant
unfolding granted_token access_token set_video_grant set_sip_grant set_agent_grant
granted_token_lem context grant = split grant.video grant.sip grant.agent
  where
    split :
        (video : Option VideoGrant) (sip : Option SipGrant) (agent : Option AgentGrant)
        → give set_agent_grant agent (
            give set_sip_grant sip
              (give set_video_grant video (access_token context.api_key context.api_secret)))
          ≡ grant_token context (record { video = video; sip = sip; agent = agent })
    split none none none = refl
    split none none (some a) = refl
    split none (some s) none = refl
    split none (some s) (some a) = refl
    split (some v) none none = refl
    split (some v) none (some a) = refl
    split (some v) (some s) none = refl
    split (some v) (some s) (some a) = refl

-- A token with key and secret is signed, if HMAC does not fail and the expiry fits an `int64_t`.
to_jwt-total :
    (machine : Machine) (token : AccessToken) (now : ℤ)
    → (is_empty token.api_key || is_empty token.api_secret) ≡ false
    → fits_int64 (trunc_div now machine.ticks_per_second +ℤ token.valid_for) ≡ true
    → ((secret value : Bytes) → (mac : Bytes) × (hmac_sha256 machine.evp secret value ≡ ok mac))
    → (jwt : Bytes) × (to_jwt machine.evp machine.ticks_per_second token now ≡ ok jwt)
unfolding to_jwt add_int64
to_jwt-total machine token now filled fits total =
    ok_value (to_jwt machine.evp machine.ticks_per_second token now) signed
  where
    ok_value : (result : Result Bytes) → is_ok result ≡ true → (jwt : Bytes) × (result ≡ ok jwt)
    ok_value (ok jwt) h = (jwt, refl)
    ok_value (throw error) h = absurd (ground arith)
    ok_value undefined h = absurd (ground arith)

    signs :
        (value : Bytes)
        → is_ok (
            hmac_sha256 machine.evp token.api_secret value >>= λ mac.
            ok (value ++ b'.' ∷ [] ++ base64_url_encode mac))
          ≡ true
    signs value = let (mac, e) = total token.api_secret value in rw e refl

    signed : is_ok (to_jwt machine.evp machine.ticks_per_second token now) ≡ true
    signed = rw (filled, fits) (signs _)

-- The context's own token, or where it has none, the one that `ToJwt` makes at a time, of the context's
-- key and secret and of the grants, for six hours.
abbrev pub IsTokenFor : Machine → ClientContext → RequestGrant → ℤ → Bytes → Type 0
IsTokenFor machine context grant now token =
    ((is_empty context.access_token ≡ false) × (token ≡ context.access_token))
    ⊎ ((context.access_token ≡ [])
        × (to_jwt machine.evp machine.ticks_per_second (grant_token context grant) now ≡ ok token))

-- A context that is ready has a token for every grant, if HMAC does not fail and six hours from now
-- fit an `int64_t` of seconds: its own, or else one that it signs with its key and secret, of the
-- grants and for six hours from the time that it reads from the clock.
pub token_for-IsReady :
    (machine : Machine) (context : ClientContext) (grant : RequestGrant) (world : World)
    → IsReady context
    → fits_int64 (trunc_div (machine.clock world.readings) machine.ticks_per_second +ℤ pos 21600)
      ≡ true
    → ((secret value : Bytes) → (mac : Bytes) × (hmac_sha256 machine.evp secret value ≡ ok mac))
    → (token : Bytes) × ((token_for machine context grant world).0 ≡ ok token)
      × IsTokenFor machine context grant (machine.clock world.readings) token
unfolding token_for read_clock
token_for-IsReady machine context grant world ready fits total =
    elim (Bool-cases (is_empty context.access_token)) [
      | inr e ↦ (context.access_token, rw e refl, inl (e, refl))
      | inl e ↦
          let (jwt, signed) =
            to_jwt-total machine (grant_token context grant) (machine.clock world.readings)
              (ground (arith, ready.can_authorize)) fits total in
          (jwt, rw (e, granted_token_lem context grant) signed, inr (is_empty-nil _ e, signed))
    ]
  where
    is_empty-nil : (text : Bytes) → is_empty text ≡ true → text ≡ []
    is_empty-nil [] h = refl
    is_empty-nil (c ∷ text) h = absurd (ground arith)
