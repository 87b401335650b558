-- ===== src/Webhook/Receive.antt =====
-- `ReceiveAt` as a whole: it returns an event exactly if the token and the body pass every check.
use livekit_server_cpp.Common.{◌≡◌, ◌↔◌, refl, false, [], ◌∷◌, ◌++◌, Bytes, is_empty}
use livekit_server_cpp.Common.Int.{ℤ, trunc_div}
use livekit_server_cpp.Error.{ok, bind-eq-ok, throw_if-bind-eq-ok}
use livekit_server_cpp.Webhook.Accept.{
  IsBackend, IsSigned, verify_signature_sound, verify_signature_complete,
}
use livekit_server_cpp.Webhook.Checks.{IsCurrent, MatchesBody, verify_times_iff, verify_body_iff}
use livekit_server_cpp.Webhook.Event.{SaysSame, event_of_iff}
use livekit_server_cpp.Webhook.Split.{joined, IsJwt, split_jwt_iff}
use livekit_server_cpp.Webhook.{
  Backend, KeyProvider, JwtParts, WebhookEvent, Message, message, strip_bearer, split_jwt,
  verify_signature, verify_times, verify_body, receive_at,
}

module _ (backend : Backend) (key_provider : KeyProvider) where
  -- All that an event must pass.
  pub record IsAccepted (body authorization : Bytes) (now : ℤ) (event : WebhookEvent) : Type 0 where
    pub parts : JwtParts
    pub claims : Bytes
    pub token : strip_bearer authorization ≡ joined parts
    pub shape : IsJwt parts
    pub signed : IsSigned backend key_provider parts claims
    pub current : IsCurrent claims (trunc_div now backend.ticks_per_second)
    pub matches : MatchesBody backend claims body
    pub source : Message
    pub parsed : backend.parse_event body ≡ message source
    pub says_same : SaysSame body source event

  is_empty-joined : (parts : JwtParts) → is_empty (joined parts) ≡ false
  is_empty-joined parts = start parts.header _
    where
      start : (s r : Bytes) → is_empty (s ++ b'.' ∷ r) ≡ false
      start [] r = refl
      start (c ∷ s) r = refl

  module _ (laws : IsBackend backend) (body authorization : Bytes) (now : ℤ)
      (event : WebhookEvent) where
    receive_at_sound :
        receive_at backend key_provider body authorization now ≡ ok event
        → IsAccepted body authorization now event
    unfolding receive_at
    receive_at_sound h =
        let (t, h₁) = throw_if-bind-eq-ok (is_empty (strip_bearer authorization)) _ _ _ h in
        let (parts, e₂, h₂) = bind-eq-ok (split_jwt (strip_bearer authorization)) _ h₁ in
        let (claims, e₃, h₃) = bind-eq-ok (verify_signature backend key_provider parts) _ h₂ in
        let (u, e₄, h₄) = bind-eq-ok (verify_times backend claims now) _ h₃ in
        let (v, e₅, h₅) = bind-eq-ok (verify_body backend claims body) _ h₄ in
        let split = (split_jwt_iff (strip_bearer authorization) parts).0 e₂ in
        let (source, read, same) = (event_of_iff body (backend.parse_event body) event).0 h₅ in
        record {
          parts = parts;
          claims = claims;
          token = split.0;
          shape = split.1;
          signed = verify_signature_sound backend key_provider laws parts claims e₃;
          current = (verify_times_iff backend claims now).0 e₄;
          matches = (verify_body_iff backend laws claims body).0 e₅;
          source = source;
          parsed = read;
          says_same = same;
        }

    receive_at_complete :
        IsAccepted body authorization now event
        → receive_at backend key_provider body authorization now ≡ ok event
    unfolding receive_at
    receive_at_complete a =
        rw
          (
            a.token,
            is_empty-joined a.parts,
            (split_jwt_iff (joined a.parts) a.parts).1 (refl, a.shape),
            verify_signature_complete backend key_provider laws a.parts a.claims a.signed,
            (verify_times_iff backend a.claims now).1 a.current,
            (verify_body_iff backend laws a.claims body).1 a.matches,
          )
          ((event_of_iff body (backend.parse_event body) event).1 (a.source, a.parsed, a.says_same))

    -- `ReceiveAt` returns an event exactly if the token (behind an optional `Bearer `) is three parts
    -- without dots joined by dots, its header names HS256, its claims name an issuer whose secret the
    -- key provider has and are signed with it, their `exp` and `nbf`, where the text shows them, admit
    -- the time with a leeway of a minute, their `sha256` is the base64 of the body's digest, and
    -- the body parses to a message of which the event says each part. HMAC and the strings of protobuf's JSON are assumed to be bytes.
    pub receive_at_iff :
        (receive_at backend key_provider body authorization now ≡ ok event)
        ↔ IsAccepted body authorization now event
    receive_at_iff = (receive_at_sound, receive_at_complete)
