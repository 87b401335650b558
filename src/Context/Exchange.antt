-- ===== src/Context/Exchange.antt =====
-- What a call sends, and what it returns.
use livekit_server_cpp.Common.{
  ℕ, zero, suc, ◌≡◌, inl, inr, refl, sym, ap, ◌∙◌, arith, Bool, true, false, Option, none, some,
  List, ◌∷◌, Bytes, codes, is_empty, Bool-cases,
}
use livekit_server_cpp.Common.Int.{pos, ◌≤ℤ◌, ◌<ℤ◌}
use livekit_server_cpp.Context.Call.{
  Codec, is_failure, required, token_for, http_request, read_response, call,
}
use livekit_server_cpp.Context.{ClientContext, RequestGrant, request_id}
use livekit_server_cpp.Error.{ErrorCode, Result, ok, throw, undefined}
use livekit_server_cpp.Http.{
  after_result, HttpRequest, HttpResponse, Machine, World, Action, ◌>>=◌, lift, send, read_clock,
  random_bytes, action-eq-ok,
}
use livekit_server_cpp.Struct.{JsonLibrary}

-- An action that sends nothing.
abbrev pub Silent {ℓ} : {A : Type ℓ} → Action A → Type 0
Silent m = (world : World) → (m world).1.sent ≡ world.sent

pub Silent-bind {ℓ κ} :
    {A : Type ℓ} {B : Type κ} (m : Action A) (f : A → Action B) (world : World)
    → (m world).1.sent ≡ world.sent
    → ((a : A) → Silent (f a))
    → ((m >>= f) world).1.sent ≡ world.sent
Silent-bind {A = A} m f world h k = go (m world) h
  where
    go :
        (step : Result A × World)
        → step.1.sent ≡ world.sent
        → (after_result f step).1.sent ≡ world.sent
    go (ok a, later) e = k a later ∙ e
    go (throw error, later) e = e
    go (undefined, later) e = e

abbrev pub sent_of {ℓ} : {A : Type ℓ} → Result A × World → List HttpRequest
sent_of step = step.1.sent

-- Randomness and the clock send nothing.
pub random_bytes-sent : (machine : Machine) (count : ℕ) → Silent (random_bytes machine count)
unfolding random_bytes
random_bytes-sent machine zero world = refl
random_bytes-sent machine (suc count) world =
    Silent-bind (random_bytes machine count) _ _ (random_bytes-sent machine count _)
      (λ bytes later. refl)

pub request_id-sent : (machine : Machine) → Silent (request_id machine)
unfolding request_id
request_id-sent machine world =
    Silent-bind (random_bytes machine 16) _ world (random_bytes-sent machine 16 world)
      (λ bytes later. refl)

pub token_for-sent :
    (machine : Machine) (context : ClientContext) (grant : RequestGrant)
    → Silent (token_for machine context grant)
unfolding token_for read_clock
token_for-sent machine context grant world = elim (Bool-cases (is_empty context.access_token)) [
  | inl e ↦ ground arith
  | inr e ↦ ground arith
]

pub required-eq-ok {ℓ} :
    {A : Type ℓ} (code : ErrorCode) (text : Bytes) (o : Option A) {a : A}
    → required code text o ≡ ok a
    → o ≡ some a
required-eq-ok code text none h = absurd (ground arith)
required-eq-ok code text (some b) h = ground arith

module _ (library : JsonLibrary) {Request Response : Type 0} (codec : Codec Request Response)
    (machine : Machine) (context : ClientContext) where
  -- How a response came about: one request, authorized by the token of the grant, and a reply of
  -- status 2xx that parses.
  pub record IsExchange (service method : Bytes) (request : Request) (grant : RequestGrant)
      (world later : World) (response : Response) : Type 0 where
    pub token : Bytes
    pub id : Bytes
    pub body : Bytes
    pub reply : HttpResponse
    pub sent : HttpRequest
    pub is_request : sent ≡ http_request context service method token id body
    pub signed : (token_for machine context grant world).0 ≡ ok token
    pub serialized : codec.serialize request ≡ some body
    pub transported : context.transport world.sent sent ≡ ok reply
    pub logged : later.sent ≡ sent ∷ world.sent
    pub succeeded : (pos 200 ≤ℤ reply.status_code) × (reply.status_code <ℤ pos 300)
    pub parsed : codec.parse reply.body ≡ some response

  read_response-eq-ok :
      (reply : HttpResponse) (response : Response)
      → read_response library codec reply ≡ ok response
      → ((pos 200 ≤ℤ reply.status_code) × (reply.status_code <ℤ pos 300))
        × (codec.parse reply.body ≡ some response)
  unfolding read_response
  read_response-eq-ok reply response h = elim (Bool-cases (is_failure reply)) [
    | inl e ↦ absurd (ground arith)
    | inr e ↦ (
      ground arith,
      required-eq-ok ErrorCode.protocol (codes "failed to parse protobuf response")
          (codec.parse reply.body) (ground arith),
    )
  ]

  finish :
      (service method : Bytes) (request : Request) (grant : RequestGrant)
      (world w₁ w₂ w₃ w₄ later : World) (response : Response) (token id body : Bytes)
      (reply : HttpResponse)
      → token_for machine context grant world ≡ (ok token, w₁)
      → request_id machine w₁ ≡ (ok id, w₂)
      → lift
          (required ErrorCode.protocol
            (codes "failed to serialize protobuf request")
            (codec.serialize request))
          w₂
        ≡ (ok body, w₃)
      → send context.transport (http_request context service method token id body) w₃
        ≡ (ok reply, w₄)
      → lift (read_response library codec reply) w₄ ≡ (ok response, later)
      → IsExchange service method request grant world later response
  unfolding send
  finish service method request grant world w₁ w₂ w₃ w₄ later response token id body reply e₁ e₂ e₃
        e₄ e₅ =
      let sent = http_request context service method token id body in
      let quiet₁ : w₁.sent ≡ world.sent =
        ap sent_of (sym e₁) ∙ token_for-sent machine context grant world in
      let quiet₂ : w₂.sent ≡ w₁.sent = ap sent_of (sym e₂) ∙ request_id-sent machine w₁ in
      let quiet₃ : w₃.sent ≡ w₂.sent = ap sent_of (sym e₃) in
      let quiet = quiet₃ ∙ quiet₂ ∙ quiet₁ in
      let read = read_response-eq-ok reply response (ap (λ step. step.0) e₅) in
      record {
        token = token;
        id = id;
        body = body;
        reply = reply;
        sent = sent;
        is_request = refl;
        signed = ap (λ step. step.0) e₁;
        serialized = required-eq-ok _ _ (codec.serialize request) (ap (λ step. step.0) e₃);
        transported =
            ap (λ before. context.transport before sent) (sym quiet) ∙ ap (λ step. step.0) e₄;
        logged = ap sent_of (sym e₅) ∙ ap sent_of (sym e₄) ∙ ap (λ before. sent ∷ before) quiet;
        succeeded = read.0;
        parsed = read.1;
      }

  -- A call that returns a response has sent exactly one request.
  pub call-IsExchange :
      (service method : Bytes) (request : Request) (given : Bool) (grant : RequestGrant)
      (world later : World) (response : Response)
      → call library codec machine context service method request given grant world
        ≡ (ok response, later)
      → IsExchange service method request grant world later response
  unfolding call
  call-IsExchange service method request false grant world later response h = absurd (ground arith)
  call-IsExchange service method request true grant world later response h =
      let (token, w₁, e₁, h₁) = action-eq-ok (token_for machine context grant) _ world h in
      let (id, w₂, e₂, h₂) = action-eq-ok (request_id machine) _ w₁ h₁ in
      let (body, w₃, e₃, h₃) =
        action-eq-ok (lift (required ErrorCode.protocol _ (codec.serialize request))) _ w₂ h₂ in
      let (reply, w₄, e₄, h₄) =
        action-eq-ok (send context.transport (http_request context service method token id body)) _
          w₃ h₃ in
      finish service method request grant world w₁ w₂ w₃ w₄ later response token id body reply e₁ e₂
        e₃ e₄ h₄
