-- ===== src/Context/Outcome.antt =====
-- The ways in which a call ends.
use livekit_server_cpp.Context.Uuid.{request_id-IsUuid}
use livekit_server_cpp.Common.{
  subst, ◌≡◌, ◌≢◌, ◌⊎◌, inl, inr, refl, ap, ◌∙◌, arith, Bool, true, false, Option, none, some, ◌∷◌,
  Bytes, Bool-cases, codes,
}
use livekit_server_cpp.Common.Int.{ltb_ℤ, ltb_ℤ, pos, ◌≤ℤ◌, ◌<ℤ◌}
use livekit_server_cpp.Context.Call.{
  Codec, is_failure, http_error, required, token_for, http_request, read_response, call,
}
use livekit_server_cpp.Context.Exchange.{required-eq-ok, token_for-sent, request_id-sent}
use livekit_server_cpp.Context.{json_string_field, ClientContext, RequestGrant, request_id}
use livekit_server_cpp.Error.{ErrorCode, Error, Result, ok, throw, undefined}
use livekit_server_cpp.Http.{HttpResponse, Machine, World, Action, after_result, ◌>>=◌, lift, send}
use livekit_server_cpp.Struct.{JsonLibrary}

-- An error of the library's own, not of a response.
abbrev pub Throws {ℓ} : {A : Type ℓ} → Result A → ErrorCode → Type ℓ
Throws result code =
    (error : Error) × (result ≡ throw error) × (error.code ≡ code) × (error.http_status ≡ pos 0)

-- What a body is worth.
abbrev pub IsParsed {ℓ} : {A : Type ℓ} → Option A → Result A → Type ℓ
IsParsed none result = Throws result ErrorCode.protocol
IsParsed (some response) result = result ≡ ok response

abbrev pub IsRejected {ℓ} : {A : Type ℓ} → JsonLibrary → HttpResponse → Result A → Type ℓ
IsRejected library reply result =
    (error : Error) × (result ≡ throw error)
    × (error.code ≡ ErrorCode.http)
    × (error.http_status ≡ reply.status_code)
    × (error.twirp_code ≡ json_string_field library reply.body (codes "code"))

module _ (library : JsonLibrary) {Request Response : Type 0} (codec : Codec Request Response) where
  -- The result of a call, by what the transport did.
  abbrev pub IsAnswer : Result HttpResponse → Result Response → Type 0
  IsAnswer undefined result = result ≡ undefined
  IsAnswer (throw error) result = result ≡ throw error
  IsAnswer (ok reply) result =
      ((pos 200 ≤ℤ reply.status_code)
        × (reply.status_code <ℤ pos 300)
        × IsParsed (codec.parse reply.body) result)
      ⊎ (((reply.status_code <ℤ pos 200) ⊎ (pos 300 ≤ℤ reply.status_code))
          × IsRejected library reply result)

  IsParsed-required :
      (parsed : Option Response)
      → IsParsed parsed
          (required ErrorCode.protocol (codes "failed to parse protobuf response") parsed)
  IsParsed-required none = (_, refl, refl, refl)
  IsParsed-required (some response) = refl

  read_response-IsAnswer :
      (reply : HttpResponse) → IsAnswer (ok reply) (read_response library codec reply)
  unfolding read_response http_error
  read_response-IsAnswer reply = go (is_failure reply) refl
    where
      failing :
          is_failure reply ≡ true → (reply.status_code <ℤ pos 200) ⊎ (pos 300 ≤ℤ reply.status_code)
      failing e = elim (Bool-cases (ltb_ℤ reply.status_code (pos 200))) [
        | inl low ↦ inl (ground arith)
        | inr high ↦ inr (ground arith)
      ]

      go :
          (failure : Bool)
          → is_failure reply ≡ failure
          → IsAnswer (ok reply) (read_response library codec reply)
      go true e = inr (failing e, (http_error library reply, ground arith, refl, refl, refl))
      go false e = inl (
        ground arith,
        ground arith,
        subst (λ result. IsParsed (codec.parse reply.body) result) (ground arith)
            (IsParsed-required (codec.parse reply.body)),
      )

module _ (library : JsonLibrary) {Request Response : Type 0} (codec : Codec Request Response)
    (machine : Machine) (context : ClientContext) (service method : Bytes) (request : Request)
    (grant : RequestGrant) (origin : World) where
  -- Why nothing is sent.
  abbrev pub IsUnready : Bool → Type 0
  IsUnready given =
      (given ≡ false)
      ⊎ (((token : Bytes) → (token_for machine context grant origin).0 ≢ ok token)
          ⊎ (codec.serialize request ≡ none))

  -- Nothing was sent, and there is no response.
  abbrev pub IsUnsent : Bool → Result Response × World → Type 0
  IsUnsent given step =
      IsUnready given × (step.1.sent ≡ origin.sent) × ((response : Response) → step.0 ≢ ok response)

  -- One request was sent, with the token of the grant, and the transport decided.
  abbrev pub IsSent : Result Response × World → Type 0
  IsSent step =
      (token : Bytes) × (id : Bytes) × (body : Bytes) × ((token_for machine context grant origin).0
        ≡ ok token)
      × (codec.serialize request ≡ some body)
      × (step.1.sent ≡ http_request context service method token id body ∷ origin.sent)
      × IsAnswer library codec
          (context.transport origin.sent (http_request context service method token id body)) step.0

  before_send {ℓ} :
      {S : Type ℓ} (first : Action S) (rest : S → Action Response) (world : World)
      → (first world).1.sent ≡ origin.sent
      → (((value : S) → (first world).0 ≢ ok value) → IsUnready true)
      → ((value : S) (between : World)
          → (first world).0 ≡ ok value
          → between.sent ≡ origin.sent
          → IsUnsent true (rest value between) ⊎ IsSent (rest value between))
      → IsUnsent true ((first >>= rest) world) ⊎ IsSent ((first >>= rest) world)
  before_send {S = S} first rest world quiet unready later = go (first world) quiet unready later
    where
      go :
          (step : Result S × World)
          → step.1.sent ≡ origin.sent
          → (((value : S) → step.0 ≢ ok value) → IsUnready true)
          → ((value : S) (between : World)
              → step.0 ≡ ok value
              → between.sent ≡ origin.sent
              → IsUnsent true (rest value between) ⊎ IsSent (rest value between))
          → IsUnsent true (after_result rest step) ⊎ IsSent (after_result rest step)
      go (ok value, between) e r k = k value between refl e
      go (throw error, between) e r k = inl (r (λ value h. cc), e, λ response h. cc)
      go (undefined, between) e r k = inl (r (λ value h. cc), e, λ response h. cc)

  required-none {ℓ} :
      {A : Type ℓ} (code : ErrorCode) (content : Bytes) (found : Option A)
      → ((value : A) → required code content found ≢ ok value)
      → found ≡ none
  required-none code content none h = refl
  required-none code content (some value) h = absurd (h value refl)

  at_send :
      (token id body : Bytes) (world : World)
      → (token_for machine context grant origin).0 ≡ ok token
      → codec.serialize request ≡ some body
      → world.sent ≡ origin.sent
      → IsSent (
          (send context.transport (http_request context service method token id body) >>= λ reply.
          lift (read_response library codec reply))
            world)
  unfolding send
  at_send token id body world signed serialized quiet =
      let sent = http_request context service method token id body in
      let (answered, same) = go (context.transport world.sent sent) in
      (
        token,
        id,
        body,
        signed,
        serialized,
        ap (λ (w : World). w.sent) same ∙ ap (λ before. sent ∷ before) quiet,
        subst
            (λ before.
              IsAnswer library codec (context.transport before sent)
                ((send context.transport sent >>= λ reply. lift (read_response library codec reply))
                  world).0)
            quiet answered,
      )
    where
      logged : World
      logged = record world {
        sent = http_request context service method token id body ∷ world.sent;
      }

      go :
          (reply : Result HttpResponse)
          → IsAnswer library codec reply
              (after_result (λ reply. lift (read_response library codec reply)) (reply, logged)).0
            × ((after_result (λ reply. lift (read_response library codec reply)) (reply, logged)).1
                ≡ logged)
      go (ok reply) = (read_response-IsAnswer library codec reply, refl)
      go (throw error) = (refl, refl)
      go undefined = (refl, refl)

  -- A call ends in one of two ways. Either its response is a null pointer, or there is no token, or the
  -- request cannot be serialized; then nothing was sent and there is no response. Or the
  -- response is not null and exactly one request was sent, with the token of its grant and the serialized message, and then the transport's
  -- error is the call's, a reply whose status is not 2xx is an error of HTTP with that status and the
  -- code in its body, and a reply of status 2xx is the response that its body parses to, or else a
  -- protocol error.
  pub call-IsSent :
      (given : Bool)
      → IsUnsent given
          (call library codec machine context service method request given grant origin)
        ⊎ ((given ≡ true)
            × IsSent (call library codec machine context service method request given grant origin))
  unfolding call
  call-IsSent false = inl (inl refl, refl, λ response h. cc)
  call-IsSent true =
      elim (before_send (token_for machine context grant) _ origin
        (token_for-sent machine context grant origin) (λ failed. inr (inl failed))
        (λ token w₁ signed quiet₁.
          before_send (request_id machine) _ w₁ (request_id-sent machine w₁ ∙ quiet₁)
            (λ failed.
              let (text, bytes, drawn, made, randoms, uuid, kept) = request_id-IsUuid machine w₁ in
              absurd (failed text made))
            (λ id w₂ drawn quiet₂.
              before_send (lift (required ErrorCode.protocol _ (codec.serialize request))) _ w₂
                quiet₂ (λ failed. inr (inr (required-none _ _ (codec.serialize request) failed)))
                (λ body w₃ serialized quiet₃. inr (
                  at_send token id body w₃ signed
                    (required-eq-ok _ _ (codec.serialize request) serialized) quiet₃))))) [
                      | inl unsent ↦ inl unsent
                      | inr sent ↦ inr (refl, sent)
                    ]
