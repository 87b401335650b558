-- ===== src/Context/Sent.antt =====
-- What a call has sent, however it ends.
use livekit_server_cpp.Common.{◌≡◌, ◌⊎◌, inl, inr, refl, ap, ◌∙◌, Bool, not, ◌∷◌, Bytes}
use livekit_server_cpp.Context.Call.{Codec, required, token_for, http_request, read_response, call}
use livekit_server_cpp.Context.Exchange.{token_for-sent, request_id-sent}
use livekit_server_cpp.Context.{ClientContext, RequestGrant, request_id}
use livekit_server_cpp.Error.{ErrorCode, Result, ok, throw, undefined, throw_if}
use livekit_server_cpp.Http.{
  HttpRequest, HttpResponse, HttpTransport, Machine, World, Action, after_result, ◌>>=◌, lift, send,
}
use livekit_server_cpp.Struct.{JsonLibrary}

-- Nothing was sent in between, or the one request.
abbrev pub AtMostOne : World → World → Type 0
AtMostOne before after =
    (after.sent ≡ before.sent) ⊎ ((request : HttpRequest) × (after.sent ≡ request ∷ before.sent))

pub AtMostOne-bind {κ ℓ} :
    {S : Type κ} {T : Type ℓ} (first : Action S) (rest : S → Action T) (world : World)
    → (first world).1.sent ≡ world.sent
    → ((value : S) (between : World) → AtMostOne between (rest value between).1)
    → AtMostOne world ((first >>= rest) world).1
AtMostOne-bind {S = S} first rest world quiet later = go (first world) quiet
  where
    extend :
        (between after : World)
        → between.sent ≡ world.sent
        → AtMostOne between after
        → AtMostOne world after
    extend between after e (inl same) = inl (same ∙ e)
    extend between after e (inr (request, one)) =
        inr (request, one ∙ ap (λ before. request ∷ before) e)

    go :
        (step : Result S × World)
        → step.1.sent ≡ world.sent
        → AtMostOne world (after_result rest step).1
    go (ok value, between) e = extend between (rest value between).1 e (later value between)
    go (throw error, between) e = inl e
    go (undefined, between) e = inl e

send-AtMostOne {ℓ} :
    {T : Type ℓ} (transport : HttpTransport) (request : HttpRequest)
    (read : HttpResponse → Result T) (world : World)
    → AtMostOne world ((send transport request >>= λ reply. lift (read reply)) world).1
unfolding send
send-AtMostOne transport request read world = go (transport world.sent request)
  where
    logged : World
    logged = record world { sent = request ∷ world.sent }

    go :
        (reply : Result HttpResponse)
        → AtMostOne world (after_result (λ reply. lift (read reply)) (reply, logged)).1
    go (ok reply) = inr (request, refl)
    go (throw error) = inr (request, refl)
    go undefined = inr (request, refl)

-- A call sends at most one request, however it ends.
pub call-AtMostOne :
    (library : JsonLibrary) {Request Response : Type 0} (codec : Codec Request Response)
    (machine : Machine) (context : ClientContext) (service method : Bytes) (request : Request)
    (given : Bool) (grant : RequestGrant) (world : World)
    → AtMostOne world
        (call library codec machine context service method request given grant world).1
unfolding call
call-AtMostOne library codec machine context service method request given grant world =
    AtMostOne-bind (lift (throw_if (not given) ErrorCode.invalid_argument _)) _ world refl
      (λ start w₀.
        AtMostOne-bind (token_for machine context grant) _ w₀
          (token_for-sent machine context grant w₀)
          (λ token w₁.
            AtMostOne-bind (request_id machine) _ w₁ (request_id-sent machine w₁) (λ id w₂.
              AtMostOne-bind (lift (required ErrorCode.protocol _ (codec.serialize request))) _ w₂
                refl
                (λ body w₃.
                  send-AtMostOne context.transport
                    (http_request context service method token id body)
                    (read_response library codec) w₃))))

-- The same behind a value that is at hand, and before steps that send nothing.
pub AtMostOne-lift {κ ℓ} :
    {S : Type κ} {T : Type ℓ} (first : Result S) (rest : S → Action T) (world : World)
    → ((value : S) → AtMostOne world (rest value world).1)
    → AtMostOne world ((lift first >>= rest) world).1
AtMostOne-lift (ok value) rest world later = later value
AtMostOne-lift (throw error) rest world later = inl refl
AtMostOne-lift undefined rest world later = inl refl

pub AtMostOne-then {κ ℓ} :
    {S : Type κ} {T : Type ℓ} (first : Action S) (rest : S → Action T) (world : World)
    → AtMostOne world (first world).1
    → ((value : S) (between : World) → (rest value between).1.sent ≡ between.sent)
    → AtMostOne world ((first >>= rest) world).1
AtMostOne-then {S = S} first rest world one quiet = go (first world) one
  where
    extend :
        (between after : World)
        → after.sent ≡ between.sent
        → AtMostOne world between
        → AtMostOne world after
    extend between after e (inl same) = inl (e ∙ same)
    extend between after e (inr (request, sent)) = inr (request, e ∙ sent)

    go :
        (step : Result S × World)
        → AtMostOne world step.1
        → AtMostOne world (after_result rest step).1
    go (ok value, between) at_most =
        extend between (rest value between).1 (quiet value between) at_most
    go (throw error, between) at_most = at_most
    go (undefined, between) at_most = at_most
