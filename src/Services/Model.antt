-- ===== src/Services/Model.antt =====
-- src/detail/proto/json_codec.h and include/livekit/server/model/protocol_model.h: a message as JSON
-- text, and the methods of the clients on such messages. protobuf's conversions are parameters.
use livekit_server_cpp.Common.{
  ◌≡◌, ◌↔◌, refl, sym, ap, ◌∙◌, Bool, ◌||◌, ◌++◌, Bytes, codes, is_empty, equal,
}
use livekit_server_cpp.Error.{ErrorCode, Result, ok, throw, plain_error}
use livekit_server_cpp.Http.{World, Action, ◌>>=◌, lift, action-eq-ok}

-- `ProtocolModel`, whose text is an object without members unless it is given.
pub record ProtocolModel : Type 0 where
  pub json : Bytes

unfoldable pub default_model : ProtocolModel
default_model = record { json = codes "{}" }

-- `FromJson`.
abbrev pub from_json : Bytes → ProtocolModel
from_json json = record { json = json }

-- `Empty`.
unfoldable pub is_empty_model : ProtocolModel → Bool
is_empty_model model = is_empty model.json || equal model.json (codes "{}")

-- A conversion by protobuf: its value, or the text of a status that is not ok.
pub data Converted (A : Type 0) : Type 0 where
  converted : A → Converted A
  bad_status : Bytes → Converted A

-- A message type: `descriptor()->full_name()`, and its conversions from and to JSON.
pub record MessageType (A : Type 0) : Type 0 where
  pub full_name : Bytes
  pub from_text : Bytes → Converted A
  pub to_text : A → Converted Bytes

module _ {A : Type 0} (type : MessageType A) where
  unfoldable pub decoded : Converted A → Result A
  decoded (converted message) = ok message
  decoded (bad_status text) = throw (
      plain_error ErrorCode.protocol
        (codes "invalid " ++ (type.full_name ++ (codes " JSON: " ++ text))))

  unfoldable pub encoded : Converted Bytes → Result ProtocolModel
  encoded (converted json) = ok (from_json json)
  encoded (bad_status text) = throw (
      plain_error ErrorCode.protocol
        (codes "could not encode " ++ (type.full_name ++ (codes " as JSON: " ++ text))))

  -- `FromModel`.
  unfoldable pub from_model : ProtocolModel → Result A
  from_model model = decoded (type.from_text model.json)

  -- `ToModel`.
  unfoldable pub to_model : A → Result ProtocolModel
  to_model message = encoded (type.to_text message)

module _ {Request Response : Type 0} (request_type : MessageType Request)
    (response_type : MessageType Response) (method : Request → Action Response) where
  -- A method on the model types, from the method on protobuf's: the macros `LIVEKIT_..._MODEL_METHOD`.
  unfoldable pub model_method : ProtocolModel → Action ProtocolModel
  model_method model = do
    request ← lift (from_model request_type model)
    response ← method request
    lift (to_model response_type response)

  -- A method on the model types returns exactly what the method on protobuf's types does, between the
  -- two conversions.
  pub model_method_iff :
      (model : ProtocolModel) (world later : World) (result : ProtocolModel)
      → (model_method model world ≡ (ok result, later)) ↔ (
          (request : Request) × (response : Response) × (from_model request_type model ≡ ok request)
          × (method request world ≡ (ok response, later))
          × (to_model response_type response ≡ ok result))
  unfolding model_method
  model_method_iff model world later result = (sound, complete)
    where
      sound :
          model_method model world ≡ (ok result, later)
          → (request : Request) × (response : Response) × (from_model request_type model
              ≡ ok request)
            × (method request world ≡ (ok response, later))
            × (to_model response_type response ≡ ok result)
      sound h =
          let (request, w₁, e₁, h₁) =
            action-eq-ok (lift (from_model request_type model)) _ world h in
          let (response, w₂, e₂, h₂) = action-eq-ok (method request) _ w₁ h₁ in
          let start : w₁ ≡ world = ap (λ step. step.1) (sym e₁) in
          let stop : w₂ ≡ later = ap (λ step. step.1) h₂ in
          (
            request,
            response,
            ap (λ step. step.0) e₁,
            ap (method request) (sym start) ∙ e₂ ∙ ap (λ world. (ok response, world)) stop,
            ap (λ step. step.0) h₂,
          )

      complete :
          (request : Request) × (response : Response) × (from_model request_type model ≡ ok request)
            × (method request world ≡ (ok response, later))
            × (to_model response_type response ≡ ok result)
          → model_method model world ≡ (ok result, later)
      complete (request, response, e₁, e₂, e₃) = rw (e₁, e₂, e₃) refl
