-- ===== src/CApi/Operations/Sent.antt =====
-- What an operation sends: one request at most.
use livekit_server_cpp.CApi.Operations.{
  Operation, Protocol, operations, find_operation, operation_call, operation_method, call_found,
  call_by_name, dispatch_model, get_dispatch_model,
}
use livekit_server_cpp.Common.{Option, none, some, List, [], ◌∷◌, Bytes, refl, inl}
use livekit_server_cpp.Context.Call.{Codec}
use livekit_server_cpp.Context.Sent.{
  AtMostOne, AtMostOne-bind, AtMostOne-lift, AtMostOne-then, call-AtMostOne,
}
use livekit_server_cpp.Context.{RequestGrant}
use livekit_server_cpp.Http.{World, Action, lift, done}
use livekit_server_cpp.Context.Exchange.{Silent, Silent-bind}
use livekit_server_cpp.Services.Agent.{AgentMethod, ListRequest, agent_call, get_dispatch}
use livekit_server_cpp.Services.Model.{
  MessageType, ProtocolModel, from_json, from_model, to_model, model_method,
}
use livekit_server_cpp.Services.Room.{RoomMethod, RoomFields, prepare, room_call}
use livekit_server_cpp.Services.Room.Laws.{prepare-sent}
use livekit_server_cpp.Services.Sip.{sip_call}
use livekit_server_cpp.Services.{Client, perform, egress_call, ingress_call, connector_call}

-- An action that sends one request at most, whatever the world.
abbrev pub SendsOne {ℓ} : {A : Type ℓ} → Action A → Type 0
SendsOne action = (world : World) → AtMostOne world (action world).1

perform-SendsOne :
    (client : Client) {Request Response : Type 0} (codec : Codec Request Response)
    (service method : Bytes) (request : Request) (grant : RequestGrant)
    → SendsOne (perform client codec service method request grant)
unfolding perform
perform-SendsOne client codec service method request grant =
    call-AtMostOne client.library codec client.machine client.context service method request _ grant

room_call-SendsOne :
    (client : Client) {Request Response : Type 0} (codec : Codec Request Response)
    (fields : RoomFields Request) (method : RoomMethod) (request : Request)
    → SendsOne (room_call client codec fields method request)
unfolding room_call
room_call-SendsOne client codec fields method request world =
    AtMostOne-bind (prepare client codec fields method request) _ world
      (prepare-sent client codec fields method request world)
      (λ prepared. perform-SendsOne client codec _ _ prepared _)

model_method-SendsOne :
    {Request Response : Type 0} (request_type : MessageType Request)
    (response_type : MessageType Response) (method : Request → Action Response)
    (model : ProtocolModel)
    → ((request : Request) → SendsOne (method request))
    → SendsOne (model_method request_type response_type method model)
unfolding model_method
model_method-SendsOne request_type response_type method model one world =
    AtMostOne-lift (from_model request_type model) _ world (λ request.
      AtMostOne-then (method request) _ world (one request world) (λ response between. refl))

agent_call-SendsOne :
    (client : Client) {Request Response : Type 0} (codec : Codec Request Response)
    (method : AgentMethod) (room_of : Request → Bytes) (request : Request)
    → SendsOne (agent_call client codec method room_of request)
unfolding agent_call
agent_call-SendsOne client codec method room_of request =
    perform-SendsOne client codec _ _ request _

get_dispatch-SendsOne :
    (client : Client) {Dispatch : Type 0} (codec : Codec ListRequest (List Dispatch))
    (dispatch_id room_name : Bytes)
    → SendsOne (get_dispatch client codec dispatch_id room_name)
unfolding get_dispatch
get_dispatch-SendsOne client codec dispatch_id room_name world =
    let request : ListRequest = record { dispatch_id = dispatch_id; room = room_name } in
    AtMostOne-then
      (agent_call client codec AgentMethod.list_dispatch (λ request. request.room) request)
      (λ dispatches. done (elim dispatches [ [] ↦ none | dispatch ∷ more ↦ some dispatch ])) world
      (agent_call-SendsOne client codec AgentMethod.list_dispatch (λ request. request.room) request
        world)
      (λ dispatches between. refl)

module _ (client : Client) (protocol : Protocol) where
  operation_call-SendsOne :
      (operation : Operation) (request : protocol.Request operation)
      → SendsOne (operation_call client protocol operation request)
  unfolding operation_call egress_call ingress_call sip_call connector_call
  operation_call-SendsOne (Operation.room method) request =
      room_call-SendsOne client _ _ method request
  operation_call-SendsOne (Operation.egress method) request =
      perform-SendsOne client _ _ _ request _
  operation_call-SendsOne (Operation.ingress method) request =
      perform-SendsOne client _ _ _ request _
  operation_call-SendsOne (Operation.sip method) request = perform-SendsOne client _ _ _ request _
  operation_call-SendsOne (Operation.agent method) request =
      agent_call-SendsOne client _ method _ request
  operation_call-SendsOne (Operation.connector method) request =
      perform-SendsOne client _ _ _ request _

  call_found-SendsOne :
      (found : Option Operation) (request : Bytes)
      → SendsOne (call_found client protocol found request)
  unfolding call_found operation_method
  call_found-SendsOne none request world = inl refl
  call_found-SendsOne (some operation) request world =
      AtMostOne-then (operation_method client protocol operation (from_json request)) _ world
        (model_method-SendsOne _ _ _ _ (operation_call-SendsOne operation) world)
        (λ response between. refl)

  pub call_by_name-SendsOne :
      (name request : Bytes) → SendsOne (call_by_name client protocol name request)
  unfolding call_by_name
  call_by_name-SendsOne name request = call_found-SendsOne (find_operation name operations) request

  dispatch_model-Silent :
      (found : Option protocol.Dispatch) → Silent (dispatch_model client protocol found)
  unfolding dispatch_model
  dispatch_model-Silent none world = refl
  dispatch_model-Silent (some dispatch) world =
      Silent-bind (lift (to_model protocol.dispatch_type dispatch)) _ world refl
        (λ model between. refl)

  pub get_dispatch_model-SendsOne :
      (dispatch_id room_name : Bytes)
      → SendsOne (get_dispatch_model client protocol dispatch_id room_name)
  unfolding get_dispatch_model
  get_dispatch_model-SendsOne dispatch_id room_name world =
      AtMostOne-then (get_dispatch client protocol.list_codec dispatch_id room_name) _ world
        (get_dispatch-SendsOne client protocol.list_codec dispatch_id room_name world)
        (dispatch_model-Silent)
