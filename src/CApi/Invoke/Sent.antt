-- ===== src/CApi/Invoke/Sent.antt =====
-- What an invocation sends: one request at most.
use livekit_server_cpp.CApi.Fields.{string_field, object_field, parse, decode_body}
use livekit_server_cpp.CApi.Host.{Callback}
use livekit_server_cpp.CApi.Invoke.{
  Linked, check_length, envelope, caught, execute_on, execute_call, execute_sign, execute_operation,
  execute, invoke_value, lks_invoke,
}
use livekit_server_cpp.CApi.Keys.{key_provider_of}
use livekit_server_cpp.CApi.Operations.Sent.{
  SendsOne, call_by_name-SendsOne, get_dispatch_model-SendsOne,
}
use livekit_server_cpp.CApi.Operations.{call_by_name, get_dispatch_model}
use livekit_server_cpp.CApi.Options.{options_of, live_kit_api}
use livekit_server_cpp.CApi.Receive.{receive, receive_now}
use livekit_server_cpp.CApi.Sign.{sign}
use livekit_server_cpp.Common.{Option, none, some, Bytes, codes, equal, Bool-cases, inl, inr, refl}
use livekit_server_cpp.Context.Sent.{AtMostOne, AtMostOne-lift, AtMostOne-then}
use livekit_server_cpp.Http.{World, Machine, read_clock}
use livekit_server_cpp.Services.{Client}
use livekit_server_cpp.Struct.{Struct}
use livekit_server_cpp.Webhook.{Backend, KeyProvider}

receive_now-SendsOne :
    (machine : Machine) (backend : Backend) (key_provider : KeyProvider)
    (body authorization : Bytes)
    → SendsOne (receive_now machine backend key_provider body authorization)
unfolding receive_now read_clock
receive_now-SendsOne machine backend key_provider body authorization world = inl refl

module _ (linked : Linked) (callback : Callback) where
  receive-SendsOne :
      (options : Struct)
      → SendsOne (receive linked.machine linked.json linked.parse_event callback options)
  unfolding receive
  receive-SendsOne options world =
      AtMostOne-lift (key_provider_of linked.json callback options) _ world (λ key_provider.
        AtMostOne-lift (decode_body options "body") _ world (λ body.
          AtMostOne-lift (string_field options "authorization") _ world (λ authorization.
            AtMostOne-then (receive_now linked.machine _ key_provider body authorization) _ world
              (receive_now-SendsOne linked.machine _ key_provider body authorization world)
              (λ event between. refl))))

  execute_on-SendsOne :
      (client : Client) (operation : Bytes) (input : Struct)
      → SendsOne (execute_on linked callback client operation input)
  unfolding execute_on
  execute_on-SendsOne client operation input world =
      elim (Bool-cases (equal operation (codes "get_dispatch"))) [
        | inl e ↦ rw e (
            AtMostOne-lift (string_field input "dispatch_id") _ world (λ dispatch_id.
              AtMostOne-lift (string_field input "room") _ world (λ room.
                AtMostOne-then (get_dispatch_model client linked.protocol dispatch_id room) _ world
                  (get_dispatch_model-SendsOne client linked.protocol dispatch_id room world)
                  (λ found between. refl))))
        | inr e ↦ rw e (
            AtMostOne-lift (string_field input "request") _ world (λ request.
              AtMostOne-then (call_by_name client linked.protocol operation request) _ world
                (call_by_name-SendsOne client linked.protocol operation request world)
                (λ response between. refl)))
      ]

  execute_call-SendsOne :
      (operation : Bytes) (options input : Struct)
      → SendsOne (execute_call linked callback operation options input)
  unfolding execute_call
  execute_call-SendsOne operation options input world =
      AtMostOne-lift (options_of linked.json callback options) _ world (λ settings.
        AtMostOne-lift (live_kit_api linked.machine linked.json settings) _ world
          (λ client. execute_on-SendsOne client operation input world))

  execute_sign-SendsOne : (options : Struct) → SendsOne (execute_sign linked callback options)
  unfolding execute_sign
  execute_sign-SendsOne options world =
      AtMostOne-lift (sign linked.machine.evp linked.machine.ticks_per_second options) _ world
        (λ jwt. inl refl)

  execute_operation-SendsOne :
      (operation : Bytes) (options input : Struct)
      → SendsOne (execute_operation linked callback operation options input)
  unfolding execute_operation
  execute_operation-SendsOne operation options input world =
      elim (Bool-cases (equal operation (codes "token"))) [
        | inl e ↦ rw e (execute_sign-SendsOne options world)
        | inr e ↦ elim (Bool-cases (equal operation (codes "webhook"))) [
          | inl f ↦ rw (e, f) (receive-SendsOne options world)
          | inr f ↦ rw (e, f) (execute_call-SendsOne operation options input world)
        ]
      ]

  execute-SendsOne : (input : Struct) → SendsOne (execute linked callback input)
  unfolding execute
  execute-SendsOne input world =
      AtMostOne-lift (string_field input "operation") _ world (λ operation.
        AtMostOne-lift (object_field input "options") _ world
          (λ options. execute_operation-SendsOne operation options input world))

  invoke_value-SendsOne : (input : Option Bytes) → SendsOne (invoke_value linked callback input)
  unfolding invoke_value
  invoke_value-SendsOne none world = inl refl
  invoke_value-SendsOne (some input) world = AtMostOne-lift (check_length input) _ world (λ start.
      AtMostOne-lift (parse linked.json input) _ world (λ object. execute-SendsOne object world))

  -- Whatever a host passes to `lks_invoke`, and however that ends, the invocation sends at most one
  -- HTTP request by the library's transport or through the host's callback.
  pub lks_invoke-AtMostOne :
      (input : Option Bytes) (world : World)
      → AtMostOne world (lks_invoke linked callback input world).1
  unfolding lks_invoke caught
  lks_invoke-AtMostOne input world =
      AtMostOne-then (caught envelope (invoke_value linked callback input)) _ world
        (invoke_value-SendsOne input world) (λ response between. refl)
