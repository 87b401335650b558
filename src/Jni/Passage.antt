-- ===== src/Jni/Passage.antt =====
-- What Java sees of an exception of its transport.
use livekit_server_cpp.CApi.Host.{callback_transport, transport_request}
use livekit_server_cpp.CApi.Invoke.{Linked, lks_invoke}
use livekit_server_cpp.Common.Int.{IsInt64}
use livekit_server_cpp.Common.Lists.{take}
use livekit_server_cpp.Common.{
  subst, ℕ, ◌-◌, ◌≡◌, refl, ap, sym, ◌∙◌, Option, none, some, List, [], ◌∷◌, Bytes, IsBytes, length,
  arith, true,
}
use livekit_server_cpp.Http.{HttpRequest, World}
use livekit_server_cpp.Jni.Call.{guard, invoke_with}
use livekit_server_cpp.Jni.Exchange.{CallbackContext}
use livekit_server_cpp.Jni.Invoke.{
  host, new_requests, latest_failure, context_failure, uses_host, failure_at, after_invoke,
  invoke_content,
}
use livekit_server_cpp.Jni.Machine.{Native, returned, pending, Jvm}
use livekit_server_cpp.Jni.Relay.{IsRead, IsDelivered, Relays, callback_transport-java_send}
use livekit_server_cpp.Jni.Token.{invoke-printed}
use livekit_server_cpp.Jni.Transport.{Send, java_send}
use livekit_server_cpp.Struct.{Value, Struct}

take-length :
    (request : HttpRequest) (sent : List HttpRequest)
    → take (length (request ∷ sent) - length sent) (request ∷ sent) ≡ request ∷ []
take-length request sent =
    let one : length (request ∷ sent) - length sent ≡ 1 = omega arith in rw one refl

new_requests-sent :
    (before after : World) (request : HttpRequest)
    → after.sent ≡ request ∷ before.sent
    → new_requests before after ≡ request ∷ []
unfolding new_requests
new_requests-sent before after request e =
    ap (λ sent. take (length sent - length before.sent) sent) e ∙ take-length request before.sent

module _ (jvm : Jvm) (linked : Linked) (send : Send jvm)
    (key_provider : Option (jvm.JavaString → Native (Option jvm.JavaString))) where
  abbrev context : CallbackContext jvm
  context = record { transport = some send; key_provider = key_provider }

  latest_failure-one :
      (request : HttpRequest) (failure : Option (Native Value))
      → failure_at jvm linked context request ≡ failure
      → latest_failure jvm linked context (request ∷ []) ≡ failure
  unfolding latest_failure
  latest_failure-one request none e = rw (e, latest_failure) refl
  latest_failure-one request (some failure) e = rw (e, latest_failure) refl

  failure_at-pending :
      (request : HttpRequest) (exception : ℕ)
      → IsBytes request.body
      → IsInt64 request.timeout
      → IsRead linked.json (transport_request request)
      → java_send jvm (some send) request ≡ pending exception
      → failure_at jvm linked context request ≡ some (pending exception)
  failure_at-pending request exception bytes fits read threw =
      let delivered = subst (λ outcome. IsDelivered linked.json outcome) (sym threw) tt in
      let relays =
        callback_transport-java_send jvm linked context [] request bytes fits read delivered in
      (subst
        (λ outcome.
          Relays outcome (callback_transport linked.json (host jvm linked context) [] request)
            (failure_at jvm linked context request))
        threw relays).1

  invoke_content-pending :
      (content : Bytes) (before : World) (request : HttpRequest) (exception : ℕ)
      → (lks_invoke linked (host jvm linked context) (some content) before).1.sent
        ≡ request ∷ before.sent
      → uses_host jvm linked context content ≡ true
      → failure_at jvm linked context request ≡ some (pending exception)
      → (invoke_content jvm linked context content before).0 ≡ pending exception
  unfolding invoke_content context_failure after_invoke
  invoke_content-pending content before request exception sent asked failed =
      let later = (lks_invoke linked (host jvm linked context) (some content) before).1 in
      let fresh = new_requests-sent before later request sent in
      let kept : context_failure jvm linked context content (new_requests before later)
          ≡ some (pending exception) =
        rw (asked, fresh) (latest_failure-one request (some (pending exception)) failed) in
      ap
        (λ failure.
          after_invoke jvm linked context failure
            (lks_invoke linked (host jvm linked context) (some content) before).0)
        kept

  -- If the library prints the input, whose options have the C API send its requests to the binding, and
  -- on that input it sends a request that the library reads back and on which the object of Java throws, then the native method ends with that same exception pending,
  -- whatever the C API made of the failure.
  pub invoke_with-pending :
      (finish : Value → Native (Option Bytes)) (input : Struct) (content : Bytes) (before : World)
      (request : HttpRequest) (exception : ℕ)
      → linked.json.from_struct input ≡ some content
      → (lks_invoke linked (host jvm linked context) (some content) before).1.sent
        ≡ request ∷ before.sent
      → uses_host jvm linked context content ≡ true
      → IsBytes request.body
      → IsInt64 request.timeout
      → IsRead linked.json (transport_request request)
      → java_send jvm (some send) request ≡ pending exception
      → (invoke_with jvm linked context finish (returned input) before).0 ≡ pending exception
  unfolding invoke_with guard
  invoke_with-pending finish input content before request exception printed sent asked bytes fits
        read threw =
      let failed = failure_at-pending request exception bytes fits read threw in
      let ended = invoke_content-pending content before request exception sent asked failed in
      rw (invoke-printed jvm linked context input content before printed, ended) refl
