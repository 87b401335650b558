-- ===== src/Jni/Relay.antt =====
-- What the client's transport and Java's transport have to do with each other, by way of the C API and
-- the binding's callback.
use livekit_server_cpp.CApi.Host.RoundTrip.{callback_transport-failed}
use livekit_server_cpp.CApi.Host.RoundTrip.{callback_transport-answered}
use livekit_server_cpp.CApi.Fields.{struct_of}
use livekit_server_cpp.CApi.Host.{callback_failed, transport_request, callback_transport}
use livekit_server_cpp.CApi.Invoke.{Linked}
use livekit_server_cpp.Common.Int.{pos, IsInt64, int_max}
use livekit_server_cpp.Common.Lists.{equal}
use livekit_server_cpp.Common.{
  ℕ, ◌≤◌, ◌≡◌, refl, ap, sym, ◌∙◌, Option, none, some, List, [], Bytes, codes, true, IsBytes,
  length,
}
use livekit_server_cpp.Error.{Result, ok}
use livekit_server_cpp.Http.{HttpRequest, HttpResponse}
use livekit_server_cpp.Jni.Exchange.{
  CallbackContext, exchange_java, reply_of, encode_json, parse_json, answer_fields,
  transport_fields,
}
use livekit_server_cpp.Jni.Invoke.{host, failure_at, failure_of}
use livekit_server_cpp.Jni.Machine.{Native, returned, pending, thrown, stuck, native, ◌>>=◌, Jvm}
use livekit_server_cpp.Jni.Request.{request_from-transport_request}
use livekit_server_cpp.Jni.Transport.{java_send}
use livekit_server_cpp.Jni.{string_of, field_or_empty, string_value, response_fields}
use livekit_server_cpp.Struct.{Value, Struct, JsonLibrary, find_field}

-- The library prints the object as a text, of a length that fits an `int`, and reads it back from there.
abbrev pub IsRead : JsonLibrary → Struct → Type 0
IsRead json object =
    (content : Bytes) × (json.from_struct object ≡ some content)
    × (json.to_struct content ≡ some object)
    × (length content ≤ int_max)

abbrev pub IsHttp : HttpResponse → Type 0
IsHttp response =
    (status : ℕ) × (response.status_code ≡ pos status)
    × (100 ≤ status)
    × (status ≤ 599)
    × (response.headers ≡ [])
    × IsBytes response.body

-- A response that the C API accepts.
abbrev pub IsDelivered : JsonLibrary → Native HttpResponse → Type 0
IsDelivered json (returned response) = IsHttp response × IsRead json (response_fields response)
IsDelivered json (pending exception) = Unit
IsDelivered json (thrown error) = Unit
IsDelivered json stuck = Unit

-- The result of the client's transport and the failure that the callback leaves, by what Java's
-- transport did.
abbrev pub Relays : Native HttpResponse → Result HttpResponse → Option (Native Value) → Type 0
Relays (returned response) result failure = (result ≡ ok response) × (failure ≡ none)
Relays (pending exception) result failure =
    (result ≡ callback_failed) × (failure ≡ some (pending exception))
Relays (thrown error) result failure = (result ≡ callback_failed) × (failure ≡ some (thrown error))
Relays stuck result failure = (result ≡ callback_failed) × (failure ≡ some stuck)

pub encode_json-some :
    (json : JsonLibrary) (object : Struct) (content : Bytes)
    → json.from_struct object ≡ some content
    → encode_json json object ≡ returned content
unfolding encode_json
encode_json-some json object content e = rw (e, encode_json) refl

module _ (jvm : Jvm) (linked : Linked) (context : CallbackContext jvm) where
  kind_lem :
      (request : HttpRequest)
      → equal (string_of (transport_request request) "kind") (codes "transport") ≡ true
  unfolding string_of field_or_empty string_value transport_request struct_of find_field equal
  kind_lem request = refl

  -- The exchange about a request asks Java's transport.
  exchange_java-java_send :
      (request : HttpRequest) (content : Bytes)
      → IsBytes request.body
      → IsInt64 request.timeout
      → linked.json.to_struct content ≡ some (transport_request request)
      → exchange_java jvm linked.json context content ≡ (
          java_send jvm context.transport request >>= λ response.
          encode_json linked.json (response_fields response))
  unfolding exchange_java parse_json answer_fields transport_fields native
  exchange_java-java_send request content bytes fits e =
      rw
        (
          e,
          parse_json,
          kind_lem request,
          answer_fields,
          request_from-transport_request request bytes fits,
        )
        (go (java_send jvm context.transport request))
    where
      go :
          (outcome : Native HttpResponse)
          → (outcome >>= (λ result. returned (response_fields result)))
              >>= (λ response. encode_json linked.json response)
            ≡ (outcome >>= λ response. encode_json linked.json (response_fields response))
      go (returned response) = refl
      go (pending exception) = refl
      go (thrown error) = refl
      go stuck = refl

  -- The outcome of the exchange, by that of Java's transport.
  replied :
      (request : HttpRequest) (content : Bytes) (outcome : Native HttpResponse)
      → java_send jvm context.transport request ≡ outcome
      → IsBytes request.body
      → IsInt64 request.timeout
      → linked.json.to_struct content ≡ some (transport_request request)
      → exchange_java jvm linked.json context content
        ≡ (outcome >>= λ response. encode_json linked.json (response_fields response))
  replied request content outcome e bytes fits read =
      exchange_java-java_send request content bytes fits read
      ∙ ap (λ o. o >>= λ response. encode_json linked.json (response_fields response)) e

  failure_lem :
      (request : HttpRequest) (content : Bytes) (outcome : Native Bytes)
      → linked.json.from_struct (transport_request request) ≡ some content
      → exchange_java jvm linked.json context content ≡ outcome
      → failure_at jvm linked context request ≡ failure_of outcome
  unfolding failure_at
  failure_lem request content outcome printed e = rw (printed, failure_at, e) refl

  -- A reply that carries nothing.
  failed :
      (sent : List HttpRequest) (request : HttpRequest) (content : Bytes)
      → linked.json.from_struct (transport_request request) ≡ some content
      → reply_of (exchange_java jvm linked.json context content)
        ≡ record { returned = pos 1; response = none }
      → callback_transport linked.json (host jvm linked context) sent request ≡ callback_failed
  unfolding host
  failed sent request content printed e =
      callback_transport-failed linked.json _ sent request content (pos 1) printed e

  -- If the library reads the request back, and the response that Java's transport returned, if it did,
  -- is one with a status from 100 to 599 and a body of bytes that the library reads back too, then the
  -- transport over the binding's callback is Java's: it returns the same response, or it fails where
  -- Java's does, and the binding keeps what Java's transport ended with, be it a pending exception.
  pub callback_transport-java_send :
      (sent : List HttpRequest) (request : HttpRequest)
      → IsBytes request.body
      → IsInt64 request.timeout
      → IsRead linked.json (transport_request request)
      → IsDelivered linked.json (java_send jvm context.transport request)
      → Relays
          (java_send jvm context.transport request)
          (callback_transport linked.json (host jvm linked context) sent request)
          (failure_at jvm linked context request)
  unfolding reply_of response_fields struct_of host failure_of
  callback_transport-java_send sent request bytes fits (content, printed, read, short) =
      go (java_send jvm context.transport request) refl
    where
      go :
          (outcome : Native HttpResponse)
          → java_send jvm context.transport request ≡ outcome
          → IsDelivered linked.json outcome
          → Relays outcome
              (callback_transport linked.json (host jvm linked context) sent request)
              (failure_at jvm linked context request)
      go (returned response) e
            ((status, same, low, high, plain, body), (answer, wrote, back, small)) =
          let shape : response
              ≡ record { status_code = pos status; headers = []; body = response.body } =
            cc in
          let outcome : exchange_java jvm linked.json context content ≡ returned answer =
            replied request content (returned response) e bytes fits read
            ∙ encode_json-some linked.json _ answer wrote in
          let known = back ∙ ap (λ r. some (response_fields r)) shape in
          (
            callback_transport-answered linked.json _ sent request content answer status
                  response.body printed (ap reply_of outcome) small known low high body
                ∙ ap ok (sym shape),
            failure_lem request content (returned answer) printed outcome,
          )
      go (pending exception) e d =
          let outcome = replied request content (pending exception) e bytes fits read in
          (
            failed sent request content printed (ap reply_of outcome),
            failure_lem request content (pending exception) printed outcome,
          )
      go (thrown error) e d =
          let outcome = replied request content (thrown error) e bytes fits read in
          (
            failed sent request content printed (ap reply_of outcome),
            failure_lem request content (thrown error) printed outcome,
          )
      go stuck e d =
          let outcome = replied request content stuck e bytes fits read in
          (
            failed sent request content printed (ap reply_of outcome),
            failure_lem request content stuck printed outcome,
          )
