-- ===== src/Jni/Transport.antt =====
-- pkg/java/src/main/cpp/livekit_server_jni.cpp: `JavaTransport`, which hands requests to an object of
-- Java.
use livekit_server_cpp.Common.{
  ℕ, ◌+◌, ◌*◌, ◌/◌, not, Option, none, some, List, [], ◌∷◌, Bytes, leb, if◌then◌else◌, length,
}
use livekit_server_cpp.Common.Int.{int_max}
use livekit_server_cpp.Error.{ErrorCode}
use livekit_server_cpp.Http.{HttpHeaders, HttpRequest, HttpResponse}
use livekit_server_cpp.Jni.Machine.{
  Native, returned, stuck, refused, ◌>>=◌, ◌>>◌, JavaRequest, JavaResponse, Jvm, from_array,
  to_array, java_text,
}

module _ (jvm : Jvm) where
  -- `send` of the object of Java; `none` is a null result.
  abbrev pub Send : Type 0
  Send = JavaRequest jvm.JavaString → Native (Option JavaResponse)

  -- The two texts of a header, stored from an index on.
  unfoldable pub header_item : ℕ → Bytes → Native jvm.JavaString
  header_item index content = do
    item ← java_text jvm content
    jvm.set_element index item
    returned item

  -- The loop over the headers.
  unfoldable pub header_items : ℕ → HttpHeaders → Native (List jvm.JavaString)
  header_items index [] = returned []
  header_items index ((key, value) ∷ headers) = do
    first ← header_item index key
    second ← header_item (index + 1) value
    items ← header_items (index + 2) headers
    returned (first ∷ second ∷ items)

  unfoldable pub header_array : HttpHeaders → Native (List jvm.JavaString)
  header_array headers =
      if not (leb (length headers) (int_max / 2))
      then refused ErrorCode.invalid_argument "too many request headers"
      else (do jvm.new_string_array (length headers * 2); header_items 0 headers)

  unfoldable pub java_request : HttpRequest → Native (JavaRequest jvm.JavaString)
  java_request request = do
    headers ← header_array request.headers
    url ← java_text jvm request.url
    method ← java_text jvm request.method
    body ← to_array jvm request.body
    returned (record {
      url = url;
      method = method;
      headers = headers;
      body = body;
      timeout = request.timeout;
    })

  unfoldable pub http_response : Option JavaResponse → Native HttpResponse
  http_response none = refused ErrorCode.transport "Java transport returned null"
  http_response (some response) = do
    jvm.find_class "io/livekit/server/HttpResponse"
    jvm.method_id "io/livekit/server/HttpResponse" "statusCode"
    jvm.method_id "io/livekit/server/HttpResponse" "body"
    status ← response.status_code
    array ← response.body
    body ← from_array jvm array
    returned (record { status_code = status; headers = []; body = body })

  unfoldable pub send_over : Send → HttpRequest → Native HttpResponse
  send_over send request = do
    jvm.push_local_frame 32
    jvm.find_class "io/livekit/server/HttpTransport"
    jvm.method_id "io/livekit/server/HttpTransport" "send"
    jvm.find_class "java/lang/String"
    sendable ← java_request request
    response ← send sendable
    http_response response

  -- `JavaTransport::Send`; a call on a null reference is undefined.
  unfoldable pub java_send : Option Send → HttpRequest → Native HttpResponse
  java_send none request = stuck
  java_send (some send) request = send_over send request
