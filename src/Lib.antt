-- ===== src/Lib.antt =====
-- The verification library of livekit-server-cpp, a client library for LiveKit's server API: it signs
-- access tokens, calls the services of a server, and verifies the webhooks that a server sends.
--
-- The parts, and the files that model them:
--   * Error: include/livekit/server/error.h. A computation that may throw an `Error` returns a
--     `Result`, whose third case stands for an overflow of `std::int64_t`, which C++ leaves
--     undefined.
--   * Crypto: src/detail/crypto.cpp. `Base64`, `Base64UrlDecode` and `ConstantTimeEqual` are written
--     out on lists of bytes, with the 32-bit arithmetic of the source. OpenSSL's digest and HMAC are
--     the parameter `Evp`; the source's tests of what they return are modelled. Crypto/Windows is the
--     branch for Windows, `BCryptDigest`.
--   * Token: src/access_token.cpp. Token has `EscapeJson` and the grants, Token/Access the class and
--     `ToJwt`. Token/Json is a JSON reader that is independent of the code, and Token/Members and
--     Token/Claims say which members the claims have.
--   * Struct: the part of protobuf's `Struct` that the source uses; the conversion from JSON text is
--     the parameter `JsonLibrary`.
--   * Webhook: src/webhook_receiver.cpp. `ReceiveAt` is `receive_at`, composed of one definition for
--     each stretch of the function: the split, the signature, the times, the body. Webhook/Times is
--     `JsonIntegerField`, Webhook/Event the event that is made of the parsed message. Webhook/Dispatch
--     has the callbacks. A position in a text is the suffix that
--     begins there.
--   * Http: include/livekit/server/http_transport.h and api_options.h, and the outside world: a
--     `Machine` with environment variables, clock and random device, and a `World` that records what
--     was sent and read. An `Action` is a computation on that state. A transport may answer by all
--     that was sent before.
--   * Context: src/detail/client_context.cpp. Context/Create is the constructor, Context/Url
--     `NormalizeUrl`, Context/Call `TokenFor` and `Call`.
--   * Curl: src/detail/curl_transport.cpp. Curl has `Send`, Curl/Lines the header lines that it writes,
--     Curl/Fit what `Send` asks of a request, Curl/Receive the callbacks `Body` and `Header` on the
--     response so far. libcurl is a parameter.
--   * WinHttp: src/http_transport.cpp. WinHttp/Connection has the connections that are kept, WinHttp
--     `Send`, WinHttp/Key and WinHttp/Own say that a connection is to the right server, and
--     WinHttp/Wire what is read. The functions of Windows are parameters.
--   * Services: the clients src/room_service_client.cpp, sip_client.cpp, egress_client.cpp,
--     ingress_client.cpp, connector_client.cpp and agent_dispatch_client.cpp. The methods of a client
--     are a data type, with the name, the grant and the call of each. Services/Model is the conversion
--     src/detail/proto/json_codec.h, and the methods on model types; Services/Messages has the messages of
--     include/livekit/server/model/models.h, and the message types of each method.
--   * CApi: src/c_api.cpp. CApi/Fields, StringMap and Integer read the fields of a JSON object,
--     CApi/Host is the callback and the transport over it, CApi/Sign and CApi/Receive (with CApi/Keys)
--     are the operations on tokens and webhooks, CApi/Operations is src/detail/dispatch.inc, and
--     CApi/Invoke is `lks_invoke`. CApi/Options has the facade src/livekit_api.cpp. The host, `malloc`
--     and protobuf's generated code are parameters.
--   * Jni: pkg/java/src/main/cpp/livekit_server_jni.cpp. Jni reads the JSON objects of the C API,
--     Jni/Machine has the Java machine, a parameter whose operations return or leave an exception
--     pending, Jni/Options the names of options, Jni/Defaults the options of a token, Jni/Transport `JavaTransport`, Jni/Exchange the
--     callback, Jni/Invoke the invocation of the C API, Jni/Call the native methods, and Jni/Receive
--     the two ends of `receive`. An exchange takes place only for an input whose options ask for it.
--     Jni/Relay, Jni/Token and Jni/Passage go through all of it.
--   * Ruby: pkg/ruby/src/livekit_server_ruby.cpp, where texts end at a zero byte.
--   * Common: lists of bytes, integers over the native numbers, decimal text and bits.
--
-- Every component throws through Error. `lks_invoke` makes a context and calls a service client, or
-- signs a token, or makes a receiver. A service client calls `call` of Context, which signs with
-- Token, which encodes and signs with Crypto. The receiver decodes and compares with Crypto.
--
-- Fuel: `digits_onto` writes a number `n` with fuel `n + 1`, more than it has digits; the JSON reader
-- has three times the length of the text. No other definition needs any: loops over a text are
-- recursions on it.
--
-- Not modelled: the invocation of the C API by the native method `receive` of the binding for Java,
-- since the failure that a key provider leaves there depends on what the receiver asked it; the
-- choice of a transport by the preprocessor; and the random generator of Windows. The model types of
-- include/livekit/server/model/models.h differ by their tags only, and are one type of texts.
-- Running out of memory is left out but for the `malloc` of the C API, and so is the release of
-- memory and handles. Mutexes are left out: the steps under them are single steps of the model. An
-- invocation of the C API calls the host at most once, so that the host is a function of what it is
-- asked. A byte of a text is a number below 256, which the theorems that need it ask for.
pub mod Common
pub mod Error
pub mod Crypto
pub mod Token
pub mod Struct
pub mod Webhook
pub mod Http
pub mod Curl
pub mod Context
pub mod Services
pub mod CApi
pub mod WinHttp
pub mod Jni
pub mod Ruby
