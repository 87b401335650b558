-- ===== src/Curl.antt =====
-- src/detail/curl_transport.cpp: the transport over libcurl. What libcurl does is a parameter: the
-- codes of its functions, and the chunks with which it calls the two callbacks. Running out of
-- memory is left out, and so is the failure that a callback would keep.
pub mod Lines
pub mod Receive
pub mod Fit
pub mod Refusal
mod Runs
use livekit_server_cpp.Common.{
  ℕ, zero, suc, ◌+◌, ◌-◌, ◌*◌, ◌/◌, ◌%◌, ◌^◌, Bool, true, false, not, ◌&&◌, ◌||◌, Option, none,
  some, List, [], ◌∷◌, ◌++◌, Bytes, codes, ltb, leb, ◌==◌, if◌then◌else◌, length, is_empty,
  starts_with,
}
use livekit_server_cpp.Common.Int.{ℤ, pos, negsuc, leb_ℤ, int64_max, pos_part}
use livekit_server_cpp.Curl.Lines.{has_byte, is_token, header_lines}
use livekit_server_cpp.Curl.Receive.{Chunk, ResponseState, start, receive}
use livekit_server_cpp.Error.{
  ErrorCode, Result, ok, throw, fail, ◌>>=◌, ◌>>◌, throw_if, plain_error,
}
use livekit_server_cpp.Http.{HttpRequest, HttpResponse, HttpTransport}

-- A call of `curl_easy_setopt`. The callbacks are set to `Body` and `Header`.
pub data CurlOption : Type 0 where
  url protocols custom_request post_fields : Bytes → CurlOption
  follow_location no_signal verify_peer verify_host timeout_ms post_size : ℕ → CurlOption
  http_header : List Bytes → CurlOption
  write_function write_data header_function header_data : CurlOption

-- `curl_easy_perform`: the chunks that libcurl passes to the callbacks as long as they take them
-- whole, the code that it then returns, and the answer of `curl_easy_getinfo`.
pub record Transfer : Type 0 where
  pub chunks : List Chunk
  pub code : ℕ
  pub info_code : ℕ
  pub status : ℕ

-- libcurl; a code of 0 is `CURLE_OK`. `long_max` is the maximum of a `long`. A transfer may depend on
-- the requests before it.
pub record Curl : Type 0 where
  pub global_init : ℕ
  pub has_handle : Bool
  pub strerror : ℕ → Bytes
  pub setopt : CurlOption → ℕ
  pub perform : List HttpRequest → List CurlOption → Transfer
  pub long_max : ℕ

-- `CURLE_WRITE_ERROR`, when a callback does not take a chunk whole.
abbrev pub write_error : ℕ
write_error = 23

-- What `Send` requires of a request.
unfoldable pub is_sendable : HttpRequest → Bool
is_sendable request =
    not (has_byte 0 request.url)
    && (starts_with request.url (codes "http://") || starts_with request.url (codes "https://"))
    && is_token request.method
    && not (leb_ℤ request.timeout (pos 0))
    && leb (length request.body) int64_max

-- `static_cast<int>(status)`.
unfoldable pub to_int : ℕ → ℤ
to_int n = let low = n % 2 ^ 32 in if ltb low (2 ^ 31) then pos low else negsuc (2 ^ 32 - 1 - low)

module _ (curl : Curl) where
  -- `Check`.
  unfoldable pub check : ℕ → Result (Unit {0})
  check code =
      if code == 0 then ok tt else throw (plain_error ErrorCode.transport (curl.strerror code))

  unfoldable pub set_options : List CurlOption → Result (Unit {0})
  set_options [] = ok tt
  set_options (option ∷ options) = check (curl.setopt option) >> set_options options

  -- The options of a request, in the order of the calls.
  unfoldable pub options_of : HttpRequest → List Bytes → List CurlOption
  options_of request lines =
      CurlOption.url request.url
      ∷ CurlOption.protocols (codes "http,https")
      ∷ CurlOption.follow_location 0
      ∷ CurlOption.no_signal 1
      ∷ CurlOption.timeout_ms (
          if leb (pos_part request.timeout) curl.long_max
          then pos_part request.timeout
          else curl.long_max)
      ∷ CurlOption.verify_peer 1
      ∷ CurlOption.verify_host 2
      ∷ CurlOption.http_header lines
      ∷ CurlOption.post_fields request.body
      ∷ CurlOption.post_size (length request.body)
      ∷ CurlOption.custom_request request.method
      ∷ CurlOption.write_function
      ∷ CurlOption.write_data
      ∷ CurlOption.header_function
      ∷ CurlOption.header_data
      ∷ []

  -- From `curl_easy_perform` on.
  unfoldable pub finish : Transfer → Result HttpResponse
  finish transfer = do
    let (state, whole) = receive start transfer.chunks
    check (if whole then transfer.code else write_error)
    check transfer.info_code
    ok (record state.response { status_code = to_int transfer.status })

  -- `CurlTransport::Send`.
  unfoldable pub curl_send : HttpTransport
  curl_send sent request = do
    throw_if (not (is_sendable request)) ErrorCode.invalid_argument
        "invalid HTTP request URL, method, timeout or body size"
    lines ← header_lines request.headers
    let options = options_of request lines
    set_options options
    finish (curl.perform sent options)

  -- `CreateCurlHttpTransport`.
  unfoldable pub create_curl_http_transport : Result HttpTransport
  create_curl_http_transport = do
    throw_if (not (curl.global_init == 0)) ErrorCode.transport "could not initialize libcurl"
    throw_if (not curl.has_handle) ErrorCode.transport "could not create libcurl handle"
    ok curl_send
