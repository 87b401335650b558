-- ===== src/WinHttp.antt =====
-- src/http_transport.cpp: the transport over WinHTTP, and its connections. The functions of Windows
-- are parameters. Texts have at most `int_max` bytes where they are converted.
pub mod Connection
pub mod Key
pub mod Own
pub mod Wire
mod Runs
use Prim.Native.String.{String}
use livekit_server_cpp.Common.Int.{int_max}
use livekit_server_cpp.Common.Decimal.{decimal}
use livekit_server_cpp.Common.Int.{ℤ, pos, negsuc}
use livekit_server_cpp.Common.{
  ℕ, zero, suc, ◌+◌, ◌-◌, ◌*◌, ◌%◌, ◌^◌, Bool, true, false, Option, none, some, List, [], ◌∷◌, ◌++◌,
  Bytes, codes, leb, ltb, ◌==◌, if◌then◌else◌, length, is_empty,
}
use livekit_server_cpp.Error.{
  ErrorCode, Result, ok, throw, undefined, fail, ◌>>=◌, ◌>>◌, throw_if, plain_error,
}
use livekit_server_cpp.Http.{HttpHeaders, HttpRequest, HttpResponse, HttpTransport}
use livekit_server_cpp.WinHttp.Connection.{
  Wide, Handle, Windows, succeeded, failed, in_windows, windows_message, Connections, connection,
  after, no_connections,
}

pub data Scheme : Type 0 where
  http https other : Scheme

-- `URL_COMPONENTS`.
pub record Components : Type 0 where
  pub scheme : Scheme
  pub host : Wide
  pub port : ℕ
  pub path : Wide
  pub extra : Wide

-- One round of the loop that reads a response: how much is available, and then what is read.
pub record Round : Type 0 where
  pub available : Windows ℕ
  pub data_read : Windows Bytes

-- Windows, during one `Send`. `to_wide` is `none` where the text is not valid UTF-8. The rounds end
-- where nothing is available any more.
pub record WinHttp : Type 0 where
  pub to_wide : Bytes → Option Wide
  pub crack_url : Wide → ℕ → Windows Components
  pub open_request : Handle → Wide → Wide → Bool → Windows Handle
  pub set_timeouts : Handle → ℤ → Windows (Unit {0})
  pub send_request : Handle → Wide → ℕ → Bytes → ℕ → Windows (Unit {0})
  pub receive_response : Handle → Windows (Unit {0})
  pub query_status : Handle → Windows ℕ
  pub rounds : Handle → List Round

-- `static_cast<DWORD>`.
abbrev pub to_dword : ℕ → ℕ
to_dword n = n % 2 ^ 32

-- `static_cast<int>` of a DWORD, and of the lesser of a timeout and the maximum of an `int`.
abbrev pub dword_to_int : ℕ → ℤ
dword_to_int n = if leb n int_max then pos n else negsuc (2 ^ 32 - 1 - n)

unfoldable pub timeout_of : ℤ → ℤ
timeout_of (pos n) = if leb n int_max then pos n else pos int_max
timeout_of (negsuc n) = dword_to_int (2 ^ 32 - 1 - n % 2 ^ 32)

-- The loop over the headers.
unfoldable pub narrow_headers : HttpHeaders → Bytes
narrow_headers [] = []
narrow_headers ((name, value) ∷ headers) =
    name ++ (codes ": " ++ (value ++ (13 ∷ 10 ∷ narrow_headers headers)))

unfoldable pub is_secure : Scheme → Bool
is_secure Scheme.https = true
is_secure _ = false

unfoldable pub is_other : Scheme → Bool
is_other Scheme.other = true
is_other _ = false

-- The path and what follows it, or else a slash.
unfoldable pub request_path : Components → Wide
request_path components =
    let path = components.path ++ components.extra in if is_empty path then codes "/" else path

-- `body.resize(size)`: a longer body gets zeros.
unfoldable pub resize : ℕ → Bytes → Bytes
resize zero body = []
resize (suc size) [] = 0 ∷ resize size []
resize (suc size) (c ∷ body) = c ∷ resize size body

-- What `WinHttpReadData` writes at `body.data() + offset`.
unfoldable pub write_at : ℕ → Bytes → Bytes → Bytes
write_at offset data_read [] = []
write_at zero [] (c ∷ body) = c ∷ body
write_at zero (d ∷ data_read) (c ∷ body) = d ∷ write_at zero data_read body
write_at (suc offset) data_read (c ∷ body) = c ∷ write_at offset data_read body

-- The loop that reads the body. Rounds that end before nothing is available do not end the loop: what
-- it returns is not known. More bytes than the buffer's are undefined behaviour.
unfoldable pub read_body : List Round → Bytes → Result Bytes
read_body [] body = undefined
read_body (round ∷ rounds) body =
    in_windows "WinHttpQueryDataAvailable" round.available >>= λ available.
    if available == 0
    then ok body
    else (let offset = length body in
        in_windows "WinHttpReadData" round.data_read >>= λ data_read.
        let received = length data_read in
        if leb received available
        then read_body rounds (
            resize (offset + received)
              (write_at offset data_read (resize (offset + available) body)))
        else undefined)

module _ (windows : WinHttp) where
  -- `Utf8ToWide`.
  unfoldable pub utf8_to_wide : Bytes → Result Wide
  utf8_to_wide value = if is_empty value then ok [] else (elim (windows.to_wide value) [
    | none ↦ fail ErrorCode.invalid_argument "HTTP value is not valid UTF-8"
    | some result ↦ ok result
  ])

  -- `Send` up to the connection.
  unfoldable pub crack : HttpRequest → Result Components
  crack request = do
    url ← utf8_to_wide request.url
    components ← elim (windows.crack_url url (to_dword (length url))) [
      | succeeded components ↦ ok components
      | failed code ↦
          throw (plain_error ErrorCode.invalid_argument (windows_message "WinHttpCrackUrl" code))
    ]
    throw_if (is_other components.scheme) ErrorCode.invalid_argument
        "HTTP transport requires an HTTP(S) URL"
    ok components

  -- `Send` from the connection on.
  unfoldable pub send_over : HttpRequest → Components → Handle → Result HttpResponse
  send_over request components connection = do
    method ← utf8_to_wide request.method
    handle ← in_windows "WinHttpOpenRequest" (
        windows.open_request connection method (request_path components)
          (is_secure components.scheme))
    timed ←
        in_windows "WinHttpSetTimeouts" (windows.set_timeouts handle (timeout_of request.timeout))
    headers ← utf8_to_wide (narrow_headers request.headers)
    let size = to_dword (length request.body)
    sent ←
        in_windows "WinHTTP request"
          (windows.send_request handle headers (to_dword (length headers)) request.body size)
    received ← in_windows "WinHTTP request" (windows.receive_response handle)
    status ← in_windows "WinHttpQueryHeaders" (windows.query_status handle)
    body ← read_body (windows.rounds handle) []
    ok (record { status_code = dword_to_int status; headers = []; body = body })

module _ (connect : ℕ → Wide → ℕ → Windows Handle) (windows : WinHttp) (request : HttpRequest) where
  -- `Send` behind its checks of the URL.
  unfoldable pub send_cracked : Result Components → Connections → Result HttpResponse × Connections
  send_cracked (throw error) before = (throw error, before)
  send_cracked undefined before = (undefined, before)
  send_cracked (ok components) before =
      after (send_over windows request components)
        (connection connect components.host components.port before)

  -- `Send`, on the connections so far.
  unfoldable pub win_http_send : Connections → Result HttpResponse × Connections
  win_http_send before = send_cracked (crack windows request) before

module _ (connect : ℕ → Wide → ℕ → Windows Handle) (windows : List HttpRequest → WinHttp) where
  -- The connections after requests, the latest first; Windows may answer by all that was sent before.
  unfoldable pub connections_after : List HttpRequest → Connections
  connections_after [] = no_connections
  connections_after (request ∷ sent) =
      let before = connections_after sent in (win_http_send connect (windows sent) request before).1

  -- A `WinHttpTransport`.
  unfoldable pub win_http_transport : HttpTransport
  win_http_transport sent request =
      (win_http_send connect (windows sent) request (connections_after sent)).0

  -- The constructor, from what `WinHttpOpen` does.
  unfoldable pub create_win_http_transport : Windows Handle → Result HttpTransport
  create_win_http_transport session =
      in_windows "WinHttpOpen" session >>= λ handle. ok win_http_transport
