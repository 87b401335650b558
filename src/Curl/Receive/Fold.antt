-- ===== src/Curl/Receive/Fold.antt =====
-- What a sequence of chunks makes of a response.
use livekit_server_cpp.Common.{
  ℕ, ◌*◌, ◌≡◌, refl, sym, ap, ◌∙◌, arith, Bool, true, false, not, ◌&&◌, List, [], ◌∷◌, ◌++◌,
  append_assoc, append-nil, Bytes, codes, ◌==◌, starts_with,
}
use livekit_server_cpp.Curl.Receive.{
  ResponseState, start, Chunk, body_chunk, header_chunk, too_large, add_header, body_callback,
  header_callback, call_back, chunk_size, receive,
}
use livekit_server_cpp.Http.{HttpHeaders}

-- The body and the headers that a transfer carries, described without the callbacks: all bodies in a
-- row, and the lines in a row.
abbrev pub bodies : List Chunk → Bytes
bodies [] = []
bodies (body_chunk size count bytes ∷ chunks) = bytes ++ bodies chunks
bodies (header_chunk size count bytes ∷ chunks) = bodies chunks

abbrev pub lines : List Chunk → List Bytes
lines [] = []
lines (body_chunk size count bytes ∷ chunks) = lines chunks
lines (header_chunk size count bytes ∷ chunks) = bytes ∷ lines chunks

abbrev pub all_headers : HttpHeaders → List Bytes → HttpHeaders
all_headers headers [] = headers
all_headers headers (line ∷ rest) = all_headers (add_header headers line) rest

-- No chunk is refused for its size.
abbrev pub fits : Chunk → Bool
fits (body_chunk size count bytes) = not (too_large size count)
fits (header_chunk size count bytes) = not (too_large size count)

abbrev pub all_fit : List Chunk → Bool
all_fit [] = true
all_fit (chunk ∷ chunks) = fits chunk && all_fit chunks

abbrev with_body : ResponseState → HttpHeaders → Bytes → ResponseState
with_body state headers body = record state {
  response = record state.response { headers = headers; body = body };
}

same_size : (n : ℕ) → (n == n) ≡ true
same_size n = ground arith

receive-step :
    (state later : ResponseState) (chunk : Chunk) (chunks : List Chunk)
    → call_back chunk state ≡ (chunk_size chunk, later)
    → receive state (chunk ∷ chunks) ≡ receive later chunks
unfolding receive
receive-step state later chunk chunks e =
    rw (e, receive, same_size (chunk_size chunk)) (ap (λ step. receive step.1 chunks) e)

call_back-body :
    (state : ResponseState) (size count : ℕ) (bytes : Bytes)
    → too_large size count ≡ false
    → call_back (body_chunk size count bytes) state
      ≡ (size * count, with_body state state.response.headers (state.response.body ++ bytes))
unfolding call_back body_callback
call_back-body state size count bytes h = rw h refl

call_back-header :
    (state : ResponseState) (size count : ℕ) (bytes : Bytes)
    → too_large size count ≡ false
    → call_back (header_chunk size count bytes) state ≡ (
      size * count,
      with_body state (add_header state.response.headers bytes) state.response.body,
    )
unfolding call_back header_callback
call_back-header state size count bytes h = rw h refl

receive-nil : (state : ResponseState) → receive state [] ≡ (state, true)
unfolding receive
receive-nil state = refl

receive-from :
    (state : ResponseState) (chunks : List Chunk)
    → all_fit chunks ≡ true
    → receive state chunks ≡ (
      with_body state
          (all_headers state.response.headers (lines chunks))
          (state.response.body ++ bodies chunks),
      true,
    )
receive-from state [] h = rw (append-nil state.response.body) (receive-nil state)
receive-from state (body_chunk size count bytes ∷ chunks) h =
    let later = with_body state state.response.headers (state.response.body ++ bytes) in
    receive-step state later (body_chunk size count bytes) chunks
      (call_back-body state size count bytes (ground arith))
    ∙ receive-from later chunks (ground arith)
    ∙ ap (λ body. (with_body state (all_headers state.response.headers (lines chunks)) body, true))
        (append_assoc state.response.body bytes (bodies chunks))
receive-from state (header_chunk size count bytes ∷ chunks) h =
    let later = with_body state (add_header state.response.headers bytes) state.response.body in
    receive-step state later (header_chunk size count bytes) chunks
      (call_back-header state size count bytes (ground arith))
    ∙ receive-from later chunks (ground arith)

-- Callbacks that refuse no chunk for its size take a transfer whole, and leave the bodies in a row
-- and the headers that the lines in a row give.
pub receive_lem :
    (chunks : List Chunk)
    → all_fit chunks ≡ true
    → receive start chunks ≡ (
      record {
        response = record {
          status_code = start.response.status_code;
          headers = all_headers [] (lines chunks);
          body = bodies chunks;
        };
      },
      true,
    )
receive_lem chunks h = receive-from start chunks h

all_headers-append :
    (headers : HttpHeaders) (before after : List Bytes)
    → all_headers headers (before ++ after) ≡ all_headers (all_headers headers before) after
all_headers-append headers [] after = refl
all_headers-append headers (line ∷ before) after =
    all_headers-append (add_header headers line) before after

add_header-status :
    (headers : HttpHeaders) (line : Bytes)
    → starts_with line (codes "HTTP/") ≡ true
    → add_header headers line ≡ add_header [] line
unfolding add_header
add_header-status headers line h = ground arith

lines-append : (before after : List Chunk) → lines (before ++ after) ≡ lines before ++ lines after
lines-append [] after = refl
lines-append (body_chunk size count bytes ∷ before) after = lines-append before after
lines-append (header_chunk size count bytes ∷ before) after =
    ap (λ rest. bytes ∷ rest) (lines-append before after)

all_fit-append :
    (before after : List Chunk) → all_fit (before ++ after) ≡ true → all_fit after ≡ true
all_fit-append [] after h = h
all_fit-append (chunk ∷ before) after h = all_fit-append before after (ground arith)

-- A status line drops the headers of every response before it: what the transfer carried before the
-- line leaves no header.
pub receive-status :
    (before after : List Chunk) (size count : ℕ) (status : Bytes)
    → starts_with status (codes "HTTP/") ≡ true
    → all_fit (before ++ (header_chunk size count status ∷ after)) ≡ true
    → (receive start (before ++ (header_chunk size count status ∷ after))).0.response.headers
      ≡ (receive start (header_chunk size count status ∷ after)).0.response.headers
receive-status before after size count status h k =
    let last = header_chunk size count status ∷ after in
    let headers_of = λ (step : ResponseState × Bool). step.0.response.headers in
    ap headers_of (receive_lem (before ++ last) k)
    ∙ ap (all_headers []) (lines-append before last)
    ∙ all_headers-append [] (lines before) (lines last)
    ∙ ap (λ headers. all_headers headers (lines after))
        (add_header-status (all_headers [] (lines before)) status h)
    ∙ sym (ap headers_of (receive_lem last (all_fit-append before last k)))
