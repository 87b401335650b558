-- ===== src/Curl/Receive.antt =====
-- src/detail/curl_transport.cpp: the callbacks `Body` and `Header`, and what they make of a response.
pub mod Fold
pub mod RoundTrip
use livekit_server_cpp.Common.{
  ℕ, ◌+◌, ◌*◌, ◌/◌, ◌-◌, ◌^◌, Bool, true, false, not, ◌&&◌, ◌||◌, Option, none, some, List, [], ◌∷◌,
  ◌++◌, Bytes, codes, ltb, ◌==◌, if◌then◌else◌, is_empty, starts_with,
}
use livekit_server_cpp.Common.Int.{pos}
use livekit_server_cpp.Http.{HttpHeaders, HttpResponse}

pub record ResponseState : Type 0 where
  pub response : HttpResponse

abbrev pub start : ResponseState
start = record { response = record { status_code = pos 0; headers = []; body = [] } }

-- A call of a callback: `bytes` are the `size * count` bytes at its pointer.
pub data Chunk : Type 0 where
  body_chunk header_chunk : ℕ → ℕ → Bytes → Chunk

-- `size && count > std::numeric_limits<std::size_t>::max() / size`.
unfoldable pub too_large : ℕ → ℕ → Bool
too_large size count = not (size == 0) && ltb ((2 ^ 64 - 1) / size) count

abbrev pub is_blank : ℕ → Bool
is_blank c = c == b' ' || c == 9

abbrev pub is_end_blank : ℕ → Bool
is_end_blank c = c == b' ' || c == 9 || c == 13 || c == 10

-- `find_first_not_of(" \t")` and the rest from there.
unfoldable pub trim_start : Bytes → Bytes
trim_start [] = []
trim_start (c ∷ value) = elim (is_blank c) [ true ↦ trim_start value | false ↦ c ∷ value ]

-- Up to `find_last_not_of(" \t\r\n")`.
unfoldable pub trim_end : Bytes → Bytes
trim_end [] = []
trim_end (c ∷ value) =
    let rest = trim_end value in if is_end_blank c && is_empty rest then [] else c ∷ rest

-- What stands before and behind the first colon.
unfoldable pub split_colon : Bytes → Option (Bytes × Bytes)
split_colon [] = none
split_colon (c ∷ line) =
    if c == b':'
    then some ([], line)
    else (elim (split_colon line) [ none ↦ none | some (name, value) ↦ some (c ∷ name, value) ])

-- The header that a line holds.
unfoldable pub header_field : Bytes → Option (Bytes × Bytes)
header_field line = elim (split_colon line) [
  | none ↦ none
  | some (name, value) ↦ some (name, trim_end (trim_start value))
]

-- The headers after a line: a status line begins them anew.
unfoldable pub add_header : HttpHeaders → Bytes → HttpHeaders
add_header headers line =
    let before = if starts_with line (codes "HTTP/") then [] else headers in
    elim (header_field line) [ none ↦ before | some field ↦ before ++ field ∷ [] ]

-- A callback: the number that it returns and the state that it leaves.
unfoldable pub body_callback : ℕ → ℕ → Bytes → ResponseState → ℕ × ResponseState
body_callback size count bytes state = if too_large size count then (0, state) else (
  size * count,
  record state { response = record state.response { body = state.response.body ++ bytes } },
)

unfoldable pub header_callback : ℕ → ℕ → Bytes → ResponseState → ℕ × ResponseState
header_callback size count bytes state = if too_large size count then (0, state) else (
  size * count,
  record state {
    response = record state.response { headers = add_header state.response.headers bytes };
  },
)

unfoldable pub call_back : Chunk → ResponseState → ℕ × ResponseState
call_back (body_chunk size count bytes) state = body_callback size count bytes state
call_back (header_chunk size count bytes) state = header_callback size count bytes state

abbrev pub chunk_size : Chunk → ℕ
chunk_size (body_chunk size count bytes) = size * count
chunk_size (header_chunk size count bytes) = size * count

-- libcurl's side: it goes on as long as a callback takes its chunk whole, and tells whether all were.
unfoldable pub receive : ResponseState → List Chunk → ResponseState × Bool
receive state [] = (state, true)
receive state (chunk ∷ chunks) =
    let (taken, later) = call_back chunk state in
    elim (taken == chunk_size chunk) [ true ↦ receive later chunks | false ↦ (later, false) ]
