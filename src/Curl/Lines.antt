-- ===== src/Curl/Lines.antt =====
-- src/detail/curl_transport.cpp: `Token`, and the header lines that `Send` hands to libcurl.
pub mod Safe
use livekit_server_cpp.Common.{
  ℕ, ◌+◌, Bool, true, false, not, ◌&&◌, ◌||◌, List, [], ◌∷◌, ◌++◌, Bytes, codes, leb, ◌==◌,
  if◌then◌else◌, is_empty,
}
use livekit_server_cpp.Error.{ErrorCode, Result, ok, ◌>>=◌, ◌>>◌, throw_if}
use livekit_server_cpp.Http.{HttpHeaders}

-- `text.find(byte) != npos`.
unfoldable pub has_byte : ℕ → Bytes → Bool
has_byte byte [] = false
has_byte byte (c ∷ text) = c == byte || has_byte byte text

unfoldable pub is_token_byte : ℕ → Bool
is_token_byte c =
    leb b'a' c && leb c b'z'
    || leb b'A' c && leb c b'Z'
    || leb b'0' c && leb c b'9'
    || has_byte c (codes "!#$%&'*+-.^_`|~")

unfoldable pub all_token_bytes : Bytes → Bool
all_token_bytes [] = true
all_token_bytes (c ∷ value) = is_token_byte c && all_token_bytes value

-- `Token`.
unfoldable pub is_token : Bytes → Bool
is_token value = not (is_empty value) && all_token_bytes value

-- One header as a line. An empty value is written as libcurl wants it.
unfoldable pub header_line : Bytes → Bytes → Bytes
header_line name value = name ++ (if is_empty value then codes ";" else codes ": " ++ value)

-- What `Send` requires of a header.
unfoldable pub is_header : Bytes → Bytes → Bool
is_header name value =
    is_token name && not (has_byte 13 value || has_byte 10 value) && not (has_byte 0 value)

-- The loop over the headers.
unfoldable pub header_lines : HttpHeaders → Result (List Bytes)
header_lines [] = ok []
header_lines ((name, value) ∷ headers) = do
  throw_if (not (is_header name value)) ErrorCode.invalid_argument "invalid HTTP header"
  lines ← header_lines headers
  ok (header_line name value ∷ lines)
