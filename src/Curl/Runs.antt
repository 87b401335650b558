-- ===== src/Curl/Runs.antt =====
-- A concrete transfer, and the theorems at concrete inputs.
use livekit_server_cpp.Common.Lists.{starts_with}
use livekit_server_cpp.Common.{
  ◌↔◌, false, ◌≡◌, refl, true, some, List, [], ◌∷◌, ◌++◌, Bytes, codes, All,
}
use livekit_server_cpp.Common.Int.{pos}
use livekit_server_cpp.Curl.Lines.Safe.{IsSafe, header_lines-IsSafe}
use livekit_server_cpp.Curl.Lines.{
  has_byte, is_token_byte, all_token_bytes, is_token, header_line, is_header, header_lines,
}
use livekit_server_cpp.Curl.Receive.RoundTrip.{header_field-header_line}
use livekit_server_cpp.Curl.Receive.{
  Chunk, body_chunk, header_chunk, too_large, trim_start, trim_end, split_colon, header_field,
  add_header, call_back, body_callback, header_callback, receive,
}
use livekit_server_cpp.Curl.Fit.{IsFit}
use livekit_server_cpp.Curl.Refusal.{is_refusal, is_refusal-curl_send}
use livekit_server_cpp.Curl.{
  Curl, is_sendable, to_int, check, set_options, options_of, finish, curl_send,
}
use livekit_server_cpp.Error.{ErrorCode, ok, fail}
use livekit_server_cpp.Http.{HttpRequest}

abbrev line_end : Bytes
line_end = 13 ∷ 10 ∷ []

abbrev status_line : Bytes
status_line = codes "HTTP/1.1 200 OK" ++ line_end

-- A first response, and then the one that counts.
abbrev first_response : List Chunk
first_response = header_chunk 1 8 (codes "A: 1" ++ line_end) ∷ []

abbrev last_response : List Chunk
last_response =
    header_chunk 1 8 (codes "B:  2 " ++ line_end)
    ∷ body_chunk 1 2 (codes "he")
    ∷ body_chunk 1 3 (codes "llo")
    ∷ []

abbrev a_curl : Curl
a_curl = record {
  global_init = 0;
  has_handle = true;
  strerror = λ code. codes "error";
  setopt = λ option. 0;
  perform = λ sent options. record {
    chunks = first_response ++ (header_chunk 1 17 status_line ∷ last_response);
    code = 0;
    info_code = 0;
    status = 200;
  };
  long_max = 1000;
}

abbrev a_request : HttpRequest
a_request = record {
  url = codes "https://host";
  method = codes "POST";
  headers = (codes "Accept", codes "x/y") ∷ [];
  body = codes "body";
  timeout = pos 5;
}

answered :
    curl_send a_curl [] a_request
    ≡ ok (record {
      status_code = pos 200;
      headers = (codes "B", codes "2") ∷ [];
      body = codes "hello";
    })
unfolding curl_send is_sendable is_token all_token_bytes is_token_byte has_byte starts_with
    header_lines is_header header_line set_options check options_of finish receive call_back
    body_callback header_callback too_large add_header header_field split_colon trim_start trim_end
    to_int
answered = refl

-- A value that would begin a header of its own is refused.
refused :
    curl_send a_curl [] (record a_request { headers = (codes "A", codes "b" ++ line_end) ∷ [] })
    ≡ fail ErrorCode.invalid_argument "invalid HTTP header"
unfolding curl_send is_sendable is_token all_token_bytes is_token_byte has_byte starts_with
    header_lines is_header header_line
refused = refl

written : header_lines a_request.headers ≡ ok (codes "Accept: x/y" ∷ [])
unfolding header_lines is_header is_token all_token_bytes is_token_byte has_byte header_line
written = refl

header_lines-IsSafe_example : All IsSafe (codes "Accept: x/y" ∷ [])
header_lines-IsSafe_example =
    header_lines-IsSafe a_request.headers (codes "Accept: x/y" ∷ []) written

is_refusal-curl_send_example :
    (is_refusal (curl_send a_curl [] a_request) ≡ false) ↔ IsFit a_request
is_refusal-curl_send_example = is_refusal-curl_send a_curl [] a_request

header_field-header_line_example :
    header_field (header_line (codes "Accept") (codes "x/y") ++ (13 ∷ 10 ∷ []))
    ≡ some (codes "Accept", codes "x/y")
unfolding is_token all_token_bytes is_token_byte has_byte
header_field-header_line_example =
    header_field-header_line (codes "Accept") (codes "x/y") refl refl refl refl
