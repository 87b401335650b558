-- ===== src/Context/Url.antt =====
-- src/detail/client_context.cpp: `NormalizeUrl` and its helper.
pub mod Address
pub mod Normal
use livekit_server_cpp.Common.{
  ℕ, zero, suc, ◌+◌, ◌≡◌, refl, sym, ap, ◌∙◌, arith, Bool, true, false, not, ◌&&◌, ◌||◌, [], ◌∷◌,
  ◌++◌, append-nil, append_assoc, Bytes, codes, ltb, leb, ◌==◌, if◌then◌else◌, drop, is_empty,
  Bool-cases, inl, inr,
}
use livekit_server_cpp.Error.{ErrorCode, Result, ok, throw, undefined, fail, ◌>>=◌, ◌>>◌, throw_if}

-- `std::tolower` in the C locale.
abbrev pub to_lower : ℕ → ℕ
to_lower c = if leb b'A' c && leb c b'Z' then c + 32 else c

-- `StartsWithCaseInsensitive`.
unfoldable pub starts_with_case_insensitive : Bytes → Bytes → Bool
starts_with_case_insensitive value [] = true
starts_with_case_insensitive [] (p ∷ prefix) = false
starts_with_case_insensitive (c ∷ value) (p ∷ prefix) =
    to_lower p == to_lower c && starts_with_case_insensitive value prefix

-- `while (!url.empty() && url.back() == '/') url.pop_back();`
unfoldable pub strip_slashes : Bytes → Bytes
strip_slashes [] = []
strip_slashes (c ∷ url) =
    let rest = strip_slashes url in if c == b'/' && is_empty rest then [] else c ∷ rest

-- The scheme of a web socket becomes that of HTTP.
unfoldable pub http_scheme : Bytes → Bytes
http_scheme url =
    if starts_with_case_insensitive url (codes "ws://")
    then codes "http://" ++ drop 5 url
    else if starts_with_case_insensitive url (codes "wss://")
    then codes "https://" ++ drop 6 url
    else url

-- `NormalizeUrl`.
unfoldable pub normalize_url : Bytes → Result Bytes
normalize_url url = do
  let http = http_scheme url
  throw_if
      (not (starts_with_case_insensitive http (codes "http://"))
        && not (starts_with_case_insensitive http (codes "https://")))
      ErrorCode.invalid_argument "LiveKit URL must use http, https, ws, or wss"
  ok (strip_slashes http)
