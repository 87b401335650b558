-- ===== src/Curl/Fit.antt =====
-- Which requests are fit to be put into the lines of HTTP.
use livekit_server_cpp.Common.{
  ℕ, ◌≡◌, ◌≢◌, ◌↔◌, ◌⊎◌, ◌≤◌, ◌<◌, ◌^◌, ◌++◌, ◌||◌, codes, leb, length, ap₂, sym,
  starts_with-append, refl, ◌∙◌, arith, Bool, true, false, ◌&&◌, [], ◌∷◌, Bool-cases, inl, inr,
}
use livekit_server_cpp.Common.Ascii.{is_in, IsIn, is_in_iff, agree, is_in-test}
use livekit_server_cpp.Common.Bits.{passes_to}
use livekit_server_cpp.Common.Lists.{starts_with}
use livekit_server_cpp.Common.Int.{ℤ, pos, ◌<ℤ◌, leb_ℤ, int64_max}
use livekit_server_cpp.Curl.Lines.{has_byte, is_token_byte, all_token_bytes, is_token, is_header}
use livekit_server_cpp.Curl.{is_sendable}
use livekit_server_cpp.Common.{Bytes}
use livekit_server_cpp.Http.{HttpHeaders, HttpRequest}

abbrev pub all_valid : HttpHeaders → Bool
all_valid [] = true
all_valid ((name, value) ∷ headers) = is_header name value && all_valid headers

-- No byte of a text is this one.
abbrev pub Lacks : ℕ → Bytes → Type 0
Lacks byte [] = Unit
Lacks byte (c ∷ text) = (c ≢ byte) × Lacks byte text

-- The characters of a token of HTTP, as RFC 9110 lists them.
abbrev pub token_alphabet : Bytes
token_alphabet =
    codes "!#$%&'*+-.^_`|~0123456789abcdefghijklmnopqrstuvwxyzABCDEFGHIJKLMNOPQRSTUVWXYZ"

abbrev pub AllIn : Bytes → Bytes → Type 0
AllIn alphabet [] = Unit
AllIn alphabet (c ∷ text) = IsIn c alphabet × AllIn alphabet text

abbrev pub IsToken : Bytes → Type 0
IsToken [] = ⊥
IsToken (c ∷ text) = AllIn token_alphabet (c ∷ text)

abbrev pub AllFit : HttpHeaders → Type 0
AllFit [] = Unit
AllFit ((name, value) ∷ headers) =
    (IsToken name × Lacks 13 value × Lacks 10 value × Lacks 0 value) × AllFit headers

-- A request that can be put into the lines of HTTP: its address is one of HTTP or HTTPS without a zero
-- byte, its method and the names of its headers are tokens, no value of a header breaks its line or
-- ends it, the timeout is positive, and the size of the body fits libcurl's 64 bits.
pub record IsFit (request : HttpRequest) : Type 0 where
  pub address :
      (rest : Bytes) × ((request.url ≡ codes "http://" ++ rest)
        ⊎ (request.url ≡ codes "https://" ++ rest))
  pub whole : Lacks 0 request.url
  pub method : IsToken request.method
  pub in_time : pos 0 <ℤ request.timeout
  pub size : length request.body < 2 ^ 63
  pub headers : AllFit request.headers

has_byte_iff : (byte : ℕ) (text : Bytes) → (has_byte byte text ≡ false) ↔ Lacks byte text
unfolding has_byte
has_byte_iff byte [] = (λ h. tt, λ h. refl)
has_byte_iff byte (c ∷ text) = ground (arith, has_byte_iff byte text)

token_table : passes_to (λ c. agree (is_in c token_alphabet) (is_token_byte c)) 128 ≡ true
unfolding passes_to is_token_byte has_byte
token_table = refl

token_above : (c : ℕ) → 128 ≤ c → is_token_byte c ≡ false
unfolding is_token_byte has_byte
token_above c h = ground arith

is_token_byte_iff : (c : ℕ) → (is_token_byte c ≡ true) ↔ IsIn c token_alphabet
is_token_byte_iff c =
    let same = is_in-test token_alphabet is_token_byte refl token_table token_above c in
    let (from, back) = is_in_iff c token_alphabet in (λ h. from (same ∙ h), λ h. sym same ∙ back h)

all_token_bytes_iff : (text : Bytes) → (all_token_bytes text ≡ true) ↔ AllIn token_alphabet text
unfolding all_token_bytes
all_token_bytes_iff [] = (λ h. tt, λ h. refl)
all_token_bytes_iff (c ∷ text) =
    let (from, back) = is_token_byte_iff c in
    let (from_rest, back_rest) = all_token_bytes_iff text in
    (
      λ h. (from (ground arith), from_rest (ground arith)),
      λ h. let head = back h.0 in let rest = back_rest h.1 in ground arith,
    )

is_token_iff : (text : Bytes) → (is_token text ≡ true) ↔ IsToken text
unfolding is_token
is_token_iff [] = (λ h. absurd (ground arith), λ h. absurd h)
is_token_iff (c ∷ text) = all_token_bytes_iff (c ∷ text)

is_header_iff :
    (name value : Bytes)
    → (is_header name value ≡ true)
      ↔ (IsToken name × Lacks 13 value × Lacks 10 value × Lacks 0 value)
unfolding is_header
is_header_iff name value =
    let (token, token_back) = is_token_iff name in
    let (feed, feed_back) = has_byte_iff 10 value in
    let (return, return_back) = has_byte_iff 13 value in
    let (nul, nul_back) = has_byte_iff 0 value in
    (
      λ h. (token (ground arith), return (ground arith), feed (ground arith), nul (ground arith)),
      λ h.
          let t = token_back h.0 in
          let r = return_back h.1 in let f = feed_back h.2 in let n = nul_back h.3 in ground arith,
    )

pub all_valid_iff : (headers : HttpHeaders) → (all_valid headers ≡ true) ↔ AllFit headers
all_valid_iff [] = (λ h. tt, λ h. refl)
all_valid_iff ((name, value) ∷ headers) =
    let (from, back) = is_header_iff name value in
    let (from_rest, back_rest) = all_valid_iff headers in
    (
      λ h. (from (ground arith), from_rest (ground arith)),
      λ h. let head = back h.0 in let rest = back_rest h.1 in ground arith,
    )

starts_with-split :
    (text prefix : Bytes)
    → starts_with text prefix ≡ true
    → (rest : Bytes) × (text ≡ prefix ++ rest)
unfolding starts_with
starts_with-split text [] h = (text, refl)
starts_with-split [] (p ∷ prefix) h = absurd (ground arith)
starts_with-split (c ∷ text) (p ∷ prefix) h =
    let (rest, e) = starts_with-split text prefix (ground arith) in
    let same : c ≡ p = ground arith in (rest, ap₂ (λ c text. c ∷ text) same e)

starts_with-begin :
    (text prefix rest : Bytes) → text ≡ prefix ++ rest → starts_with text prefix ≡ true
starts_with-begin text prefix rest e = rw e (starts_with-append prefix rest)

pub sendable-IsFit :
    (request : HttpRequest) → is_sendable request ≡ true → AllFit request.headers → IsFit request
unfolding is_sendable
sendable-IsFit request h fit = record {
  address = elim (Bool-cases (starts_with request.url (codes "http://"))) [
    | inl e ↦ let (rest, e) = starts_with-split request.url (codes "http://") e in (rest, inl e)
    | inr e ↦
        let (rest, e) = starts_with-split request.url (codes "https://") (ground arith) in
        (rest, inr e)
  ];
  whole = (has_byte_iff 0 request.url).0 (ground arith);
  method = (is_token_iff request.method).0 (ground arith);
  in_time = ground arith;
  size = ground arith;
  headers = fit;
}

pub IsFit-sendable : (request : HttpRequest) → IsFit request → is_sendable request ≡ true
unfolding is_sendable
IsFit-sendable request fit =
    let whole = (has_byte_iff 0 request.url).1 fit.whole in
    let token = (is_token_iff request.method).1 fit.method in
    let time : leb_ℤ request.timeout (pos 0) ≡ false = late request.timeout fit.in_time in
    let size : leb (length request.body) int64_max ≡ true = small (length request.body) fit.size in
    elim fit.address.1 [
      | inl e ↦
          let begins = starts_with-begin request.url (codes "http://") fit.address.0 e in
          rw (whole, token, time, size, begins) refl
      | inr e ↦
          let begins = starts_with-begin request.url (codes "https://") fit.address.0 e in
          rw (whole, token, time, size, begins) (either (starts_with request.url (codes "http://")))
    ]
  where
    late : (timeout : ℤ) → pos 0 <ℤ timeout → leb_ℤ timeout (pos 0) ≡ false
    late timeout h = ground arith

    small : (n : ℕ) → n < 2 ^ 63 → leb n int64_max ≡ true
    small n h = ground arith

    either : (b : Bool) → ((b || true) && true && true && true) ≡ true
    either true = refl
    either false = refl
