-- ===== src/Curl/Refusal.antt =====
-- Which requests `Send` refuses.
use livekit_server_cpp.Common.{
  ℕ, ◌≡◌, ◌↔◌, refl, ◌∙◌, arith, Bool, true, false, not, ◌&&◌, List, [], ◌∷◌, ◌==◌, Bool-cases, inl,
  inr, if◌then◌else◌,
}
use livekit_server_cpp.Curl.Fit.{IsFit, all_valid, all_valid_iff, sendable-IsFit, IsFit-sendable}
use livekit_server_cpp.Curl.Lines.{header_line, is_header, header_lines}
use livekit_server_cpp.Curl.Receive.{start, receive}
use livekit_server_cpp.Curl.{
  Curl, CurlOption, Transfer, is_sendable, check, set_options, options_of, finish, curl_send,
  write_error,
}
use livekit_server_cpp.Error.{ErrorCode, Result, ok, throw, undefined, ◌>>=◌, ◌>>◌}
use livekit_server_cpp.Common.{Bytes}
use livekit_server_cpp.Http.{HttpHeaders, HttpRequest, HttpResponse}

abbrev pub is_invalid_argument : ErrorCode → Bool
is_invalid_argument ErrorCode.invalid_argument = true
is_invalid_argument _ = false

-- The outcome is an error of the caller.
abbrev pub is_refusal {ℓ} : {A : Type ℓ} → Result A → Bool
is_refusal (throw error) = is_invalid_argument error.code
is_refusal _ = false

is_refusal-bind {κ ℓ} :
    {S : Type κ} {T : Type ℓ} (first : Result S) (rest : S → Result T)
    → is_refusal first ≡ false
    → ((value : S) → is_refusal (rest value) ≡ false)
    → is_refusal (first >>= rest) ≡ false
is_refusal-bind (ok value) rest h k = k value
is_refusal-bind (throw error) rest h k = h
is_refusal-bind undefined rest h k = refl

is_refusal-map {κ ℓ} :
    {S : Type κ} {T : Type ℓ} (first : Result S) (f : S → T)
    → is_refusal (first >>= λ value. ok (f value)) ≡ is_refusal first
is_refusal-map (ok value) f = refl
is_refusal-map (throw error) f = refl
is_refusal-map undefined f = refl

is_refusal-header_lines :
    (headers : HttpHeaders) → is_refusal (header_lines headers) ≡ not (all_valid headers)
unfolding header_lines
is_refusal-header_lines [] = refl
is_refusal-header_lines ((name, value) ∷ headers) = elim (Bool-cases (is_header name value)) [
  | inl valid ↦ rw valid (
      is_refusal-map (header_lines headers) (λ lines. header_line name value ∷ lines)
      ∙ is_refusal-header_lines headers)
  | inr bad ↦ rw bad refl
]

module _ (curl : Curl) where
  is_refusal-check : (code : ℕ) → is_refusal (check curl code) ≡ false
  unfolding check
  is_refusal-check code = ground (arith, Bool-cases (code == 0))

  is_refusal-set_options :
      (options : List CurlOption) → is_refusal (set_options curl options) ≡ false
  unfolding set_options
  is_refusal-set_options [] = refl
  is_refusal-set_options (option ∷ options) =
      is_refusal-bind (check curl (curl.setopt option)) _ (is_refusal-check (curl.setopt option))
        (λ done. is_refusal-set_options options)

  is_refusal-finish : (transfer : Transfer) → is_refusal (finish curl transfer) ≡ false
  unfolding finish
  is_refusal-finish transfer =
      let (state, whole) = receive start transfer.chunks in
      is_refusal-bind (check curl (if whole then transfer.code else write_error)) _
        (is_refusal-check _)
        (λ done.
          is_refusal-bind (check curl transfer.info_code) _ (is_refusal-check _) (λ done. refl))

  is_refusal-unfit :
      (sent : List HttpRequest) (request : HttpRequest)
      → is_refusal (curl_send curl sent request)
        ≡ not (is_sendable request && all_valid request.headers)
  unfolding curl_send
  is_refusal-unfit sent request = elim (Bool-cases (is_sendable request)) [
    | inr bad ↦ rw bad refl
    | inl fit ↦
        rw fit (from_lines (header_lines request.headers) (is_refusal-header_lines request.headers))
  ]
    where
      rest : List Bytes → Result HttpResponse
      rest lines =
          set_options curl (options_of curl request lines)
          >> finish curl (curl.perform sent (options_of curl request lines))

      from_lines :
          (lines : Result (List Bytes))
          → is_refusal lines ≡ not (all_valid request.headers)
          → is_refusal (lines >>= rest) ≡ not (all_valid request.headers)
      from_lines (ok lines) e =
          is_refusal-bind (set_options curl (options_of curl request lines)) _
            (is_refusal-set_options _) (λ done. is_refusal-finish _)
          ∙ e
      from_lines (throw error) e = e
      from_lines undefined e = e

  -- `Send` throws no error for an invalid argument exactly if the request and its headers are fit to
  -- be sent, whatever libcurl does.
  pub is_refusal-curl_send :
      (sent : List HttpRequest) (request : HttpRequest)
      → (is_refusal (curl_send curl sent request) ≡ false) ↔ IsFit request
  is_refusal-curl_send sent request =
      let shown = is_refusal-unfit sent request in
      let (fits, back) = all_valid_iff request.headers in
      (
        λ h.
            let sendable : is_sendable request ≡ true = ground arith in
            let valid : all_valid request.headers ≡ true = ground arith in
            sendable-IsFit request sendable (fits valid),
        λ fit.
            let sendable = IsFit-sendable request fit in
            let valid = back fit.headers in ground arith,
      )
