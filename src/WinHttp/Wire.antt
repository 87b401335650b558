-- ===== src/WinHttp/Wire.antt =====
-- What `Send` reads as the body.
use livekit_server_cpp.Common.{
  ◌≡◌, refl, ◌≤◌, ◌+◌, zero, true, leb, length, sym, ap, ◌∙◌, append_assoc, append-nil, suc, ℕ,
  false, ◌==◌, arith, List, [], ◌∷◌, ◌++◌, Bytes,
}
use livekit_server_cpp.Error.{ok}
use livekit_server_cpp.WinHttp.Connection.{Windows, succeeded, in_windows}
use livekit_server_cpp.WinHttp.{Round, resize, write_at, read_body}

-- A round in which some bytes are available and some are read, and one in which none are available.
abbrev pub full : ℕ × Bytes → Round
full piece = record { available = succeeded (suc piece.0); data_read = succeeded piece.1 }

abbrev pub full_rounds : List (ℕ × Bytes) → List Round → List Round
full_rounds [] rounds = rounds
full_rounds (piece ∷ pieces) rounds = full piece ∷ full_rounds pieces rounds

abbrev pub last : Windows Bytes → Round
last ignored = record { available = succeeded 0; data_read = ignored }

abbrev pub all_read : List (ℕ × Bytes) → Bytes
all_read [] = []
all_read (piece ∷ pieces) = piece.1 ++ all_read pieces

-- No reading gives more than is available.
abbrev pub AllWithin : List (ℕ × Bytes) → Type 0
AllWithin [] = Unit
AllWithin (piece ∷ pieces) = (length piece.1 ≤ suc piece.0) × AllWithin pieces

positive : (n : ℕ) → (suc n == 0) ≡ false
positive n = ground arith

-- One round: the buffer grows by what is available, takes what is read behind the body, and is cut to
-- that.
round-append :
    (body data_read : Bytes) (available : ℕ)
    → length data_read ≤ available
    → resize
        (length body + length data_read)
        (write_at (length body) data_read (resize (length body + available) body))
      ≡ body ++ data_read
unfolding resize write_at
round-append [] [] available h = refl
round-append [] (d ∷ data_read) zero h = absurd (omega arith)
round-append [] (d ∷ data_read) (suc available) h =
    let left : 0 + suc (length data_read) ≡ suc (0 + length data_read) = omega arith in
    let right : 0 + suc available ≡ suc (0 + available) = omega arith in
    rw (left, right) (ap (λ rest. d ∷ rest) (round-append [] data_read available (omega arith)))
round-append (c ∷ body) data_read available h =
    let left : suc (length body) + length data_read ≡ suc (length body + length data_read) =
      omega arith in
    let right : suc (length body) + available ≡ suc (length body + available) = omega arith in
    rw (left, right) (ap (λ rest. c ∷ rest) (round-append body data_read available h))

read_body-from :
    (pieces : List (ℕ × Bytes)) (ignored : Windows Bytes) (more : List Round) (body : Bytes)
    → AllWithin pieces
    → read_body (full_rounds pieces (last ignored ∷ more)) body ≡ ok (body ++ all_read pieces)
unfolding read_body in_windows
read_body-from [] ignored more body h = ap ok (sym (append-nil body))
read_body-from (piece ∷ pieces) ignored more body (h, k) =
    let within : leb (length piece.1) (suc piece.0) ≡ true = ground arith in
    rw (positive piece.0, within, round-append body piece.1 (suc piece.0) h)
      (read_body-from pieces ignored more (body ++ piece.1) k)
    ∙ ap ok (append_assoc body piece.1 (all_read pieces))

-- If no reading gives more than is available, the body is what was read up to the first time that
-- nothing is available, in a row, however much of what was available each reading gave; what comes
-- behind is not asked for.
pub read_body_lem :
    (pieces : List (ℕ × Bytes)) (ignored : Windows Bytes) (more : List Round)
    → AllWithin pieces
    → read_body (full_rounds pieces (last ignored ∷ more)) [] ≡ ok (all_read pieces)
read_body_lem pieces ignored more h = read_body-from pieces ignored more [] h
