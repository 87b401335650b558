-- ===== src/Crypto/Windows.antt =====
-- src/detail/crypto.cpp: `BCryptDigest`, which computes the digests where the library is built for
-- Windows without OpenSSL. The functions of Windows are parameters.
use livekit_server_cpp.Common.{
  ℕ, ◌-◌, ◌%◌, ◌^◌, Bool, true, false, not, ◌&&◌, ◌||◌, [], Bytes, ltb, if◌then◌else◌, length,
}
use livekit_server_cpp.Common.Int.{ℤ, pos, ltb_ℤ}
use livekit_server_cpp.Error.{ErrorCode, Result, ok, fail}

-- The functions of BCrypt, by whether the provider computes an HMAC: the statuses, the two properties
-- with their statuses, and the digest that is written. Data is passed with its size.
pub record Bcrypt : Type 0 where
  pub open_algorithm : Bool → ℤ
  pub object_length : Bool → ℤ × ℕ
  pub hash_length : Bool → ℤ × ℕ
  pub create_hash : Bool → ℕ → Bytes → ℕ → ℤ
  pub hash_data : Bool → Bytes → ℕ → Bytes → ℕ → ℤ
  pub finish_hash : Bool → Bytes → ℕ → Bytes → ℕ → ℕ → ℤ × Bytes

-- `BCRYPT_SUCCESS`.
unfoldable pub bcrypt_success : ℤ → Bool
bcrypt_success status = not (ltb_ℤ status (pos 0))

-- `std::numeric_limits<ULONG>::max()`, and a cast to that type.
abbrev pub ulong_max : ℕ
ulong_max = 2 ^ 32 - 1

unfoldable pub to_ulong : ℕ → ℕ
to_ulong n = n % 2 ^ 32

-- The end, from the statuses of the three functions; those of functions that are not called count as
-- the status before them.
unfoldable pub digest_of : ℤ → ℤ → ℤ × Bytes → Result Bytes
digest_of create_status hash_status (finish_status, digest) =
    if not (bcrypt_success create_status)
      || not (bcrypt_success hash_status)
      || not (bcrypt_success finish_status)
    then fail ErrorCode.authentication "SHA-256 operation failed"
    else ok digest

module _ (bcrypt : Bcrypt) where
  unfoldable pub is_initialized : Bool → Bool
  is_initialized hmac =
      bcrypt_success (bcrypt.open_algorithm hmac)
      && bcrypt_success (bcrypt.object_length hmac).0
      && bcrypt_success (bcrypt.hash_length hmac).0

  -- `create_status`, `hash_status`, and `finish_status` with the digest.
  unfoldable pub create_status_of : Bool → Bytes → ℕ → ℤ
  create_status_of hmac secret secret_size =
      bcrypt.create_hash hmac (to_ulong (bcrypt.object_length hmac).1) secret secret_size

  unfoldable pub hash_status_of : Bool → Bytes → ℕ → Bytes → ℕ → ℤ
  hash_status_of hmac secret secret_size value size =
      let create_status = create_status_of hmac secret secret_size in
      if bcrypt_success create_status
      then bcrypt.hash_data hmac secret secret_size value size
      else create_status

  unfoldable pub finished_of : Bool → Bytes → ℕ → Bytes → ℕ → ℤ × Bytes
  finished_of hmac secret secret_size value size =
      let hash_status = hash_status_of hmac secret secret_size value size in
      if bcrypt_success hash_status
      then bcrypt.finish_hash hmac secret secret_size value size
          (to_ulong (bcrypt.hash_length hmac).1)
      else (hash_status, [])

  unfoldable pub hashed_with : Bool → Bytes → ℕ → Bytes → ℕ → Result Bytes
  hashed_with hmac secret secret_size value size =
      digest_of (create_status_of hmac secret secret_size)
        (hash_status_of hmac secret secret_size value size)
        (finished_of hmac secret secret_size value size)

  -- From `BCryptCreateHash` on.
  unfoldable pub hashed : Bytes → Bytes → Bool → Result Bytes
  hashed secret value hmac =
      hashed_with hmac secret (if hmac then to_ulong (length secret) else 0) value
        (to_ulong (length value))

  -- `BCryptDigest`.
  unfoldable pub bcrypt_digest : Bytes → Bytes → Bool → Result Bytes
  bcrypt_digest secret value hmac =
      if ltb ulong_max (length secret) || ltb ulong_max (length value)
      then fail ErrorCode.invalid_argument "cryptographic input is too large"
      else if not (is_initialized hmac)
      then fail ErrorCode.authentication "failed to initialize SHA-256"
      else hashed secret value hmac

  -- `Sha256` and `HmacSha256` of this branch.
  unfoldable pub windows_sha256 : Bytes → Result Bytes
  windows_sha256 value = bcrypt_digest [] value false

  unfoldable pub windows_hmac_sha256 : Bytes → Bytes → Result Bytes
  windows_hmac_sha256 secret value = bcrypt_digest secret value true
