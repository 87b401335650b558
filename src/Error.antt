-- ===== src/Error.antt =====
-- include/livekit/server/error.h and src/error.cpp: the error that every component throws, and
-- the outcome of a computation that may throw it.
use Prim.Native.String.{String}
use livekit_server_cpp.Common.{ℕ, Bytes, codes, [], ◌≡◌, ◌≢◌, refl, Bool, true, false}
use livekit_server_cpp.Common.Int.{ℤ, pos}

-- `enum class ErrorCode : std::uint8_t`.
pub data ErrorCode : Type 0 where
  invalid_argument authentication transport http protocol unsupported unknown : ErrorCode

-- The enumerators' values.
unfoldable pub error_code_value : ErrorCode → ℕ
error_code_value ErrorCode.invalid_argument = 0
error_code_value ErrorCode.authentication = 1
error_code_value ErrorCode.transport = 2
error_code_value ErrorCode.http = 3
error_code_value ErrorCode.protocol = 4
error_code_value ErrorCode.unsupported = 5
error_code_value ErrorCode.unknown = 255

-- `class Error`; `message` is what `what()` returns.
pub record Error : Type 0 where
  pub code : ErrorCode
  pub message : Bytes
  pub http_status : ℤ
  pub twirp_code : Bytes

-- The constructor with its default arguments.
abbrev pub plain_error : ErrorCode → Bytes → Error
plain_error code message = record {
  code = code;
  message = message;
  http_status = pos 0;
  twirp_code = [];
}

-- A value, a thrown `Error`, or an `int64_t` overflow, which C++ leaves undefined.
pub data Result {ℓ} (A : Type ℓ) : Type ℓ where
  ok : A → Result A
  throw : Error → Result A
  undefined : Result A

abbrev pub fail {ℓ} : {A : Type ℓ} → ErrorCode → String → Result A
fail code message = throw (plain_error code (codes message))

-- The rest runs on the value of the first step, if there is one.
abbrev pub ◌>>=◌ {κ ℓ} : {S : Type κ} {T : Type ℓ} → Result S → (S → Result T) → Result T
undefined >>= rest = undefined
throw error >>= rest = throw error
ok value >>= rest = rest value

abbrev pub ◌>>◌ {ℓ} : {T : Type ℓ} → Result (Unit {0}) → Result T → Result T
first >> rest = first >>= λ _. rest

infixl 5 ◌>>◌ ◌>>=◌
-- `if (test) throw Error(code, message);`
abbrev pub throw_if : Bool → ErrorCode → String → Result (Unit {0})
throw_if true code message = fail code message
throw_if false code message = ok tt

abbrev pub is_ok {ℓ} : {A : Type ℓ} → Result A → Bool
is_ok (ok a) = true
is_ok (throw e) = false
is_ok undefined = false

pub ok-injective {ℓ} : {A : Type ℓ} {a b : A} → ok a ≡ ok b → a ≡ b
ok-injective h = cc

pub bind-eq-ok {κ ℓ} :
    {S : Type κ} {T : Type ℓ} (first : Result S) (rest : S → Result T) {result : T}
    → first >>= rest ≡ ok result
    → (value : S) × (first ≡ ok value) × (rest value ≡ ok result)
bind-eq-ok undefined rest h = cc
bind-eq-ok (throw error) rest h = cc
bind-eq-ok (ok value) rest h = (value, refl, h)

pub throw_if-eq-ok :
    (b : Bool) (code : ErrorCode) (message : String) {u : Unit {0}}
    → throw_if b code message ≡ ok u
    → b ≡ false
throw_if-eq-ok true code message h = cc
throw_if-eq-ok false code message h = refl

-- Behind a test that throws, the test failed and the rest succeeded.
pub throw_if-bind-eq-ok {ℓ} :
    {B : Type ℓ} (test : Bool) (code : ErrorCode) (message : String) (m : Result B) {b : B}
    → throw_if test code message >> m ≡ ok b
    → (test ≡ false) × (m ≡ ok b)
throw_if-bind-eq-ok true code message m h = cc
throw_if-bind-eq-ok false code message m h = (refl, h)

-- No value is lost to undefined behaviour behind a step that has none.
pub bind-undefined {κ ℓ} :
    {S : Type κ} {T : Type ℓ} (first : Result S) (rest : S → Result T)
    → first ≢ undefined
    → ((value : S) → first ≡ ok value → rest value ≢ undefined)
    → first >>= rest ≢ undefined
bind-undefined undefined rest defined next = λ h. defined refl
bind-undefined (throw error) rest defined next = λ h. cc
bind-undefined (ok value) rest defined next = next value refl

pub throw_if-undefined :
    (b : Bool) (code : ErrorCode) (message : String) → throw_if b code message ≢ undefined
throw_if-undefined true code message h = cc
throw_if-undefined false code message h = cc
