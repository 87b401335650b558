-- ===== src/Http.antt =====
-- include/livekit/server/http_transport.h and api_options.h: requests, responses, the transport, and
-- the outside world of a call. What the world answers may depend on all that happened before.
use livekit_server_cpp.Common.{
  ℕ, ◌+◌, ◌%◌, ◌^◌, zero, suc, ◌≡◌, refl, arith, Option, List, [], ◌∷◌, Bytes,
}
use livekit_server_cpp.Common.Int.{ℤ}
use livekit_server_cpp.Crypto.{Evp}
use livekit_server_cpp.Error.{Result, ok, throw, undefined}

-- `HttpHeaders`.
abbrev pub HttpHeaders : Type 0
HttpHeaders = List (Bytes × Bytes)

pub record HttpRequest : Type 0 where
  pub url : Bytes
  pub method : Bytes
  pub headers : HttpHeaders
  pub body : Bytes
  pub timeout : ℤ

pub record HttpResponse : Type 0 where
  pub status_code : ℤ
  pub headers : HttpHeaders
  pub body : Bytes

-- An implementation of `HttpTransport`: what `Send` does, after the requests that were sent before.
abbrev pub HttpTransport : Type 0
HttpTransport = List HttpRequest → HttpRequest → Result HttpResponse

-- `timeout` is in milliseconds.
pub record ApiOptions : Type 0 where
  pub url : Bytes
  pub api_key : Bytes
  pub api_secret : Bytes
  pub access_token : Bytes
  pub timeout : ℤ
  pub transport : Option HttpTransport

-- The machine: its environment variables, the n-th reading of the clock, the n-th value of
-- `std::random_device`, and the libraries.
pub record Machine : Type 0 where
  pub environment : Bytes → Option Bytes
  pub clock : ℕ → ℤ
  pub random : ℕ → ℕ
  pub ticks_per_second : ℕ
  pub evp : Evp
  pub default_transport : Result HttpTransport

-- What has happened: the requests, the latest first, and how often clock and random device were read.
pub record World : Type 0 where
  pub sent : List HttpRequest
  pub readings : ℕ
  pub draws : ℕ

-- A computation that acts on the world.
abbrev pub Action {ℓ} : Type ℓ → Type ℓ
Action A = World → Result A × World

abbrev pub after_result {ℓ κ} :
    {A : Type ℓ} {B : Type κ} → (A → Action B) → Result A × World → Result B × World
after_result f (ok a, world) = f a world
after_result f (throw e, world) = (throw e, world)
after_result f (undefined, world) = (undefined, world)

abbrev pub ◌>>=◌ {κ ℓ} : {S : Type κ} {T : Type ℓ} → Action S → (S → Action T) → Action T
(first >>= rest) world = after_result rest (first world)

abbrev pub ◌>>◌ {ℓ} : {T : Type ℓ} → Action (Unit {0}) → Action T → Action T
first >> rest = first >>= λ _. rest

infixl 5 ◌>>◌ ◌>>=◌
abbrev pub lift {ℓ} : {A : Type ℓ} → Result A → Action A
lift result world = (result, world)

abbrev pub done {ℓ} : {A : Type ℓ} → A → Action A
done a world = (ok a, world)

-- `transport->Send(request)`.
unfoldable pub send : HttpTransport → HttpRequest → Action HttpResponse
send transport request world =
    (transport world.sent request, record world { sent = request ∷ world.sent })

-- `std::chrono::system_clock::now()`.
unfoldable pub read_clock : Machine → Action ℤ
read_clock machine world =
    (ok (machine.clock world.readings), record world { readings = world.readings + 1 })

-- `count` draws, each cast to an `unsigned char`.
unfoldable pub random_bytes : Machine → ℕ → Action Bytes
random_bytes machine zero = done []
random_bytes machine (suc count) = do
  byte ←
      λ world. (ok (machine.random world.draws % 2 ^ 8), record world { draws = world.draws + 1 })
  bytes ← random_bytes machine count
  done (byte ∷ bytes)

-- A computation that succeeds is two that succeed.
pub action-eq-ok {ℓ κ} :
    {A : Type ℓ} {B : Type κ} (m : Action A) (f : A → Action B) (world : World) {b : B}
    {later : World}
    → (m >>= f) world ≡ (ok b, later)
    → (a : A) × (between : World) × (m world ≡ (ok a, between)) × (f a between ≡ (ok b, later))
action-eq-ok {A = A} {B = B} m f world {b} {later} h = go (m world) h refl
  where
    go :
        (step : Result A × World)
        → after_result f step ≡ (ok b, later)
        → m world ≡ step
        → (a : A) × (between : World) × (m world ≡ (ok a, between)) × (f a between ≡ (ok b, later))
    go (ok a, between) k e = (a, between, e, k)
    go (throw error, between) k e = absurd (ground arith)
    go (undefined, between) k e = absurd (ground arith)
