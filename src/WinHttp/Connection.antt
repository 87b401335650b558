-- ===== src/WinHttp/Connection.antt =====
-- src/http_transport.cpp: results of Windows' functions, and `Connection`.
use Prim.Native.String.{String}
use livekit_server_cpp.Common.Decimal.{decimal}
use livekit_server_cpp.Common.{
  ℕ, ◌+◌, Option, none, some, List, [], ◌∷◌, ◌++◌, Bytes, codes, equal, if◌then◌else◌,
}
use livekit_server_cpp.Error.{ErrorCode, Result, ok, throw, undefined, plain_error}

-- A `std::wstring`, and a `HINTERNET`.
abbrev pub Wide : Type 0
Wide = List ℕ

abbrev pub Handle : Type 0
Handle = ℕ

-- A function of Windows returns its value, or fails, and `GetLastError()` then returns a code.
pub data Windows (A : Type 0) : Type 0 where
  succeeded : A → Windows A
  failed : ℕ → Windows A

-- `WindowsMessage`.
unfoldable pub windows_message : String → ℕ → Bytes
windows_message operation code =
    codes operation ++ (codes " failed with Windows error " ++ decimal code)

-- `throw Error(ErrorCode::transport, WindowsMessage(operation));`
unfoldable pub in_windows : {A : Type 0} → String → Windows A → Result A
in_windows operation (succeeded a) = ok a
in_windows operation (failed code) =
    throw (plain_error ErrorCode.transport (windows_message operation code))

-- `connections_`, as pairs; and how often `WinHttpConnect` was called.
pub record Connections : Type 0 where
  pub connections : List (Wide × Handle)
  pub attempts : ℕ

abbrev pub no_connections : Connections
no_connections = record { connections = []; attempts = 0 }

unfoldable pub find_connection : Wide → List (Wide × Handle) → Option Handle
find_connection key [] = none
find_connection key ((other, handle) ∷ rest) =
    if equal other key then some handle else find_connection key rest

-- `host + L":" + std::to_wstring(port)`.
unfoldable pub connection_key : Wide → ℕ → Wide
connection_key host port = host ++ (b':' ∷ decimal port)

-- The rest of a call on what `Connection` returned.
unfoldable pub after :
    {A : Type 0} → (Handle → Result A) → Result Handle × Connections → Result A × Connections
after rest (ok handle, later) = (rest handle, later)
after rest (throw error, later) = (throw error, later)
after rest (undefined, later) = (undefined, later)

module _ (connect : ℕ → Wide → ℕ → Windows Handle) where
  -- What a call of `WinHttpConnect` leaves.
  unfoldable pub connected : Wide → Connections → Windows Handle → Result Handle × Connections
  connected key before (succeeded handle) = (
    ok handle,
    record { connections = (key, handle) ∷ before.connections; attempts = before.attempts + 1 },
  )
  connected key before (failed code) =
      (in_windows "WinHttpConnect" (failed code), record before { attempts = before.attempts + 1 })

  -- `Connection`, where nothing was found or something was.
  unfoldable pub found_or_made :
      Wide → ℕ → Connections → Option Handle → Result Handle × Connections
  found_or_made host port before (some handle) = (ok handle, before)
  found_or_made host port before none =
      connected (connection_key host port) before (connect before.attempts host port)

  -- `Connection`. `connect` is given how often it was called before.
  unfoldable pub connection : Wide → ℕ → Connections → Result Handle × Connections
  connection host port before =
      found_or_made host port before (find_connection (connection_key host port) before.connections)
