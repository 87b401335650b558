-- ===== src/WinHttp/Own.antt =====
-- A request goes over a connection to its own server.
use livekit_server_cpp.Common.Lists.{equal, equal_iff}
use livekit_server_cpp.Common.{
  ℕ, ◌≡◌, refl, sym, ◌∙◌, arith, Bool-cases, inl, inr, Option, none, some, List, [], ◌∷◌,
}
use livekit_server_cpp.Error.{Result, ok, throw, undefined}
use livekit_server_cpp.Http.{HttpRequest, HttpResponse}
use livekit_server_cpp.WinHttp.Connection.{
  Wide, Handle, Windows, succeeded, failed, Connections, find_connection, connection_key, after,
  connected, found_or_made, connection, in_windows,
}
use livekit_server_cpp.WinHttp.Key.{connection_key-injective}
use livekit_server_cpp.WinHttp.{
  WinHttp, Components, crack, send_over, send_cracked, win_http_send, connections_after,
  win_http_transport,
}

module _ (connect : ℕ → Wide → ℕ → Windows Handle) where
  -- A handle that Windows returned for a connection to the host and the port.
  pub record IsTo (host : Wide) (port : ℕ) (handle : Handle) : Type 0 where
    pub attempt : ℕ
    pub made : connect attempt host port ≡ succeeded handle

  -- Every connection is kept under the key of a server that it is to.
  pub record IsKept (key : Wide) (handle : Handle) : Type 0 where
    pub host : Wide
    pub port : ℕ
    pub is_key : key ≡ connection_key host port
    pub to : IsTo host port handle

  abbrev pub AllKept : List (Wide × Handle) → Type 0
  AllKept [] = Unit {0}
  AllKept ((key, handle) ∷ rest) = IsKept key handle × AllKept rest

  find_connection-IsTo :
      (host : Wide) (port : ℕ) (pairs : List (Wide × Handle)) (handle : Handle)
      → AllKept pairs
      → find_connection (connection_key host port) pairs ≡ some handle
      → IsTo host port handle
  unfolding find_connection
  find_connection-IsTo host port [] handle kept h = absurd (ground arith)
  find_connection-IsTo host port ((key, found) ∷ pairs) handle (kept, rest) h =
      elim (Bool-cases (equal key (connection_key host port))) [
        | inl e ↦
            let same = (equal_iff key (connection_key host port)).0 e in
            let (hosts, ports) =
              connection_key-injective kept.host host kept.port port (sym (kept.is_key) ∙ same) in
            let handles : found ≡ handle = ground arith in
            record {
              attempt = kept.to.attempt;
              made = rw (← hosts, ← ports, ← handles) (kept.to.made);
            }
        | inr e ↦ find_connection-IsTo host port pairs handle rest (ground arith)
      ]

  -- What `Connection` returns, and what it leaves.
  abbrev Owned : Wide → ℕ → Result Handle × Connections → Type 0
  Owned host port (ok handle, later) = IsTo host port handle × AllKept later.connections
  Owned host port (throw error, later) = AllKept later.connections
  Owned host port (undefined, later) = AllKept later.connections

  connected-Owned :
      (host : Wide) (port : ℕ) (before : Connections) (made : Windows Handle)
      → AllKept before.connections
      → connect before.attempts host port ≡ made
      → Owned host port (connected connect (connection_key host port) before made)
  unfolding connected in_windows
  connected-Owned host port before (succeeded handle) kept e =
      let to : IsTo host port handle = record { attempt = before.attempts; made = e } in
      (to, (record { host = host; port = port; is_key = refl; to = to }, kept))
  connected-Owned host port before (failed code) kept e = kept

  found_or_made-Owned :
      (host : Wide) (port : ℕ) (before : Connections) (found : Option Handle)
      → AllKept before.connections
      → find_connection (connection_key host port) before.connections ≡ found
      → Owned host port (found_or_made connect host port before found)
  unfolding found_or_made
  found_or_made-Owned host port before none kept e =
      connected-Owned host port before (connect before.attempts host port) kept refl
  found_or_made-Owned host port before (some handle) kept e =
      (find_connection-IsTo host port before.connections handle kept e, kept)

  connection-Owned :
      (host : Wide) (port : ℕ) (before : Connections)
      → AllKept before.connections
      → Owned host port (connection connect host port before)
  unfolding connection
  connection-Owned host port before kept = found_or_made-Owned host port before _ kept refl

  -- The end of `Send`, by what `Connection` did.
  after-Owned :
      (host : Wide) (port : ℕ) (rest : Handle → Result HttpResponse)
      (step : Result Handle × Connections)
      → Owned host port step
      → AllKept (after rest step).1.connections
  unfolding after
  after-Owned host port rest (ok handle, later) (to, kept) = kept
  after-Owned host port rest (throw error, later) kept = kept
  after-Owned host port rest (undefined, later) kept = kept

  after-IsTo :
      (host : Wide) (port : ℕ) (rest : Handle → Result HttpResponse)
      (step : Result Handle × Connections) (response : HttpResponse)
      → Owned host port step
      → (after rest step).0 ≡ ok response
      → (handle : Handle) × IsTo host port handle × (rest handle ≡ ok response)
  unfolding after
  after-IsTo host port rest (ok handle, later) response (to, kept) h = (handle, to, h)
  after-IsTo host port rest (throw error, later) response kept h = cc
  after-IsTo host port rest (undefined, later) response kept h = cc

  win_http_send-AllKept :
      (windows : WinHttp) (request : HttpRequest) (before : Connections)
      → AllKept before.connections
      → AllKept (win_http_send connect windows request before).1.connections
  unfolding win_http_send send_cracked
  win_http_send-AllKept windows request before kept = go (crack windows request)
    where
      go :
          (cracked : Result Components)
          → AllKept (send_cracked connect windows request cracked before).1.connections
      go (ok components) =
          after-Owned components.host components.port (send_over windows request components)
            (connection connect components.host components.port before)
            (connection-Owned components.host components.port before kept)
      go (throw error) = kept
      go undefined = kept

  module _ (windows : List HttpRequest → WinHttp) where
    connections_after-AllKept :
        (sent : List HttpRequest) → AllKept (connections_after connect windows sent).connections
    unfolding connections_after
    connections_after-AllKept [] = tt
    connections_after-AllKept (request ∷ sent) =
        win_http_send-AllKept (windows sent) request (connections_after connect windows sent)
          (connections_after-AllKept sent)

    -- Whatever was sent before, a request that is answered went over a connection that Windows
    -- returned for the host and the port of its own URL.
    pub win_http_transport-IsTo :
        (sent : List HttpRequest) (request : HttpRequest) (response : HttpResponse)
        → win_http_transport connect windows sent request ≡ ok response
        → (components : Components) × (handle : Handle) × (crack (windows sent) request
            ≡ ok components)
          × IsTo components.host components.port handle
          × (send_over (windows sent) request components handle ≡ ok response)
    unfolding win_http_transport win_http_send send_cracked
    win_http_transport-IsTo sent request response h = go (crack (windows sent) request) refl h
      where
        before : Connections
        before = connections_after connect windows sent

        go :
            (cracked : Result Components)
            → crack (windows sent) request ≡ cracked
            → (send_cracked connect (windows sent) request cracked before).0 ≡ ok response
            → (components : Components) × (handle : Handle) × (crack (windows sent) request
                ≡ ok components)
              × IsTo components.host components.port handle
              × (send_over (windows sent) request components handle ≡ ok response)
        go (ok components) e k =
            let (handle, to, over) =
              after-IsTo components.host components.port
                (send_over (windows sent) request components)
                (connection connect components.host components.port before) response
                (connection-Owned components.host components.port before
                  (connections_after-AllKept sent))
                k in
            (components, handle, e, to, over)
        go (throw error) e k = cc
        go undefined e k = cc
