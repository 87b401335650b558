-- ===== src/WinHttp/Runs.antt =====
-- Concrete requests over WinHTTP, and the theorems there.
use livekit_server_cpp.Common.Int.{pos}
use livekit_server_cpp.Common.{arith, ℕ, ◌+◌, ◌≡◌, refl, some, List, [], ◌∷◌, Bytes, codes}
use livekit_server_cpp.Common.Decimal.{decimal}
use livekit_server_cpp.Common.Lists.{equal}
use livekit_server_cpp.Error.{ok}
use livekit_server_cpp.Http.{HttpRequest, HttpResponse}
use livekit_server_cpp.WinHttp.Connection.{
  Wide, Handle, Windows, succeeded, failed, find_connection, connection_key, after, connected,
  found_or_made, connection, in_windows,
}
use livekit_server_cpp.WinHttp.Own.{IsTo, win_http_transport-IsTo}
use livekit_server_cpp.WinHttp.Wire.{full_rounds, last, all_read, read_body_lem}
use livekit_server_cpp.WinHttp.{
  WinHttp, Components, Scheme, timeout_of, narrow_headers, is_other, resize, write_at, read_body,
  utf8_to_wide, crack, send_over, send_cracked, win_http_send, connections_after,
  win_http_transport,
}

abbrev connect : ℕ → Wide → ℕ → Windows Handle
connect attempt host port = succeeded (10 + attempt)

abbrev pieces : List (ℕ × Bytes)
pieces = (4, codes "he") ∷ (2, codes "llo") ∷ []

abbrev windows : List HttpRequest → WinHttp
windows sent = record {
  to_wide = λ value. some value;
  crack_url = λ url size. succeeded (record {
    scheme = Scheme.https;
    host = codes "host";
    port = 443;
    path = codes "/twirp";
    extra = [];
  });
  open_request = λ connection method path secure. succeeded connection;
  set_timeouts = λ handle timeout. succeeded tt;
  send_request = λ handle headers size body total. succeeded tt;
  receive_response = λ handle. succeeded tt;
  query_status = λ handle. succeeded 200;
  rounds = λ handle. full_rounds pieces (last (failed 5) ∷ []);
}

abbrev a_request : HttpRequest
a_request = record {
  url = codes "https://host/twirp";
  method = codes "POST";
  headers = (codes "Accept", codes "x/y") ∷ [];
  body = codes "body";
  timeout = pos 5;
}

abbrev a_response : HttpResponse
a_response = record { status_code = pos 200; headers = []; body = codes "hello" }

answered : win_http_transport connect windows (a_request ∷ []) a_request ≡ ok a_response
unfolding win_http_transport win_http_send send_cracked crack utf8_to_wide is_other send_over
    narrow_headers timeout_of resize write_at read_body in_windows connections_after connection
    find_connection connection_key found_or_made connected after equal decimal
answered = refl

-- The second request finds the connection of the first.
kept :
    connections_after connect windows (a_request ∷ a_request ∷ [])
    ≡ record { connections = (codes "host:443", 10) ∷ []; attempts = 1 }
unfolding connections_after win_http_send send_cracked crack utf8_to_wide is_other send_over
    connection find_connection connection_key found_or_made connected after equal decimal
kept = refl

win_http_transport-IsTo_example :
    (components : Components) × (handle : Handle) × (crack (windows (a_request ∷ [])) a_request
      ≡ ok components)
    × IsTo connect components.host components.port handle
    × (send_over (windows (a_request ∷ [])) a_request components handle ≡ ok a_response)
win_http_transport-IsTo_example =
    win_http_transport-IsTo connect windows (a_request ∷ []) a_request a_response answered

read_body_lem_example :
    read_body (full_rounds pieces (last (failed 5) ∷ [])) [] ≡ ok (all_read pieces)
read_body_lem_example = read_body_lem pieces (failed 5) [] (omega arith, (omega arith, tt))
