-- ===== src/Examples/Server.antt =====
-- The server's parts at concrete inputs.
use snitun.Prelude.{
  zero, suc, ℕ, ◌≡◌, ◌≢◌, refl, Bool, true, false, ◌&&◌, none, some, List, [], ◌∷◌, ◌++◌, arith,
  if◌then◌else◌, replicate, take, join,
}
use snitun.Exceptions.{ok, err, parse_proxy_protocol_incomplete_error, index_error}
use snitun.Bytes.{Bytes, Text, decode_utf8, IsBytes, starts_with}
use snitun.Sni.{parse_tls_sni, payload_reader}
use snitun.Sni.Total.{Parsed, IsShort, parse_tls_sni-Parsed, parse_tls_sni-empty_record}
use snitun.Sni.Hello.{ClientHello, hello_bytes, parse_tls_sni-hello_bytes}
use snitun.Sni.Reader.{Given, payload_reader-Given}
use snitun.ProxyProtocol.{parse_proxy_protocol_header, read_proxy_protocol_header}
use snitun.ProxyProtocol.Stable.{parse_proxy_protocol_header-append}
use snitun.ProxyProtocol.Verdict.{Verdict, parse_proxy_protocol_header-Verdict}
use snitun.ProxyProtocol.Stream.{Outcome, read_proxy_protocol_header-Outcome}
use snitun.Dict.{insert}
use snitun.Dispatcher.{new_connection, Loop, turn, accepted, serve_all, serve, sweep, swept}
use snitun.Dispatcher.Settled.{Settled}
use snitun.Dispatcher.Sweep.{IsLoop, turn-IsLoop}
use snitun.PeerManager.{Peer, PeerManager, all_hostnames, get_peer, add_peer, remove_peer, is_peer}
use snitun.IpAddress.{v4}
use snitun.SniListener.{Arrival, handle_connection}
use snitun.SniListener.Safe.{IsArrival, Handled, handle_connection-Handled}
use snitun.RangedTimeout.{new, reschedule_all, time_after}
use snitun.RangedTimeout.Window.{IsWithin, reschedule_all-IsWithin}
use snitun.Worker.{Worker, adds, removes, run, is_responsible_peer}
use snitun.Worker.Sync.{InSync, run-InSync}
use snitun.PeerManager.Names.{
  among, get_peer-add_peer, get_peer-remove_peer, remove_peer-stale_alias,
}

-- A name that is "ab", among other fields.
abbrev hello : ClientHello
hello = record {
  major = 0;
  minor = 1;
  fixed = replicate 37 0;
  session = 1 ∷ 2 ∷ [];
  suites = 3 ∷ 4 ∷ [];
  methods = 0 ∷ [];
  others = record { type_high = 0; type_low = 23; content = []; foreign = refl } ∷ [];
  names = [];
  hostname = 97 ∷ 98 ∷ [];
  more_names = [];
  more_extensions = 0 ∷ [];
}

parse_tls_sni-hello_bytes_example : parse_tls_sni (hello_bytes hello) ≡ ok (97 ∷ 98 ∷ [])
unfolding decode_utf8
parse_tls_sni-hello_bytes_example =
    parse_tls_sni-hello_bytes hello (97 ∷ 98 ∷ [])
      (record { fixed = refl; hostname = omega arith; decoded = refl })

abbrev short : Bytes
short = 0x16 ∷ 3 ∷ 1 ∷ 0 ∷ 9 ∷ 1 ∷ []

parse_tls_sni-Parsed_example : Parsed (IsShort short) (parse_tls_sni short)
parse_tls_sni-Parsed_example = parse_tls_sni-Parsed short (omega arith)

abbrev fragments : List Bytes
fragments = (3 ∷ 1 ∷ []) ∷ (0 ∷ 1 ∷ 1 ∷ []) ∷ []

fragments-IsBytes : IsBytes ((0x16 ∷ []) ++ join fragments)
fragments-IsBytes = omega arith

parse_tls_sni-empty_record_example : parse_tls_sni (0x16 ∷ 3 ∷ 1 ∷ 0 ∷ 0 ∷ []) ≡ err index_error
parse_tls_sni-empty_record_example = parse_tls_sni-empty_record 0 1

payload_reader-Given_example : Given (0x16 ∷ []) fragments (payload_reader (0x16 ∷ []) fragments)
payload_reader-Given_example = payload_reader-Given (0x16 ∷ []) fragments fragments-IsBytes

abbrev request : Bytes
request = 71 ∷ 69 ∷ 84 ∷ []

request_decided : parse_proxy_protocol_header request ≢ err parse_proxy_protocol_incomplete_error
unfolding parse_proxy_protocol_header starts_with
request_decided e = cc

parse_proxy_protocol_header-append_example :
    parse_proxy_protocol_header (request ++ request) ≡ parse_proxy_protocol_header request
parse_proxy_protocol_header-append_example =
    parse_proxy_protocol_header-append request request request_decided

parse_proxy_protocol_header-Verdict_example : Verdict request (parse_proxy_protocol_header request)
parse_proxy_protocol_header-Verdict_example = parse_proxy_protocol_header-Verdict request

-- "PROXY UNKNOWN" and its end in two chunks, with a payload behind it.
abbrev chunks : List Bytes
chunks =
    (80 ∷ 82 ∷ 79 ∷ 88 ∷ 89 ∷ 32 ∷ 85 ∷ 78 ∷ 75 ∷ [])
    ∷ (78 ∷ 79 ∷ 87 ∷ 78 ∷ 13 ∷ 10 ∷ 22 ∷ 3 ∷ [])
    ∷ []

abbrev sent : Bytes
sent = 80 ∷ 82 ∷ 79 ∷ 88 ∷ 89 ∷ 32 ∷ 85 ∷ 78 ∷ 75 ∷ 78 ∷ 79 ∷ 87 ∷ 78 ∷ 13 ∷ 10 ∷ 22 ∷ 3 ∷ []

read_proxy_protocol_header-Outcome_example :
    Outcome sent (parse_proxy_protocol_header (take 1500 sent)) (read_proxy_protocol_header chunks)
read_proxy_protocol_header-Outcome_example = read_proxy_protocol_header-Outcome chunks (omega arith)

abbrev workers : List (Text → Bool)
workers = (λ hostname. false) ∷ []

abbrev one_client : Loop
one_client = record { connections = (4, new_connection) ∷ []; turns = 0; done = [] }

abbrev two_clients : Loop
two_clients = record {
  connections =
      (4, record new_connection { stale = 1 }) ∷ (6, record new_connection { stale = 1 }) ∷ [];
  turns = 0;
  done = [];
}

one_client-IsLoop : IsLoop one_client
one_client-IsLoop = ((refl, omega arith), tt)

turn-IsLoop_example : IsLoop two_clients
unfolding turn serve_all serve sweep swept insert
turn-IsLoop_example =
    turn-IsLoop workers true one_client two_clients (accepted 6 ∷ []) one_client-IsLoop refl

-- Two connections under the name "h", the first with the alias "x".
abbrev store : ℕ → Peer
store zero = record {
  hostname = 104 ∷ [];
  alias_names = (104 ∷ 120 ∷ []) ∷ [];
  multiplexer = some true;
}
store (suc _) = record { hostname = 104 ∷ []; alias_names = []; multiplexer = some true }

abbrev manager : PeerManager
manager = record { peers = []; event_callback = true; effects = [] }

get_peer-add_peer_example : get_peer (104 ∷ 120 ∷ []) (add_peer store 0 manager) ≡ (
    if among (104 ∷ 120 ∷ []) (all_hostnames (store 0))
    then some 0
    else get_peer (104 ∷ 120 ∷ []) manager)
get_peer-add_peer_example = get_peer-add_peer store 0 (104 ∷ 120 ∷ []) manager

get_peer-remove_peer_example :
    get_peer (104 ∷ 120 ∷ []) (remove_peer store 0 (add_peer store 0 manager)) ≡ (
      if is_peer (get_peer (104 ∷ []) (add_peer store 0 manager)) 0
        && among (104 ∷ 120 ∷ []) (all_hostnames (store 0))
      then none
      else get_peer (104 ∷ 120 ∷ []) (add_peer store 0 manager))
get_peer-remove_peer_example =
    get_peer-remove_peer store 0 (104 ∷ 120 ∷ []) (add_peer store 0 manager)

remove_peer-stale_alias_example :
    get_peer
      (104 ∷ 120 ∷ [])
      (remove_peer store 1 (remove_peer store 0 (add_peer store 1 (add_peer store 0 manager))))
    ≡ some 0
remove_peer-stale_alias_example =
    remove_peer-stale_alias store 0 1 (104 ∷ 120 ∷ []) manager refl refl refl (λ e. cc) refl

-- The ClientHello's first bytes behind a header without an address.
abbrev arrival : Arrival
arrival = record {
  pre_read = none;
  sni = none;
  peer_address = none;
  peername = some (v4 1);
  chunks = chunks;
}

arrival-IsArrival : IsArrival arrival
arrival-IsArrival = omega arith

handle_connection-Handled_example :
    Handled store manager (handle_connection store manager true arrival)
handle_connection-Handled_example =
    handle_connection-Handled store manager true arrival arrival-IsArrival

reschedule_all-IsWithin_example :
    IsWithin 90 120
      (time_after 1000 (5 ∷ 40 ∷ []))
      (reschedule_all 1000 (5 ∷ 40 ∷ []) (new 90 120 1000))
reschedule_all-IsWithin_example = reschedule_all-IsWithin 90 120 1000 (5 ∷ 40 ∷ []) (omega arith)

abbrev idle_worker : Worker
idle_worker = record { sync = []; ups = 0; downs = 0 }

run-InSync_example : InSync (run store (adds 0 ∷ adds 1 ∷ removes 0 ∷ []) (manager, idle_worker))
unfolding is_responsible_peer
run-InSync_example =
    run-InSync store (adds 0 ∷ adds 1 ∷ removes 0 ∷ []) manager idle_worker (refl, λ name. refl)
