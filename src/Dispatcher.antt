-- ===== src/Dispatcher.antt =====
-- snitun/server/run.py: `Connection`, and what the thread of `SniTunServerWorker` does with one.
pub mod Listen
pub mod Settled
pub mod Sweep
use snitun.Prelude.{
  nat_eq, ℕ, suc, ◌%◌, Bool, true, false, not, ◌||◌, Option, none, some, List, [], ◌∷◌, ◌++◌, leb,
  ltb, ◌==◌, if◌then◌else◌, length, drop,
}
use snitun.Exceptions.{
  Result, ok, err, ◌>>=◌, parse_sni_incomplete_error, parse_proxy_protocol_incomplete_error,
  catches_parse_sni, catches_parse_proxy, or_raise, key_error,
}
use snitun.Bytes.{Bytes, Text, starts_with}
use snitun.IpAddress.{IpAddress}
use snitun.Sni.{at, parse_tls_sni, max_buffer_size}
use snitun.ProxyProtocol.{ProxyProtocolHeader, parse_proxy_protocol_header}
use snitun.Dict.{Dict, insert, remove, lookup}

abbrev pub worker_stale_max : ℕ
worker_stale_max = 30

-- `b"gA"`, with which the token of a peer starts.
abbrev pub token_prefix : Bytes
token_prefix = 103 ∷ 65 ∷ []

pub record Connection : Type 0 where
  pub buffer : Bytes
  pub stale : ℕ
  pub close : Bool
  pub proxy_done : Bool
  pub peer_address : Option IpAddress

-- `Connection(con, self._poller)`
abbrev pub new_connection : Connection
new_connection = record {
  buffer = [];
  stale = 0;
  close = false;
  proxy_done = false;
  peer_address = none;
}

-- What is done with the socket: `epoll.unregister`, `close_socket` with its shutdown or without, and
-- `handover_connection` to the worker of an index.
pub data Action : Type 0 where
  unregister : Action
  close_socket : Bool → Action
  handover : ℕ → Bytes → Option Text → Option IpAddress → Action

-- The connection, the actions, and how many workers the cycle has given so far.
pub record Step : Type 0 where
  pub client : Connection
  pub actions : List Action
  pub turns : ℕ

abbrev pub step : Connection → List Action → ℕ → Step
step client actions turns = record { client = client; actions = actions; turns = turns }

abbrev pub soft_closed : Connection → Connection
soft_closed client = record client { close = true }

-- `client.close_socket(shutdown)`
abbrev pub closed : Bool → Connection → ℕ → Step
closed shutdown client turns =
    step (soft_closed client) (unregister ∷ close_socket shutdown ∷ []) turns

abbrev pub is_nonempty : Bytes → Bool
is_nonempty bs = ltb 0 (length bs)

-- `_strip_proxy_protocol`: whether to go on, with the state after it.
unfoldable pub strip_parsed :
    Connection → ℕ → Result (Option ProxyProtocolHeader) → Result (Step × Bool)
strip_parsed client turns (ok none) =
    ok (step (record client { proxy_done = true }) [] turns, is_nonempty client.buffer)
strip_parsed client turns (ok (some h)) = ok (
  step
      (record client {
        proxy_done = true;
        buffer = drop h.size client.buffer;
        peer_address = h.source;
      })
      [] turns,
  is_nonempty (drop h.size client.buffer),
)
strip_parsed client turns (err parse_proxy_protocol_incomplete_error) =
    if leb max_buffer_size (length client.buffer)
    then ok (closed true client turns, false)
    else ok (step client [] turns, false)
strip_parsed client turns (err e) =
    if catches_parse_proxy e then ok (closed true client turns, false) else err e

unfoldable pub strip_proxy_protocol : Bool → Connection → ℕ → Result (Step × Bool)
strip_proxy_protocol proxy_protocol client turns =
    if not proxy_protocol || client.proxy_done
    then ok (step client [] turns, true)
    else strip_parsed client turns (parse_proxy_protocol_header client.buffer)

-- The first worker that is responsible, by its `is_responsible_peer`.
unfoldable pub responsible : List (Text → Bool) → Text → ℕ → Option ℕ
responsible [] hostname i = none
responsible (worker ∷ workers) hostname i =
    if worker hostname then some i else responsible workers hostname (suc i)

module _ (workers : List (Text → Bool)) where
  -- "Distribute to child worker"
  unfoldable pub distribute : Connection → ℕ → Text → Option ℕ → Step
  distribute client turns hostname (some i) =
      step (soft_closed client)
        (unregister ∷ handover i client.buffer (some hostname) client.peer_address ∷ []) turns
  distribute client turns hostname none = closed true client turns

  -- What follows `parse_tls_sni`.
  unfoldable pub route : Connection → ℕ → Result Text → Result Step
  route client turns (ok hostname) =
      ok (distribute client turns hostname (responsible workers hostname 0))
  route client turns (err parse_sni_incomplete_error) =
      if leb max_buffer_size (length client.buffer)
      then ok (closed true client turns)
      else ok (step client [] turns)
  route client turns (err e) = if catches_parse_sni e then ok (closed true client turns) else err e

  -- From the check for a peer's token on; the cycle's next worker takes the peer.
  unfoldable pub select : Connection → ℕ → Result Step
  select client turns =
      let tls = (do
        content_type ← at client.buffer 0
        if content_type == 0x16
            then route client turns (parse_tls_sni client.buffer)
            else ok (closed true client turns)) in
      if starts_with client.buffer token_prefix
      then ok (
          step (soft_closed client)
            (unregister ∷ handover (turns % length workers) client.buffer none none ∷ [])
            (suc turns))
      else tls

  unfoldable pub select_if : Step × Bool → Result Step
  select_if (stripped, true) = select stripped.client stripped.turns
  select_if (stripped, false) = ok stripped

  -- `_process`, by what `recv` gives: none for an OSError, no bytes at the end.
  unfoldable pub process : Bool → Connection → ℕ → Option Bytes → Result Step
  process proxy_protocol client turns none = ok (closed false client turns)
  process proxy_protocol client turns (some []) = ok (closed true client turns)
  process proxy_protocol client turns (some (b ∷ bs)) =
      strip_proxy_protocol proxy_protocol (record client { buffer = client.buffer ++ (b ∷ bs) })
        turns
      >>= select_if

-- The state of `run`'s loop: the connections by their file, the cycle, and what was done to sockets.
pub record Loop : Type 0 where
  pub connections : Dict ℕ Connection
  pub turns : ℕ
  pub done : List (ℕ × Action)

-- The events of `poll`: a new connection, data or its end, and HUP or ERR.
pub data Event : Type 0 where
  accepted : ℕ → Event
  accept_failed : Event
  readable : ℕ → Option Bytes → Event
  hung_up : ℕ → Event

unfoldable pub tagged : ℕ → List Action → List (ℕ × Action)
tagged fileno [] = []
tagged fileno (a ∷ actions) = (fileno, a) ∷ tagged fileno actions

-- `connections.pop(fileno)` where the connection is done with.
unfoldable pub keep_open : ℕ → Connection → Dict ℕ Connection → Dict ℕ Connection
keep_open fileno client connections =
    if client.close then remove fileno connections else insert fileno client connections

unfoldable pub serve_data : ℕ → Loop → Result Step → Result Loop
unfolding keep_open
serve_data fileno l (err e) = err e
serve_data fileno l (ok st) = ok (record {
  connections = keep_open fileno st.client l.connections;
  turns = st.turns;
  done = l.done ++ tagged fileno st.actions;
})

-- An event of `run`'s loop.
unfoldable pub serve : List (Text → Bool) → Bool → Loop → Event → Result Loop
serve workers proxy_protocol l (accepted fileno) =
    ok (record l { connections = insert fileno new_connection l.connections })
serve workers proxy_protocol l accept_failed = ok l
serve workers proxy_protocol l (readable fileno received) = do
  client ← or_raise (lookup fileno l.connections) key_error
  serve_data fileno l
      (process workers proxy_protocol (record client { stale = 0 }) l.turns received)
serve workers proxy_protocol l (hung_up fileno) = do
  client ← or_raise (lookup fileno l.connections) key_error
  ok (record l {
    connections = remove fileno l.connections;
    done = l.done ++ tagged fileno (unregister ∷ close_socket false ∷ []);
  })

unfoldable pub serve_all : List (Text → Bool) → Bool → Loop → List Event → Result Loop
serve_all workers proxy_protocol l [] = ok l
serve_all workers proxy_protocol l (e ∷ es) = do
  served ← serve workers proxy_protocol l e
  serve_all workers proxy_protocol served es

-- "cleanup stale connection"
unfoldable pub sweep : Dict ℕ Connection → Dict ℕ Connection
sweep [] = []
sweep ((fileno, client) ∷ connections) =
    let rest = sweep connections in
    if leb worker_stale_max client.stale
    then rest
    else (fileno, record client { stale = suc client.stale }) ∷ rest

-- What the cleanup does with sockets.
unfoldable pub swept : Dict ℕ Connection → List (ℕ × Action)
swept [] = []
swept ((fileno, client) ∷ connections) =
    let rest = swept connections in
    if leb worker_stale_max client.stale
    then (fileno, unregister) ∷ (fileno, close_socket true) ∷ rest
    else rest

-- A round of `run`'s loop, on the events that `poll` gives.
unfoldable pub turn : List (Text → Bool) → Bool → Loop → List Event → Result Loop
turn workers proxy_protocol l es = do
  served ← serve_all workers proxy_protocol l es
  ok (record served {
    connections = sweep served.connections;
    done = served.done ++ swept served.connections;
  })
