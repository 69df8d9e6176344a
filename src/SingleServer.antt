-- ===== src/SingleServer.antt =====
-- snitun/server/run.py: the handler of `SniTunServerSingle`, which tells the clients of a port from its
-- peers. What the socket gives is a list of chunks; a read that fails ends the list with an exception.
pub mod Dispatched
use snitun.Prelude.{
  ℕ, zero, suc, Bool, true, false, Option, none, some, List, [], ◌∷◌, ◌++◌, if◌then◌else◌, length,
  drop, ◌==◌, join,
}
use snitun.Exceptions.{
  Result, ok, err, timeout_error, os_error, parse_proxy_protocol_error,
  parse_proxy_protocol_incomplete_error,
}
use snitun.Bytes.{Bytes, starts_with}
use snitun.IpAddress.{IpAddress}
use snitun.ProxyProtocol.{ProxyProtocolHeader, parse_proxy_protocol_header, read}
use snitun.Dispatcher.{token_prefix}

-- The `n` of `reader.read(n)`.
abbrev pub read_size : ℕ
read_size = 2048

-- The payload with the client's address, if a header named it, and what the stream still holds.
pub record Received : Type 0 where
  pub payload : Bytes
  pub peer_address : Option IpAddress
  pub rest : List Bytes

-- What is known after a header: the payload may have to be fetched.
after_header : ProxyProtocolHeader → Bytes → List Bytes → Received
after_header h [] chunks =
    let (payload, rest) = read read_size chunks in
    record { payload = payload; peer_address = h.source; rest = rest }
after_header h (b ∷ bs) chunks = record { payload = b ∷ bs; peer_address = h.source; rest = chunks }

-- "Connection closed during PROXY protocol header", or the next round.
read_more :
    Bytes
    → (Bytes → List Bytes → Option (Result Received))
    → Bytes × List Bytes
    → Option (Result Received)
read_more payload again ([], rest) = some (err parse_proxy_protocol_error)
read_more payload again (b ∷ bs, rest) = again (payload ++ b ∷ bs) rest

-- One round of the loop, with the rounds that may follow as an argument.
strip_round :
    Bytes
    → List Bytes
    → (Bytes → List Bytes → Option (Result Received))
    → Result (Option ProxyProtocolHeader)
    → Option (Result Received)
unfolding after_header read_more
strip_round payload chunks again (ok none) =
    some (ok (record { payload = payload; peer_address = none; rest = chunks }))
strip_round payload chunks again (ok (some h)) =
    some (ok (after_header h (drop h.size payload) chunks))
strip_round payload chunks again (err parse_proxy_protocol_incomplete_error) =
    read_more payload again (read read_size chunks)
strip_round payload chunks again (err e) = some (err e)

-- `none` says that the fuel ran out.
strip_loop : ℕ → Bytes → List Bytes → Option (Result Received)
unfolding strip_round
strip_loop zero payload chunks = none
strip_loop (suc fuel) payload chunks =
    strip_round payload chunks (strip_loop fuel) (parse_proxy_protocol_header payload)

-- `_strip_proxy_protocol`: a round that goes on reads a byte of the stream at least.
unfoldable pub strip_proxy_protocol : Bytes → List Bytes → Option (Result Received)
unfolding strip_loop
strip_proxy_protocol payload chunks = strip_loop (suc (length (join chunks))) payload chunks

-- What becomes of the connection: its writer is closed or not, or a task has it.
pub data Fate : Type 0 where
  closed : Fate
  left_open : Fate
  sni_proxy : (payload : Bytes) (peer_address : Option IpAddress) (rest : List Bytes) → Fate
  peer_listener : (payload : Bytes) (rest : List Bytes) → Fate

-- "Select the correct handler for process data"
unfoldable pub select : Received → Fate
select r = go r.payload
  where
    go : Bytes → Fate
    go [] = closed
    go (b ∷ bs) =
        if b == 0x16
        then sni_proxy (b ∷ bs) r.peer_address r.rest
        else if starts_with (b ∷ bs) token_prefix
        then peer_listener (b ∷ bs) r.rest
        else closed

-- The `except` clauses, and what follows.
unfoldable pub settle : Result Received → Result Fate
unfolding select
settle (ok r) = ok (select r)
settle (err timeout_error) = ok closed
settle (err parse_proxy_protocol_error) = ok closed
settle (err parse_proxy_protocol_incomplete_error) = ok closed
settle (err os_error) = ok left_open
settle (err e) = err e

unfoldable pub receive : Bool → Bytes → List Bytes → Option (Result Received)
receive true payload chunks = strip_proxy_protocol payload chunks
receive false payload chunks =
    some (ok (record { payload = payload; peer_address = none; rest = chunks }))

settled : Option (Result Received) → Option (Result Fate)
unfolding settle
settled none = none
settled (some r) = some (settle r)

received : Bool → Bytes × List Bytes → Option (Result Received)
unfolding receive
received proxy_protocol (payload, rest) = receive proxy_protocol payload rest

-- `_handler`, where no read raises or times out: `proxy_protocol` is the server's option.
unfoldable pub handler : Bool → List Bytes → Option (Result Fate)
unfolding received settled
handler proxy_protocol chunks = settled (received proxy_protocol (read read_size chunks))
