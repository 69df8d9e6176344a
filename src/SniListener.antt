-- ===== src/SniListener.antt =====
-- snitun/server/listener_sni.py: `SNIProxy.handle_connection`, where no read raises or times out.
pub mod Proxy
pub mod Safe
use snitun.Prelude.{ℕ, Bool, Option, none, some, List, [], ◌∷◌, if◌then◌else◌}
use snitun.Exceptions.{
  ◌>>=◌, Result, ok, err, assertion_error, runtime_error, catches_parse_sni, catches_parse_proxy,
}
use snitun.Bytes.{Bytes, Text}
use snitun.IpAddress.{IpAddress}
use snitun.Sni.{parse_tls_sni, payload_reader}
use snitun.ProxyProtocol.{ProxyProtocolHeader, Answer, read_proxy_protocol_header}
use snitun.PeerManager.{PeerManager, Store, get_peer, peer_available}

-- What becomes of the connection: its writer is closed, or it is proxied to a peer, with the bytes
-- that were read and the address of the client.
pub data Fate : Type 0 where
  refused : Fate
  proxied : ℕ → Bytes → IpAddress → Fate

-- The arguments of `handle_connection`, and the address of the socket's peer, if it can be read.
pub record Arrival : Type 0 where
  pub pre_read : Option Bytes
  pub sni : Option Text
  pub peer_address : Option IpAddress
  pub peername : Option IpAddress
  pub chunks : List Bytes

unfoldable pub source_or : Option ProxyProtocolHeader → Option IpAddress → Option IpAddress
source_or none address = address
source_or (some h) address = go h.source
  where
    go : Option IpAddress → Option IpAddress
    go none = address
    go (some source) = some source

-- The header's part: the data before the ClientHello's rest, or none where the header is refused.
unfoldable pub header_read : Arrival → Option Answer → Result (Option Arrival)
header_read a none = err runtime_error
header_read a (some (ok (h, left, rest))) = ok (
    some
      (record a { pre_read = some left; peer_address = source_or h a.peer_address; chunks = rest }))
header_read a (some (err e)) = if catches_parse_proxy e then ok none else err e

-- `data or b""`
abbrev pub initial_of : Arrival → Bytes
initial_of a = go a.pre_read
  where
    go : Option Bytes → Bytes
    go none = []
    go (some bs) = bs

unfoldable pub strip_header : Bool → Arrival → Result (Option Arrival)
strip_header proxy_protocol a = go a.pre_read
  where
    go : Option Bytes → Result (Option Arrival)
    go (some bs) = ok (some a)
    go none =
        if proxy_protocol then header_read a (read_proxy_protocol_header a.chunks) else ok (some a)

-- `_proxy_peer` up to the handler: the address is the one that is given, or the socket's.
unfoldable pub proxy_peer : Arrival → Bytes → ℕ → Fate
proxy_peer a client_hello peer = go a.peer_address a.peername
  where
    go : Option IpAddress → Option IpAddress → Fate
    go (some address) name = proxied peer client_hello address
    go none (some address) = proxied peer client_hello address
    go none none = refused

module _ (store : Store) (manager : PeerManager) where
  unfoldable pub to_peer : Arrival → Bytes → Option ℕ → Result Fate
  to_peer a client_hello none = err assertion_error
  to_peer a client_hello (some peer) = ok (proxy_peer a client_hello peer)

  -- "Peer available?"
  unfoldable pub find_peer : Arrival → Bytes → Text → Result Fate
  find_peer a client_hello hostname =
      let found = to_peer a client_hello (get_peer hostname manager) in
      if peer_available store hostname manager then found else ok refused

  unfoldable pub named : Arrival → Bytes → Result Text → Result Fate
  named a client_hello (ok hostname) = find_peer a client_hello hostname
  named a client_hello (err e) = if catches_parse_sni e then ok refused else err e

  -- "Read Hostname"
  unfoldable pub read_hostname : Arrival → Bytes → Option Text → Result Fate
  read_hostname a client_hello none = named a client_hello (parse_tls_sni client_hello)
  read_hostname a client_hello (some hostname) = find_peer a client_hello hostname

  -- `if not client_hello`
  unfoldable pub hello_read : Arrival → Option Bytes → Result Fate
  hello_read a none = ok refused
  hello_read a (some []) = ok refused
  hello_read a (some (b ∷ bs)) = read_hostname a (b ∷ bs) a.sni

  unfoldable pub stripped : Option Arrival → Result Fate
  stripped none = ok refused
  stripped (some a) = payload_reader (initial_of a) a.chunks >>= hello_read a

  unfoldable pub handle_connection : Bool → Arrival → Result Fate
  handle_connection proxy_protocol a = strip_header proxy_protocol a >>= stripped
