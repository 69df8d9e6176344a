-- ===== src/SingleServer/Dispatched.antt =====
-- The handler of `SniTunServerSingle` (snitun/server/run.py), for every way in which the data arrives.
use snitun.Prelude.{
  join, ℕ, ◌≡◌, Option, none, some, List, [], ◌∷◌, ◌++◌, drop, All, Bool, true, false,
}
use snitun.Exceptions.{Result, ok, err, parse_proxy_protocol_error}
use snitun.Bytes.{Bytes}
use snitun.IpAddress.{IpAddress}
use snitun.ProxyProtocol.{ProxyProtocolHeader, parse_proxy_protocol_header}
use snitun.ProxyProtocol.Verdict.{Verdict}
use snitun.ProxyProtocol.Stream.{IsChunk, size_of}
use snitun.SingleServer.{Received, strip_loop, Fate, closed, select}

abbrev pub source_of : Option ProxyProtocolHeader → Option IpAddress
source_of none = none
source_of (some h) = h.source

-- The payload that is handed on is the start of these bytes, and there is none only if they are none.
pub record Holds (remaining : Bytes) (peer_address : Option IpAddress) (r : Received) : Type 0 where
  pub whole : r.payload ++ join r.rest ≡ remaining
  pub started : r.payload ≡ [] → remaining ≡ []
  pub address : r.peer_address ≡ peer_address

-- What the stripping gives for the bytes of the stream, by what the parser says of them all.
abbrev pub Strips : Bytes → Result (Option ProxyProtocolHeader) → Option (Result Received) → Type 0
Strips sent (ok h) result =
    (r : Received) × (result ≡ some (ok r)) × Holds (drop (size_of h) sent) (source_of h) r
Strips sent (err e) result = result ≡ some (err parse_proxy_protocol_error)

module _ (k : ℕ) (payload : Bytes) (chunks : List Bytes) (started : payload ≡ [] → chunks ≡ [])
    (cs : All IsChunk chunks) where
  -- What is to be shown of the next round.
  abbrev Next : Type 0
  Next =
      (b : ℕ) (bs : Bytes) (rest : List Bytes)
      → (b ∷ bs) ++ join rest ≡ join chunks
      → All IsChunk rest
      → Strips (payload ++ join chunks) (parse_proxy_protocol_header (payload ++ join chunks))
          (strip_loop k (payload ++ b ∷ bs) rest)

-- The parser's answer where the server looks for a header, and no header where it does not.
abbrev pub expected : Bool → Bytes → Result (Option ProxyProtocolHeader)
expected true sent = parse_proxy_protocol_header sent
expected false sent = ok none

-- The connection is closed where the header is refused or nothing follows it; else the handler is
-- selected by the start of what follows, and has all of it, with the address of the header.
abbrev pub Dispatches : Bytes → Result (Option ProxyProtocolHeader) → Option (Result Fate) → Type 0
Dispatches sent (err e) result = result ≡ some (ok closed)
Dispatches sent (ok h) result =
    (r : Received) × (result ≡ some (ok (select r))) × Holds (drop (size_of h) sent) (source_of h) r
