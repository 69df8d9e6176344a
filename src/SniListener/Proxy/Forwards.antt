-- ===== src/SniListener/Proxy/Forwards.antt =====
-- What a session of `ProxyPeerHandler` (snitun/server/listener_sni.py) reads is what it writes.
use snitun.Prelude.{◌≡◌, false}
use snitun.Bytes.{Bytes}
use snitun.Channel
use snitun.RangedTimeout
use snitun.SniListener.Proxy.{Session}
use snitun.SniListener.Proxy.Outward.{Sent}

-- What holds beside the client's writer, while `start` waits.
record Behind (s : Session) : Type 0 where
  outward : Sent s.proxy s.sent s.read s.deleted
  inward : s.written ≡ s.received
  live : s.over ≡ false
