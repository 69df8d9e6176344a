-- ===== src/SniListener/Proxy/Outward.antt =====
-- `_proxy_loop` of `ProxyPeerHandler` (snitun/server/listener_sni.py): what is kept of a session.
use snitun.Prelude.{
  ◌≡◌, refl, ap, ◌∙◌, Bool, true, false, List, [], ◌∷◌, ◌++◌, length, ◌≤◌, ℕ, none, append-nil,
  arith, if◌then◌else◌,
}
use snitun.Exceptions.{Exception, Result, ok, err, cancelled_error}
use snitun.Bytes.{Bytes}
use snitun.Channel
use snitun.Queue.Multi.Tasks
use snitun.RangedTimeout.{reschedule}
use snitun.Queue.Multi.Tasks
use snitun.Channel.Reader.{resumed, is_waiting, callbacks}
use snitun.Channel.{WriteState}
use snitun.SniListener.Proxy.{
  Session, ProxyPlace, PeerPlace, end_proxy, proxy_raised, proxy_loop, proxied, client_reads,
  proxy_goes, put_timed_out, proxy_cancelled,
}

-- The channel took what it was to be given, but for one chunk at most: what waits for room, or what was
-- given up when the loop ended, which deleted the channel.
abbrev pub Sent : ProxyPlace → List Bytes → List Bytes → Bool → Type 0
Sent (ProxyPlace.writing greeting bytes task) sent read deleted = sent ++ bytes ∷ [] ≡ read
Sent (ProxyPlace.finished result) sent read deleted =
    (deleted ≡ true) × (rest : List Bytes) × (sent ++ rest ≡ read) × (length rest ≤ 1)
Sent _ sent read deleted = sent ≡ read

abbrev pub IsClosed : PeerPlace → Bool → Type 0
IsClosed (PeerPlace.finished result) closing = closing ≡ true
IsClosed _ closing = Unit {0}

abbrev pub proxy_is_finished : ProxyPlace → Bool
proxy_is_finished (ProxyPlace.finished result) = true
proxy_is_finished _ = false

abbrev pub peer_is_finished : PeerPlace → Bool
peer_is_finished (PeerPlace.finished result) = true
peer_is_finished _ = false

pub record Forwards (s : Session) : Type 0 where
  pub outward : Sent s.proxy s.sent s.read s.deleted
  pub inward : s.written ≡ s.received
  pub closed : IsClosed s.peer s.closing
  pub ended :
      s.over ≡ true
      → (s.timeout.timer ≡ none)
        × (peer_is_finished s.peer ≡ true)
        × (proxy_is_finished s.proxy ≡ true)

-- What holds beside the channel, while `start` waits.
pub record Beside (s : Session) : Type 0 where
  pub inward : s.written ≡ s.received
  pub closed : IsClosed s.peer s.closing
  pub live : s.over ≡ false

pub never : {A : Type 0} {over : Bool} → over ≡ false → over ≡ true → A
never q t = absurd (cc)

end_proxy-Forwards :
    (result : Result (Unit {0})) (s : Session) (rest : List Bytes)
    → Beside s
    → s.sent ++ rest ≡ s.read
    → length rest ≤ 1
    → Forwards (end_proxy result s)
unfolding end_proxy
end_proxy-Forwards result s rest b q n = record {
  outward = (refl, rest, q, n);
  inward = b.inward;
  closed = b.closed;
  ended = never b.live;
}

pub proxy_raised-Forwards :
    (e : Exception) (s : Session) (rest : List Bytes)
    → Beside s
    → s.sent ++ rest ≡ s.read
    → length rest ≤ 1
    → Forwards (proxy_raised e s)
unfolding proxy_raised
proxy_raised-Forwards e s rest b q n = end_proxy-Forwards _ s rest b q n

proxy_loop-Forwards : (s : Session) → Beside s → s.sent ≡ s.read → Forwards (proxy_loop s)
unfolding proxy_loop
proxy_loop-Forwards s b q = go s.link.channel.closing (is_waiting (callbacks s.link.calls none))
  where
    go :
        (closing waiting : Bool)
        → Forwards (
            if closing then end_proxy (ok tt) s else record s {
              proxy =
                  if waiting then ProxyPlace.paused (length s.link.calls) else ProxyPlace.reading;
            })
    go true waiting = end_proxy-Forwards (ok tt) s [] b (append-nil s.sent ∙ q) (omega arith)
    go false true = record {
      outward = q;
      inward = b.inward;
      closed = b.closed;
      ended = never b.live;
    }
    go false false = record {
      outward = q;
      inward = b.inward;
      closed = b.closed;
      ended = never b.live;
    }

pub proxied-Forwards :
    (greeting : Bool) (bytes : Bytes) (now : ℕ) (s : Session) (w : WriteState)
    → Beside s
    → s.sent ++ bytes ∷ [] ≡ s.read
    → Forwards (proxied greeting bytes now s w)
unfolding proxied
proxied-Forwards greeting bytes now s (WriteState.ended (ok _, link)) b q =
    proxy_loop-Forwards
      (record s {
        link = link;
        timeout = if greeting then s.timeout else reschedule now s.timeout;
        sent = s.sent ++ bytes ∷ [];
      })
      (record { inward = b.inward; closed = b.closed; live = b.live }) q
proxied-Forwards greeting bytes now s (WriteState.ended (err e, link)) b q =
    proxy_raised-Forwards e (record s { link = link }) (bytes ∷ [])
      (record { inward = b.inward; closed = b.closed; live = b.live }) q (omega arith)
proxied-Forwards greeting bytes now s (WriteState.suspended link task) b q = record {
  outward = q;
  inward = b.inward;
  closed = b.closed;
  ended = never b.live;
}

-- While one of the two tasks is not at its end, `start` waits.
pub beside : (s : Session) → Forwards s → proxy_is_finished s.proxy ≡ false → Beside s
beside s f n = record { inward = f.inward; closed = f.closed; live = go s.over refl }
  where
    go : (over : Bool) → s.over ≡ over → s.over ≡ false
    go false q = q
    go true q = (let (_, _, h) = f.ended q in absurd (cc))

pub client_reads-Forwards :
    (result : Result Bytes) (now : ℕ) (s : Session) (place : ProxyPlace)
    → s.proxy ≡ place
    → Forwards s
    → Forwards (client_reads result now s place)
unfolding client_reads
client_reads-Forwards (ok bytes) now s ProxyPlace.reading q f =
    let b = beside s f (ap proxy_is_finished q) in
    proxied-Forwards false bytes now (record s { read = s.read ++ bytes ∷ [] })
      (Channel.write s.link bytes) (record { inward = b.inward; closed = b.closed; live = b.live })
      (ap (λ (xs : List Bytes). xs ++ bytes ∷ []) (rw q at f.outward))
client_reads-Forwards (err e) now s ProxyPlace.reading q f =
    proxy_raised-Forwards e s [] (beside s f (ap proxy_is_finished q))
      (append-nil s.sent ∙ (rw q at f.outward)) (omega arith)
client_reads-Forwards (ok bytes) now s (ProxyPlace.paused since) q f = f
client_reads-Forwards (err e) now s (ProxyPlace.paused since) q f = f
client_reads-Forwards (ok bytes) now s (ProxyPlace.writing g b task) q f = f
client_reads-Forwards (err e) now s (ProxyPlace.writing g b task) q f = f
client_reads-Forwards (ok bytes) now s (ProxyPlace.finished r) q f = f
client_reads-Forwards (err e) now s (ProxyPlace.finished r) q f = f

pub proxy_goes-Forwards :
    (now : ℕ) (s : Session) (place : ProxyPlace)
    → s.proxy ≡ place
    → Forwards s
    → Forwards (proxy_goes now s place)
unfolding proxy_goes
proxy_goes-Forwards now s (ProxyPlace.paused since) q f = go (resumed since s.link.calls)
  where
    go : (test : Bool) → Forwards (if test then record s { proxy = ProxyPlace.reading } else s)
    go true =
        let b = beside s f (ap proxy_is_finished q) in
        record {
          outward = rw q at f.outward;
          inward = b.inward;
          closed = b.closed;
          ended = never b.live;
        }
    go false = f
proxy_goes-Forwards now s (ProxyPlace.writing greeting bytes task) q f =
    proxied-Forwards greeting bytes now s (Channel.resume_write s.link task)
      (beside s f (ap proxy_is_finished q)) (rw q at f.outward)
proxy_goes-Forwards now s ProxyPlace.reading q f = f
proxy_goes-Forwards now s (ProxyPlace.finished r) q f = f

pub put_timed_out-Forwards :
    (now : ℕ) (s : Session) (place : ProxyPlace)
    → s.proxy ≡ place
    → Forwards s
    → Forwards (put_timed_out now s place)
unfolding put_timed_out
put_timed_out-Forwards now s (ProxyPlace.writing greeting bytes task) q f =
    proxied-Forwards greeting bytes now s (Channel.timeout_write s.link task)
      (beside s f (ap proxy_is_finished q)) (rw q at f.outward)
put_timed_out-Forwards now s ProxyPlace.reading q f = f
put_timed_out-Forwards now s (ProxyPlace.paused since) q f = f
put_timed_out-Forwards now s (ProxyPlace.finished r) q f = f

pub proxy_cancelled-Forwards :
    (s : Session) (place : ProxyPlace)
    → s.proxy ≡ place
    → Forwards s
    → Forwards (proxy_cancelled s place)
unfolding proxy_cancelled
proxy_cancelled-Forwards s (ProxyPlace.finished r) q f = f
proxy_cancelled-Forwards s ProxyPlace.reading q f =
    proxy_raised-Forwards cancelled_error s [] (beside s f (ap proxy_is_finished q))
      (append-nil s.sent ∙ (rw q at f.outward)) (omega arith)
proxy_cancelled-Forwards s (ProxyPlace.paused since) q f =
    proxy_raised-Forwards cancelled_error s [] (beside s f (ap proxy_is_finished q))
      (append-nil s.sent ∙ (rw q at f.outward)) (omega arith)
proxy_cancelled-Forwards s (ProxyPlace.writing greeting bytes task) q f =
    let b = beside s f (ap proxy_is_finished q) in
    proxy_raised-Forwards cancelled_error
      (record s { link = record s.link { output = Tasks.cancel_put s.link.output task } })
      (bytes ∷ []) (record { inward = b.inward; closed = b.closed; live = b.live })
      (rw q at f.outward) (omega arith)
