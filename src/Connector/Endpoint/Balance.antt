-- ===== src/Connector/Endpoint/Balance.antt =====
-- The loop of `EndpointConnectorHandler` (snitun/client/connector.py): between two waits it writes what its
-- tasks hold.
use snitun.Prelude.{
  ◌≡◌, refl, ap, ◌∙◌, Bool, true, false, List, [], ◌∷◌, ◌++◌, append-nil, if◌then◌else◌,
}
use snitun.Exceptions.{Exception, Result, ok, err}
use snitun.Channel.Reader.{resumed, is_waiting, callbacks}
use snitun.Channel.{Link, WriteState}
use snitun.Connector.Endpoint.{
  finished, Bridge, FromEndpoint, FromPeer, Place, held, held_for_endpoint, finish, raised, loop,
  process_peer, process_endpoint, written, cancel_endpoint, cancel_peer, Bytes, catches_broken,
  read_endpoint, read_peer, length, none, wake,
}

abbrev pub is_reading : FromEndpoint → Bool
is_reading FromEndpoint.reading = true
is_reading _ = false

abbrev pub is_peer_reading : FromPeer → Bool
is_peer_reading FromPeer.reading = true
is_peer_reading _ = false

-- No task is left, and the endpoint's transport is closed.
abbrev pub Over : Place → Bridge → Type 0
Over (finished result) b =
    (b.closing ≡ true)
    × (is_reading b.from_endpoint ≡ false)
    × (is_peer_reading b.from_peer ≡ false)
Over _ b = Unit {0}

-- What was read in one direction was written in the other, but for what its task holds.
pub record Balanced (b : Bridge) : Type 0 where
  pub outward : b.sent ++ held b.from_endpoint ≡ b.read
  pub inward : b.written ++ held_for_endpoint b.from_peer ≡ b.received

abbrev pub Forwards : Bridge → Type 0
Forwards b = Balanced b × Over b.place b

if-both :
    (P : Bridge → Type 0) (test : Bool) {b b' : Bridge} → P b → P b' → P (if test then b else b')
if-both P true h h' = h
if-both P false h h' = h'

cancel_endpoint_lem :
    (task : FromEndpoint)
    → (held (cancel_endpoint task) ≡ held task) × (is_reading (cancel_endpoint task) ≡ false)
cancel_endpoint_lem FromEndpoint.idle = (refl, refl)
cancel_endpoint_lem FromEndpoint.reading = (refl, refl)
cancel_endpoint_lem (FromEndpoint.pausing since) = (refl, refl)
cancel_endpoint_lem (FromEndpoint.done result) = (refl, refl)

cancel_peer_lem :
    (task : FromPeer)
    → (held_for_endpoint (cancel_peer task) ≡ held_for_endpoint task)
      × (is_peer_reading (cancel_peer task) ≡ false)
cancel_peer_lem FromPeer.idle = (refl, refl)
cancel_peer_lem FromPeer.reading = (refl, refl)
cancel_peer_lem (FromPeer.done result) = (refl, refl)

finish-Forwards :
    (result : Result (Unit {0})) (b : Bridge) → Balanced b → Forwards (finish result b)
unfolding finish
finish-Forwards result b f =
    let (e, e') = cancel_endpoint_lem b.from_endpoint in
    let (q, q') = cancel_peer_lem b.from_peer in
    (
      record {
        outward = ap (λ (xs : List Bytes). b.sent ++ xs) e ∙ f.outward;
        inward = ap (λ (xs : List Bytes). b.written ++ xs) q ∙ f.inward;
      },
      (refl, e', q'),
    )

pub raised-Forwards : (e : Exception) (b : Bridge) → Balanced b → Forwards (raised e b)
unfolding raised
raised-Forwards e b f =
    if-both Forwards (catches_broken e)
      (finish-Forwards (ok tt) (record b { deleted = true })
        (record { outward = f.outward; inward = f.inward }))
      (finish-Forwards _ b f)

read_endpoint_lem : (l : Link) (task : FromEndpoint) → held (read_endpoint l task) ≡ held task
read_endpoint_lem l FromEndpoint.idle = go (is_waiting (callbacks l.calls none))
  where
    go :
        (test : Bool)
        → held (if test then FromEndpoint.pausing (length l.calls) else FromEndpoint.reading) ≡ []
    go true = refl
    go false = refl
read_endpoint_lem l FromEndpoint.reading = refl
read_endpoint_lem l (FromEndpoint.pausing since) = refl
read_endpoint_lem l (FromEndpoint.done result) = refl

read_peer_lem : (task : FromPeer) → held_for_endpoint (read_peer task) ≡ held_for_endpoint task
read_peer_lem FromPeer.idle = refl
read_peer_lem FromPeer.reading = refl
read_peer_lem (FromPeer.done result) = refl

pub loop-Forwards : (b : Bridge) → Balanced b → Forwards (loop b)
unfolding loop
loop-Forwards b f = if-both Forwards b.closing (finish-Forwards (ok tt) b f) (
  record {
    outward =
        ap (λ (xs : List Bytes). b.sent ++ xs) (read_endpoint_lem b.link b.from_endpoint)
        ∙ f.outward;
    inward = ap (λ (xs : List Bytes). b.written ++ xs) (read_peer_lem b.from_peer) ∙ f.inward;
  },
  tt,
)

process_peer-Forwards :
    (b : Bridge) (task : FromPeer)
    → b.from_peer ≡ task
    → Balanced b
    → Forwards (process_peer b task)
unfolding process_peer
process_peer-Forwards b FromPeer.idle q f = loop-Forwards b f
process_peer-Forwards b FromPeer.reading q f = loop-Forwards b f
process_peer-Forwards b (FromPeer.done (err e)) q f = raised-Forwards e b f
process_peer-Forwards b (FromPeer.done (ok bytes)) q f = (
  record {
    outward = f.outward;
    inward = append-nil (b.written ++ bytes ∷ []) ∙ (rw q at f.inward);
  },
  tt,
)

pub written-Forwards : (b : Bridge) (w : WriteState) → Balanced b → Forwards (written b w)
unfolding written
written-Forwards b (WriteState.ended (ok _, link)) f =
    process_peer-Forwards
      (record b {
        link = link;
        from_endpoint = FromEndpoint.idle;
        sent = b.sent ++ held b.from_endpoint;
      })
      b.from_peer refl
      (record {
        outward = append-nil (b.sent ++ held b.from_endpoint) ∙ f.outward;
        inward = f.inward;
      })
written-Forwards b (WriteState.ended (err e, link)) f =
    raised-Forwards e (record b { link = link }) (record { outward = f.outward; inward = f.inward })
written-Forwards b (WriteState.suspended link task) f =
    (record { outward = f.outward; inward = f.inward }, tt)

process_endpoint-Forwards :
    (b : Bridge) (task : FromEndpoint)
    → b.from_endpoint ≡ task
    → Balanced b
    → Forwards (process_endpoint b task)
unfolding process_endpoint
process_endpoint-Forwards b FromEndpoint.idle q f = process_peer-Forwards b b.from_peer refl f
process_endpoint-Forwards b FromEndpoint.reading q f = process_peer-Forwards b b.from_peer refl f
process_endpoint-Forwards b (FromEndpoint.pausing since) q f = go (resumed since b.link.calls)
  where
    go :
        (test : Bool)
        → Forwards (
            process_peer
              (if test then record b { from_endpoint = FromEndpoint.idle } else b)
              b.from_peer)
    go true =
        process_peer-Forwards (record b { from_endpoint = FromEndpoint.idle }) b.from_peer refl
          (record { outward = rw q at f.outward; inward = f.inward })
    go false = process_peer-Forwards b b.from_peer refl f
process_endpoint-Forwards b (FromEndpoint.done (ok bytes)) q f = written-Forwards b _ f
process_endpoint-Forwards b (FromEndpoint.done (err e)) q f = raised-Forwards e b f

pub wake-Forwards : (b : Bridge) → Forwards b → Forwards (wake b)
unfolding wake
wake-Forwards b f = if-both Forwards _ (process_endpoint-Forwards b b.from_endpoint refl f.0) f
