-- ===== src/PeerListener.antt =====
-- snitun/server/listener_peer.py: `PeerListener.handle_connection`, from the token of a peer to the end of
-- its session. A visit says what the socket, the clock and the other tasks do meanwhile.
pub mod Settled
use snitun.Prelude.{ℕ, Bool, true, false, Option, none, some, List, [], ◌∷◌, ◌==◌, if◌then◌else◌}
use snitun.Bytes.{Bytes}
use snitun.Exceptions.{
  Exception, Result, ok, err, timeout_error, os_error, invalid_peer, challenge_error,
}
use snitun.Crypto.{Primitives, CryptoTransport}
use snitun.Challenge.{Entropy, init_multiplexer_challenge}
use snitun.Token.{TokenData, Session, create_peer, is_valid}
use snitun.PeerManager.{PeerManager, Store, add_peer, remove_peer}

-- The counters of `MetricsCollector.increment`, with their tags.
pub data Metric : Type 0 where
  attempt_started attempt_success failure_invalid_token failure_challenge_failed : Metric

-- A wake-up of the loop: the peer has gone, or `CHECK_VALID_EXPIRE` seconds are over.
pub data Wake : Type 0 where
  disconnected : Wake
  checked : (now : ℕ) (still_connected : Bool) → Wake

pub record Visit : Type 0 where
  -- `data`, and else what `reader.read(2048)` comes to.
  pub pre_read : Option Bytes
  pub first_read : Result Bytes
  pub now : ℕ
  pub has_metrics : Bool
  -- The identity of the new peer's object.
  pub id : ℕ
  pub entropy : Entropy
  pub reply : Bytes → ℕ → Result Bytes
  pub wakes : List Wake
  -- What other tasks do to the manager while the peer is served.
  pub others : PeerManager → PeerManager

-- How the handler ends: what it raises, whether the writer is closed, what it counted, and the manager.
pub record Handled : Type 0 where
  pub raised : Result (Unit {0})
  pub writer_closed : Bool
  pub metrics : List Metric
  pub manager : PeerManager

-- The objects with the new peer, which has its multiplexer.
abbrev pub with_peer : Store → ℕ → Session → Store
with_peer store id session other =
    if other == id
    then record {
      hostname = session.hostname;
      alias_names = session.alias_names;
      multiplexer = some true;
    }
    else store other

-- `while peer.is_connected`: whether the loop has ended. The first test comes at once, when the new
-- multiplexer is connected.
unfoldable pub serve : Session → List Wake → Bool
unfolding is_valid
serve session [] = false
serve session (disconnected ∷ wakes) = true
serve session (checked now still_connected ∷ wakes) =
    let rest = serve session wakes in
    if is_valid now session then (if still_connected then rest else true) else true

abbrev counted : Visit → List Metric → List Metric
counted v metrics = if v.has_metrics then metrics else []

-- The `except` clauses, for an exception before the peer was added.
rejected : Visit → PeerManager → Exception → Handled
rejected v m invalid_peer = record {
  raised = ok tt;
  writer_closed = true;
  metrics = counted v (attempt_started ∷ failure_invalid_token ∷ []);
  manager = m;
}
rejected v m challenge_error = record {
  raised = ok tt;
  writer_closed = true;
  metrics = counted v (attempt_started ∷ failure_challenge_failed ∷ []);
  manager = m;
}
rejected v m e = record {
  raised = err e;
  writer_closed = true;
  metrics = counted v (attempt_started ∷ []);
  manager = m;
}

abbrev pub quiet : Bool → PeerManager → Handled
quiet writer_closed m = record {
  raised = ok tt;
  writer_closed = writer_closed;
  metrics = [];
  manager = m;
}

-- `if not data`
abbrev fernet_data : Visit → Result Bytes
fernet_data v = go v.pre_read
  where
    go : Option Bytes → Result Bytes
    go none = v.first_read
    go (some []) = v.first_read
    go (some (b ∷ bs)) = ok (b ∷ bs)

module _ (p : Primitives) (sha256 : Bytes → Bytes) (open_token : Bytes → Option TokenData)
    (throttling : Option ℕ) (store : Store) where
  -- "Authentication successful": none while the loop goes on.
  served : Visit → PeerManager → Session → Option Handled
  unfolding serve
  served v m session =
      let objects = with_peer store v.id session in
      if serve session v.wakes
      then some (record {
        raised = ok tt;
        writer_closed = true;
        metrics = counted v (attempt_started ∷ attempt_success ∷ []);
        manager = remove_peer objects v.id (v.others (add_peer objects v.id m));
      })
      else none

  -- After the challenge. A peer that was created is removed also where it was not added.
  challenged : Visit → PeerManager → Session → Result CryptoTransport → Option Handled
  unfolding rejected served
  challenged v m session (ok crypto) = served v m session
  challenged v m session (err e) =
      some (rejected v (remove_peer (with_peer store v.id session) v.id m) e)

  created : Visit → PeerManager → Result Session → Option Handled
  unfolding rejected challenged
  created v m (err e) = some (rejected v m e)
  created v m (ok session) =
      challenged v m session (init_multiplexer_challenge p sha256 v.entropy v.reply session.crypto)

  -- With the token's data, or why there is none.
  authenticate : Visit → PeerManager → Result Bytes → Option Handled
  unfolding created
  authenticate v m (err timeout_error) = some (quiet true m)
  authenticate v m (err os_error) = some (quiet false m)
  authenticate v m (err e) =
      some (record { raised = err e; writer_closed = false; metrics = []; manager = m })
  authenticate v m (ok []) = some (quiet true m)
  authenticate v m (ok (b ∷ bs)) = created v m (create_peer p open_token throttling v.now (b ∷ bs))

  unfoldable pub handle_connection : Visit → PeerManager → Option Handled
  unfolding authenticate
  handle_connection v m = authenticate v m (fernet_data v)
