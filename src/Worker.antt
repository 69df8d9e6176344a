-- ===== src/Worker.antt =====
-- snitun/server/worker.py: the names that a worker process tells the server's thread.
pub mod Connections
pub mod Reports
pub mod Sync
use snitun.Prelude.{ℕ, ◌+◌, Bool, List, [], ◌∷◌, if◌then◌else◌}
use snitun.Bytes.{Text, bytes_key}
use snitun.Dict.{Dict, has}
use snitun.PeerManager.{
  Peer, all_hostnames, Store, Effect, connected, disconnected, shut_down, PeerManager, insert_all,
  remove_all, add_peer, remove_peer,
}

-- `_sync`, whose values are all None, written 0, and `_peer_count`, which is an integer, as how often
-- it went up and how often down.
pub record Worker : Type 0 where
  pub sync : Dict Text ℕ
  pub ups : ℕ
  pub downs : ℕ

-- `is_responsible_peer`
unfoldable pub is_responsible_peer : Text → Worker → Bool
is_responsible_peer hostname w = has hostname w.sync

-- `_event_stream`
unfoldable pub peer_connected : Peer → Worker → Worker
peer_connected peer w = record {
  sync = insert_all (all_hostnames peer) 0 w.sync;
  ups = if has peer.hostname w.sync then w.ups else w.ups + 1;
  downs = w.downs;
}

unfoldable pub peer_disconnected : Peer → Worker → Worker
peer_disconnected peer w = record {
  sync = remove_all (all_hostnames peer) w.sync;
  ups = w.ups;
  downs = if has peer.hostname w.sync then w.downs + 1 else w.downs;
}

unfoldable pub event_stream : Store → Effect → Worker → Worker
event_stream store (connected id) w = peer_connected (store id) w
event_stream store (disconnected id) w = peer_disconnected (store id) w
event_stream store (shut_down id) w = w

-- `call_soon` calls back in the order of the calls.
unfoldable pub deliver : Store → List Effect → Worker → Worker
deliver store [] w = w
deliver store (e ∷ es) w = deliver store es (event_stream store e w)

pub data PeerOp : Type 0 where
  adds : ℕ → PeerOp
  removes : ℕ → PeerOp

unfoldable pub manage : Store → PeerOp → PeerManager → PeerManager
manage store (adds id) m = add_peer store id m
manage store (removes id) m = remove_peer store id m

-- An operation on the peers, and the callbacks that it schedules.
unfoldable pub step : Store → PeerOp → PeerManager × Worker → PeerManager × Worker
step store op (m, w) =
    let m' = manage store op (record m { effects = [] }) in
    (record m' { effects = [] }, deliver store m'.effects w)

unfoldable pub run : Store → List PeerOp → PeerManager × Worker → PeerManager × Worker
run store [] s = s
run store (op ∷ ops) s = run store ops (step store op s)
