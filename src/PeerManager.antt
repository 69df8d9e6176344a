-- ===== src/PeerManager.antt =====
-- snitun/server/peer_manager.py: the peers of a server by their names, and snitun/server/peer.py: what
-- the manager asks a peer. A peer is an object: its identity is a number.
pub mod Names
use snitun.Prelude.{
  ℕ, Bool, true, false, Option, none, some, List, [], ◌∷◌, ◌++◌, ◌==◌, if◌then◌else◌, length,
}
use snitun.Bytes.{bytes_key, Text}
use snitun.Dict.{Dict, insert, remove, lookup}

-- `multiplexer` is none where there is no multiplexer yet, else whether it is connected.
pub record Peer : Type 0 where
  pub hostname : Text
  pub alias_names : List Text
  pub multiplexer : Option Bool

-- `all_hostnames`
abbrev pub all_hostnames : Peer → List Text
all_hostnames peer = peer.hostname ∷ peer.alias_names

-- `is_ready`, which `is_connected` equals.
unfoldable pub is_ready : Peer → Bool
is_ready peer = go peer.multiplexer
  where
    go : Option Bool → Bool
    go none = false
    go (some connected) = connected

-- The callbacks that are scheduled, and the multiplexers that are shut down.
pub data Effect : Type 0 where
  connected : ℕ → Effect
  disconnected : ℕ → Effect
  shut_down : ℕ → Effect

pub record PeerManager : Type 0 where
  pub peers : Dict Text ℕ
  pub event_callback : Bool
  pub effects : List Effect

-- `connections`
unfoldable pub connections : PeerManager → ℕ
connections m = length m.peers

-- `get_peer`
unfoldable pub get_peer : Text → PeerManager → Option ℕ
get_peer hostname m = lookup hostname m.peers

-- The peers as they are at the call.
abbrev pub Store : Type 0
Store = ℕ → Peer

unfoldable pub is_ready_at : Store → Option ℕ → Bool
is_ready_at store none = false
is_ready_at store (some id) = is_ready (store id)

unfoldable pub peer_available : Store → Text → PeerManager → Bool
peer_available store hostname m = is_ready_at store (lookup hostname m.peers)

-- "Found stale peer connection": a peer that is ready has a multiplexer.
unfoldable pub shut_stale : Store → Option ℕ → List Effect
shut_stale store none = []
shut_stale store (some id) = if is_ready (store id) then shut_down id ∷ [] else []

unfoldable pub insert_all : List Text → ℕ → Dict Text ℕ → Dict Text ℕ
insert_all [] id d = d
insert_all (name ∷ names) id d = insert_all names id (insert name id d)

unfoldable pub remove_all : List Text → Dict Text ℕ → Dict Text ℕ
remove_all [] d = d
remove_all (name ∷ names) d = remove_all names (remove name d)

abbrev pub call_back : Bool → Effect → List Effect
call_back true e = e ∷ []
call_back false e = []

unfoldable pub add_peer : Store → ℕ → PeerManager → PeerManager
add_peer store id m = record m {
  peers = insert_all (store id).alias_names id (insert (store id).hostname id m.peers);
  effects =
      m.effects
      ++ (shut_stale store (lookup (store id).hostname m.peers)
          ++ call_back m.event_callback (connected id));
}

unfoldable pub removed : Store → ℕ → PeerManager → PeerManager
removed store id m = record m {
  peers = remove_all (all_hostnames (store id)) m.peers;
  effects = m.effects ++ call_back m.event_callback (disconnected id);
}

-- `self._peers.get(peer.hostname) != peer`
unfoldable pub is_peer : Option ℕ → ℕ → Bool
is_peer none id = false
is_peer (some other) id = other == id

unfoldable pub remove_peer : Store → ℕ → PeerManager → PeerManager
unfolding removed is_peer
remove_peer store id m =
    if is_peer (lookup (store id).hostname m.peers) id then removed store id m else m
