-- ===== src/Worker/Sync.antt =====
-- The names of a worker (snitun/server/worker.py) and those of its peer manager.
use snitun.Prelude.{
  ℕ, ◌≡◌, refl, sym, ap, ◌∙◌, Bool, true, false, ◌&&◌, ◌||◌, not, Option, none, some, List, [], ◌∷◌,
  ◌++◌, arith, if◌then◌else◌, nat_eq,
}
use snitun.Bytes.{Text, bytes_key}
use snitun.Dict.{Dict, lookup, has}
use snitun.PeerManager.{
  all_hostnames, Store, Effect, connected, disconnected, shut_down, PeerManager, insert_all,
  remove_all, add_peer, remove_peer, removed, is_peer, shut_stale, is_ready, call_back,
}
use snitun.PeerManager.Names.{among, lookup-insert_all, lookup-remove_all}
use snitun.Worker.{
  Worker, is_responsible_peer, peer_connected, peer_disconnected, event_stream, deliver, PeerOp,
  adds, removes, manage, step, run,
}

-- The worker has exactly the names of its manager, whose callback is set.
abbrev pub InSync : PeerManager × Worker → Type 0
InSync (m, w) =
    (m.event_callback ≡ true) × ((name : Text) → is_responsible_peer name w ≡ has name m.peers)

present : Option ℕ → Bool
present none = false
present (some _) = true

has-present : (name : Text) (d : Dict Text ℕ) → has name d ≡ present (lookup name d)
unfolding has present
has-present name d = ground arith

has-insert_all :
    (name : Text) (names : List Text) (id : ℕ) (d : Dict Text ℕ)
    → has name (insert_all names id d) ≡ (among name names || has name d)
unfolding present
has-insert_all name names id d =
    has-present name (insert_all names id d)
    ∙ ap present (lookup-insert_all name names id d)
    ∙ go (among name names)
    ∙ ap (λ b. among name names || b) (sym (has-present name d))
  where
    go :
        (b : Bool) → present (if b then some id else lookup name d) ≡ (b || present (lookup name d))
    go true = refl
    go false = refl

has-remove_all :
    (name : Text) (names : List Text) (d : Dict Text ℕ)
    → has name (remove_all names d) ≡ (not (among name names) && has name d)
unfolding present
has-remove_all name names d =
    has-present name (remove_all names d)
    ∙ ap present (lookup-remove_all name names d)
    ∙ go (among name names)
    ∙ ap (λ b. not (among name names) && b) (sym (has-present name d))
  where
    go :
        (b : Bool)
        → present (if b then none else lookup name d) ≡ (not b && present (lookup name d))
    go true = refl
    go false = refl

-- A multiplexer that is shut down is nothing to the worker.
deliver-shut_stale :
    (store : Store) (m : Option ℕ) (es : List Effect) (w : Worker)
    → deliver store (shut_stale store m ++ es) w ≡ deliver store es w
unfolding shut_stale deliver event_stream
deliver-shut_stale store none es w = refl
deliver-shut_stale store (some id) es w = go (is_ready (store id))
  where
    go :
        (b : Bool)
        → deliver store ((if b then shut_down id ∷ [] else []) ++ es) w ≡ deliver store es w
    go true = refl
    go false = refl

connected-InSync :
    (store : Store) (id : ℕ) (m : PeerManager) (w : Worker)
    → ((name : Text) → is_responsible_peer name w ≡ has name m.peers)
    → (name : Text)
    → is_responsible_peer name (peer_connected (store id) w)
      ≡ has name (insert_all (all_hostnames (store id)) id m.peers)
unfolding is_responsible_peer peer_connected
connected-InSync store id m w same name =
    has-insert_all name (all_hostnames (store id)) 0 w.sync
    ∙ ap (λ b. among name (all_hostnames (store id)) || b) (same name)
    ∙ sym (has-insert_all name (all_hostnames (store id)) id m.peers)

disconnected-InSync :
    (store : Store) (id : ℕ) (m : PeerManager) (w : Worker)
    → ((name : Text) → is_responsible_peer name w ≡ has name m.peers)
    → (name : Text)
    → is_responsible_peer name (peer_disconnected (store id) w)
      ≡ has name (remove_all (all_hostnames (store id)) m.peers)
unfolding is_responsible_peer peer_disconnected
disconnected-InSync store id m w same name =
    has-remove_all name (all_hostnames (store id)) w.sync
    ∙ ap (λ b. not (among name (all_hostnames (store id))) && b) (same name)
    ∙ sym (has-remove_all name (all_hostnames (store id)) m.peers)

step-InSync :
    (store : Store) (op : PeerOp) (m : PeerManager) (w : Worker)
    → InSync (m, w)
    → InSync (step store op (m, w))
unfolding step manage add_peer remove_peer removed deliver event_stream insert_all
step-InSync store (adds id) m w (called, same) = (
  called,
  λ name.
      ap (is_responsible_peer name) (
        deliver-shut_stale store (lookup (store id).hostname m.peers)
          (call_back m.event_callback (connected id)) w
        ∙ ap (λ b. deliver store (call_back b (connected id)) w) called)
      ∙ connected-InSync store id m w same name,
)
step-InSync store (removes id) m w (called, same) =
    go (is_peer (lookup (store id).hostname m.peers) id)
  where
    clean : PeerManager
    clean = record m { effects = [] }

    go :
        (b : Bool)
        → InSync (
            let m' = if b then removed store id clean else clean in
            (record m' { effects = [] }, deliver store m'.effects w))
    go true = (
      called,
      λ name.
          ap (λ b. is_responsible_peer name (deliver store (call_back b (disconnected id)) w))
            called
          ∙ disconnected-InSync store id m w same name,
    )
    go false = (called, same)

-- Whatever peers come and go in whatever order, a worker is responsible for exactly the names that
-- find a peer in its manager, once the callbacks have run. They run in the order in which they were
-- scheduled, and the worker and the manager agree before.
pub run-InSync :
    (store : Store) (ops : List PeerOp) (m : PeerManager) (w : Worker)
    → InSync (m, w)
    → InSync (run store ops (m, w))
unfolding run step
run-InSync store [] m w s = s
run-InSync store (op ∷ ops) m w s = run-InSync store ops _ _ (step-InSync store op m w s)
