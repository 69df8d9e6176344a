-- ===== src/PeerManager/Names.antt =====
-- Which peer a name finds, through the operations of snitun/server/peer_manager.py.
use snitun.Prelude.{
  ℕ, ◌≡◌, ◌≢◌, refl, ◌∙◌, Bool, true, false, ◌&&◌, ◌||◌, Option, none, some, List, [], ◌∷◌, ◌==◌,
  if◌then◌else◌, Bool-cases, inl, inr,
}
use snitun.Bytes.{bytes_key, Text, bytes_eq, bytes_eq_refl, bytes_eq→eq}
use snitun.Dict.{Dict, insert, remove, lookup, lookup-insert, lookup-remove}
use snitun.PeerManager.{
  all_hostnames, PeerManager, get_peer, Store, insert_all, remove_all, add_peer, remove_peer,
  removed, is_peer,
}

-- `name in names`
pub among : Text → List Text → Bool
among name [] = false
among name (other ∷ names) = bytes_eq other name || among name names

pub lookup-insert_all :
    (name : Text) (names : List Text) (id : ℕ) (d : Dict Text ℕ)
    → lookup name (insert_all names id d) ≡ (if among name names then some id else lookup name d)
unfolding insert_all among
lookup-insert_all name [] id d = refl
lookup-insert_all name (other ∷ names) id d =
    lookup-insert_all name names id (insert other id d)
    ∙ rw (lookup-insert other name id d) (go (among name names) (bytes_eq other name))
  where
    go :
        (a b : Bool)
        → (if a then some id else (if b then some id else lookup name d))
          ≡ (if b || a then some id else lookup name d)
    go true true = refl
    go true false = refl
    go false true = refl
    go false false = refl

pub lookup-remove_all :
    (name : Text) (names : List Text) (d : Dict Text ℕ)
    → lookup name (remove_all names d) ≡ (if among name names then none else lookup name d)
unfolding remove_all among
lookup-remove_all name [] d = refl
lookup-remove_all name (other ∷ names) d =
    lookup-remove_all name names (remove other d)
    ∙ rw (lookup-remove other name d) (go (among name names) (bytes_eq other name))
  where
    go :
        (a b : Bool)
        → (if a then none else (if b then none else lookup name d))
          ≡ (if b || a then none else lookup name d)
    go true true = refl
    go true false = refl
    go false true = refl
    go false false = refl

-- After a peer is added, each of its names finds it, and every other name finds what it found before.
pub get_peer-add_peer :
    (store : Store) (id : ℕ) (name : Text) (m : PeerManager)
    → get_peer name (add_peer store id m)
      ≡ (if among name (all_hostnames (store id)) then some id else get_peer name m)
unfolding get_peer add_peer insert_all among
get_peer-add_peer store id name m = lookup-insert_all name (all_hostnames (store id)) id m.peers

-- Removing a peer whose host name finds it makes every one of its names find nothing, also an alias
-- that another peer took over, and changes no other name; where another peer took over the host name,
-- nothing changes.
pub get_peer-remove_peer :
    (store : Store) (id : ℕ) (name : Text) (m : PeerManager)
    → get_peer name (remove_peer store id m) ≡ (
        if is_peer (get_peer (store id).hostname m) id && among name (all_hostnames (store id))
        then none
        else get_peer name m)
unfolding get_peer remove_peer removed remove_all among
get_peer-remove_peer store id name m = go (is_peer (lookup (store id).hostname m.peers) id)
  where
    go :
        (b : Bool)
        → lookup name (if b then removed store id m else m).peers
          ≡ (if b && among name (all_hostnames (store id)) then none else lookup name m.peers)
    go true = lookup-remove_all name (all_hostnames (store id)) m.peers
    go false = refl

passed_over :
    (b : Bool) {m : Option ℕ} {id : ℕ} → m ≡ some id → (if b && false then none else m) ≡ some id
passed_over true h = h
passed_over false h = h

-- A peer that connects again under its host name alone leaves its aliases to the first connection:
-- when both have been removed, an alias still finds the first peer, which is gone. The alias is not
-- the host name.
pub remove_peer-stale_alias :
    (store : Store) (old new : ℕ) (name : Text) (m : PeerManager)
    → (store old).hostname ≡ (store new).hostname
    → (store old).alias_names ≡ name ∷ []
    → (store new).alias_names ≡ []
    → (store old).hostname ≢ name
    → (new == old) ≡ false
    → get_peer name
        (remove_peer store new (remove_peer store old (add_peer store new (add_peer store old m))))
      ≡ some old
unfolding among is_peer
remove_peer-stale_alias store old new name m h a a' n d =
    let host = (store new).hostname in
    let twice = add_peer store new (add_peer store old m) in
    let own : get_peer host twice ≡ some new =
      get_peer-add_peer store new host (add_peer store old m) ∙ rw (bytes_eq_refl host) refl in
    let apart : bytes_eq host name ≡ false = elim (Bool-cases (bytes_eq host name)) [
      | inl e ↦ absurd (n (h ∙ bytes_eq→eq host name e))
      | inr e ↦ e
    ] in
    let kept : (j : Text) → get_peer j (remove_peer store old twice) ≡ get_peer j twice =
      (λ j. get_peer-remove_peer store old j twice ∙ rw (h, own) (rw d refl)) in
    let first : get_peer name twice ≡ some old =
      get_peer-add_peer store new name (add_peer store old m)
      ∙ rw (a', apart)
          (get_peer-add_peer store old name m ∙ rw (a, bytes_eq_refl name) (rw (h, apart) refl)) in
    get_peer-remove_peer store new name (remove_peer store old twice)
    ∙ rw (a', apart)
        (passed_over (is_peer (get_peer host (remove_peer store old twice)) new)
          (kept name ∙ first))

-- Whether the name finds this peer.
abbrev pub is_found : Text → ℕ → PeerManager → Bool
is_found name id m = is_peer (get_peer name m) id

-- A peer that is removed is not found under its host name.
pub is_found-remove_peer :
    (store : Store) (id : ℕ) (m : PeerManager)
    → is_found (store id).hostname id (remove_peer store id m) ≡ false
unfolding among is_peer
is_found-remove_peer store id m =
    rw (get_peer-remove_peer store id (store id).hostname m, bytes_eq_refl (store id).hostname)
      (go (get_peer (store id).hostname m))
  where
    go : (o : Option ℕ) → is_peer (if is_peer o id && true then none else o) id ≡ false
    go none = refl
    go (some other) = elim (Bool-cases (other == id)) [ inl e ↦ rw e refl | inr e ↦ rw e e ]

pub remove_peer-absent :
    (store : Store) (id : ℕ) (m : PeerManager)
    → is_found (store id).hostname id m ≡ false
    → remove_peer store id m ≡ m
unfolding remove_peer get_peer
remove_peer-absent store id m h = rw h refl
