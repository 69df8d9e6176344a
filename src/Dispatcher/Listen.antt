-- ===== src/Dispatcher/Listen.antt =====
-- `create_listen_sockets` of snitun/server/run.py. An address stands for what `getaddrinfo` returns, and
-- for the socket that is bound to it.
use snitun.Prelude.{
  ◌≢◌, refl, Bool-cases, inl, inr, arith, ℕ, Bool, false, ◌||◌, Option, none, some, List, [], ◌∷◌,
  ◌++◌, ◌==◌, if◌then◌else◌, ◌≡◌, true,
}
use snitun.Exceptions.{Result, ok, err, runtime_error}
use snitun.Connector.Endpoint.{catches_os}

abbrev pub is_seen : ℕ → List ℕ → Bool
is_seen address [] = false
is_seen address (a ∷ addresses) = address == a || is_seen address addresses

||-false : (a b : Bool) → (a || b) ≡ false → (a ≡ false) × (b ≡ false)
||-false true b h = absurd (cc)
||-false false b h = (refl, h)

-- No address twice.
abbrev Distinct : List ℕ → Type 0
Distinct [] = Unit {0}
Distinct (a ∷ rest) = (is_seen a rest ≡ false) × Distinct rest

is_seen-append :
    (b a : ℕ) (s : List ℕ)
    → is_seen b s ≡ false
    → (b == a) ≡ false
    → is_seen b (s ++ a ∷ []) ≡ false
is_seen-append b a [] h n = rw n refl
is_seen-append b a (c ∷ s) h n =
    let (h1, h2) = ||-false (b == c) (is_seen b s) h in rw h1 (is_seen-append b a s h2 n)

Distinct-append : (a : ℕ) (s : List ℕ) → Distinct s → is_seen a s ≡ false → Distinct (s ++ a ∷ [])
Distinct-append a [] d h = (refl, tt)
Distinct-append a (b ∷ s) (h', d) h =
    let (h1, h2) = ||-false (a == b) (is_seen a s) h in
    (is_seen-append b a s h' (ground arith), Distinct-append a s d h2)

-- The sockets that were created, and what creating the rest came to.
abbrev pub Listening : Type 0
Listening = Result (Unit {0}) × List ℕ

abbrev Listens : Result (List ℕ) × List ℕ → Type 0
Listens (ok sockets, closed) = Distinct sockets × (sockets ≢ []) × (closed ≡ [])
Listens (err e, closed) = Unit {0}

module _ (getaddrinfo : Option ℕ → Result (List ℕ)) (bind : ℕ → Result (Unit {0})) where
  -- A socket is in the list once it listens.
  bound : ℕ → (List ℕ → Listening) → List ℕ → Result (Unit {0}) → Listening
  bound address next sockets (ok _) = next (sockets ++ address ∷ [])
  bound address next sockets (err e) = (err e, sockets)

  listen_on : List ℕ → List ℕ → Listening
  unfolding bound
  listen_on [] sockets = (ok tt, sockets)
  listen_on (address ∷ addresses) sockets =
      let next = bound address (listen_on addresses) sockets (bind address) in
      if is_seen address sockets then listen_on addresses sockets else next

  resolved : (List ℕ → Listening) → List ℕ → Result (List ℕ) → Listening
  unfolding listen_on
  resolved next sockets (err e) = (err e, sockets)
  resolved next sockets (ok addresses) = elim (listen_on addresses sockets).0 [
    | ok _ ↦ next (listen_on addresses sockets).1
    | err e ↦ (err e, (listen_on addresses sockets).1)
  ]

  listen_all : List (Option ℕ) → List ℕ → Listening
  unfolding resolved
  listen_all [] sockets = (ok tt, sockets)
  listen_all (host ∷ hosts) sockets = resolved (listen_all hosts) sockets (getaddrinfo host)

  targets : Option (List ℕ) → List (Option ℕ)
  targets none = none ∷ []
  targets (some hosts) = each hosts
    where
      each : List ℕ → List (Option ℕ)
      each [] = []
      each (host ∷ hosts) = some host ∷ each hosts

  -- The sockets, or what is raised, and the sockets that are closed.
  settled : Listening → Result (List ℕ) × List ℕ
  settled (ok _, []) = (err runtime_error, [])
  settled (ok _, socket ∷ sockets) = (ok (socket ∷ sockets), [])
  settled (err e, sockets) = if catches_os e then (err e, sockets) else (err e, [])

  unfoldable pub create_listen_sockets : Option (List ℕ) → Result (List ℕ) × List ℕ
  unfolding settled listen_all targets
  create_listen_sockets hosts = settled (listen_all (targets hosts) [])

  bound-Distinct :
      (address : ℕ) (next : List ℕ → Listening) (sockets : List ℕ) (r : Result (Unit {0}))
      → Distinct sockets
      → Distinct (next (sockets ++ address ∷ [])).1
      → Distinct (bound address next sockets r).1
  unfolding bound
  bound-Distinct address next sockets (ok _) d h = h
  bound-Distinct address next sockets (err e) d h = d

  listen_on-Distinct :
      (addresses sockets : List ℕ) → Distinct sockets → Distinct (listen_on addresses sockets).1
  unfolding listen_on
  listen_on-Distinct [] sockets d = d
  listen_on-Distinct (address ∷ addresses) sockets d = elim (Bool-cases (is_seen address sockets)) [
    | inl t ↦ rw t (listen_on-Distinct addresses sockets d)
    | inr t ↦ rw t (
        bound-Distinct address (listen_on addresses) sockets (bind address) d (
          listen_on-Distinct addresses (sockets ++ address ∷ [])
            (Distinct-append address sockets d t)))
  ]

  resolved-Distinct :
      (next : List ℕ → Listening) (sockets : List ℕ) (r : Result (List ℕ))
      → Distinct sockets
      → ((sockets' : List ℕ) → Distinct sockets' → Distinct (next sockets').1)
      → Distinct (resolved next sockets r).1
  unfolding resolved
  resolved-Distinct next sockets (err e) d h = d
  resolved-Distinct next sockets (ok addresses) d h =
      go (listen_on addresses sockets) (listen_on-Distinct addresses sockets d)
    where
      go :
          (l : Listening)
          → Distinct l.1
          → Distinct (elim l.0 as (λ x. Listening) [ ok _ ↦ next l.1 | err e ↦ (err e, l.1) ]).1
      go (ok _, s) d' = h s d'
      go (err e, s) d' = d'

  listen_all-Distinct :
      (hosts : List (Option ℕ)) (sockets : List ℕ)
      → Distinct sockets
      → Distinct (listen_all hosts sockets).1
  unfolding listen_all
  listen_all-Distinct [] sockets d = d
  listen_all-Distinct (host ∷ hosts) sockets d =
      resolved-Distinct (listen_all hosts) sockets (getaddrinfo host) d
        (λ sockets' d'. listen_all-Distinct hosts sockets' d')

  settled-Distinct : (l : Listening) → Distinct l.1 → Listens (settled l)
  unfolding settled
  settled-Distinct (ok _, []) d = tt
  settled-Distinct (ok _, socket ∷ sockets) d = (d, cc, refl)
  settled-Distinct (err e, sockets) d = go (catches_os e)
    where
      go : (b : Bool) → Listens (if b then (err e, sockets) else (err e, []))
      go true = tt
      go false = tt

  -- Where sockets are returned, there is one, no two have the same address, and none is closed.
  create_listen_sockets-Distinct : (hosts : Option (List ℕ)) → Listens (create_listen_sockets hosts)
  unfolding create_listen_sockets
  create_listen_sockets-Distinct hosts =
      settled-Distinct (listen_all (targets hosts) []) (listen_all-Distinct (targets hosts) [] tt)
