-- ===== src/Dispatcher/Sweep.antt =====
-- The loop of `SniTunServerWorker.run` (snitun/server/run.py): which connections it keeps, and for how long.
use snitun.Prelude.{
  nat_eq, ℕ, zero, suc, ◌≤◌, ◌≡◌, refl, sym, ◌∙◌, subst, Bool, false, none, some, List, [], ◌∷◌,
  arith, leb, All, Bool-cases, inl, inr, ◌==◌,
}
use snitun.Exceptions.{Result, ok, ◌>>=◌, or_raise, key_error, >>=-eq-ok}
use snitun.Bytes.{Text}
use snitun.Dict.{Dict, insert, remove, lookup}
use snitun.Dispatcher.Settled.{Settled, waiting, ended, crashed, process-Settled}
use snitun.Dispatcher.{
  Connection, new_connection, Step, Loop, Event, accepted, accept_failed, readable, hung_up,
  keep_open, serve_data, serve, serve_all, sweep, turn,
}

-- A connection that the loop may hold.
abbrev pub IsWaiting : ℕ × Connection → Type 0
IsWaiting (fileno, client) = (client.close ≡ false) × (client.stale ≤ 30)

abbrev pub IsLoop : Loop → Type 0
IsLoop l = All IsWaiting l.connections

insert-All :
    (P : ℕ × Connection → Type 0) (fileno : ℕ) (client : Connection) (d : Dict ℕ Connection)
    → ((f : ℕ) → P (f, client))
    → All P d
    → All P (insert fileno client d)
unfolding insert
insert-All P fileno client [] h a = (h fileno, tt)
insert-All P fileno client ((f, c) ∷ d) h a = elim (Bool-cases (f == fileno)) [
  | inl e ↦ rw e (h f, a.1)
  | inr e ↦ rw e (a.0, insert-All P fileno client d h a.1)
]

remove-All :
    (P : ℕ × Connection → Type 0) (fileno : ℕ) (d : Dict ℕ Connection)
    → All P d
    → All P (remove fileno d)
unfolding remove
remove-All P fileno [] a = tt
remove-All P fileno ((f, c) ∷ d) a = elim (Bool-cases (f == fileno)) [
  | inl e ↦ rw e (remove-All P fileno d a.1)
  | inr e ↦ rw e (a.0, remove-All P fileno d a.1)
]

sweep-IsWaiting : (d : Dict ℕ Connection) → All IsWaiting d → All IsWaiting (sweep d)
unfolding sweep
sweep-IsWaiting [] a = tt
sweep-IsWaiting ((f, c) ∷ d) a = elim (Bool-cases (leb 30 c.stale)) [
  | inl e ↦ rw e (sweep-IsWaiting d a.1)
  | inr e ↦ rw e ((a.0.0, ground arith), sweep-IsWaiting d a.1)
]

-- Connections that have been idle for some rounds.
IsIdle : ℕ → ℕ × Connection → Type 0
IsIdle k (fileno, client) = k ≤ client.stale

lookup-All :
    (P : ℕ × Connection → Type 0) (fileno : ℕ) (d : Dict ℕ Connection) (c : Connection)
    → lookup fileno d ≡ some c
    → All P d
    → (f : ℕ) × P (f, c)
unfolding lookup
lookup-All P fileno [] c h a = cc
lookup-All P fileno ((f, c') ∷ d) c h a = elim (Bool-cases (f == fileno)) [
  | inl e ↦
      let same : some c' ≡ some c = sym (rw e refl) ∙ h in
      (f, subst (λ m. elim m as (λ _. Type 0) [ none ↦ Unit | some c ↦ P (f, c) ]) same a.0)
  | inr e ↦ lookup-All P fileno d c (sym (rw e refl) ∙ h) a.1
]

serve_data-IsLoop :
    (fileno : ℕ) (l l' : Loop) (client : Connection) (r : Result Step)
    → IsLoop l
    → client.close ≡ false
    → client.stale ≡ 0
    → Settled client r
    → serve_data fileno l r ≡ ok l'
    → IsLoop l'
unfolding serve_data keep_open
serve_data-IsLoop fileno l l' client r a c s (waiting st e s' n) h =
    let still : st.client.close ≡ false = e ∙ c in
    let fresh : st.client.stale ≡ 0 = s' ∙ s in
    let kept : l'.connections ≡ insert fileno st.client l.connections = ground arith in
    rw kept (insert-All IsWaiting fileno st.client l.connections (λ f. (still, omega arith)) a)
serve_data-IsLoop fileno l l' client r a c s (ended st last e f n) h =
    let kept : l'.connections ≡ remove fileno l.connections = ground arith in
    rw kept (remove-All IsWaiting fileno l.connections a)
serve_data-IsLoop fileno l l' client r a c s (crashed bs n e) h = cc

serve-IsLoop :
    (workers : List (Text → Bool)) (proxy_protocol : Bool) (l l' : Loop) (e : Event)
    → IsLoop l
    → serve workers proxy_protocol l e ≡ ok l'
    → IsLoop l'
unfolding serve
serve-IsLoop workers proxy_protocol l l' (accepted fileno) a h =
    let same : l'.connections ≡ insert fileno new_connection l.connections = ground arith in
    rw same (insert-All IsWaiting fileno new_connection l.connections (λ f. (refl, omega arith)) a)
serve-IsLoop workers proxy_protocol l l' accept_failed a h =
    let same : l'.connections ≡ l.connections = ground arith in rw same a
serve-IsLoop workers proxy_protocol l l' (readable fileno received) a h =
    let (client, there, served) =
      >>=-eq-ok (or_raise (lookup fileno l.connections) key_error) _ h in
    let found : lookup fileno l.connections ≡ some client = ground arith in
    let (f, waits) = lookup-All IsWaiting fileno l.connections client found a in
    serve_data-IsLoop fileno l l' (record client { stale = 0 }) _ a waits.0 refl
      (process-Settled workers proxy_protocol (record client { stale = 0 }) l.turns received) served
serve-IsLoop workers proxy_protocol l l' (hung_up fileno) a h =
    let (client, there, served) =
      >>=-eq-ok (or_raise (lookup fileno l.connections) key_error) _ h in
    let same : l'.connections ≡ remove fileno l.connections = ground arith in
    rw same (remove-All IsWaiting fileno l.connections a)

serve_all-IsLoop :
    (workers : List (Text → Bool)) (proxy_protocol : Bool) (l l' : Loop) (es : List Event)
    → IsLoop l
    → serve_all workers proxy_protocol l es ≡ ok l'
    → IsLoop l'
unfolding serve_all
serve_all-IsLoop workers proxy_protocol l l' [] a h = let same : l ≡ l' = cc in subst IsLoop same a
serve_all-IsLoop workers proxy_protocol l l' (e ∷ es) a h =
    let (m, served, rest) = >>=-eq-ok (serve workers proxy_protocol l e) _ h in
    serve_all-IsLoop workers proxy_protocol m l' es
      (serve-IsLoop workers proxy_protocol l m e a served) rest

-- A round of the loop that raises nothing leaves open connections only, none of them idle for more
-- than 30 rounds, whatever its events, where this held before.
pub turn-IsLoop :
    (workers : List (Text → Bool)) (proxy_protocol : Bool) (l l' : Loop) (es : List Event)
    → IsLoop l
    → turn workers proxy_protocol l es ≡ ok l'
    → IsLoop l'
unfolding turn
turn-IsLoop workers proxy_protocol l l' es a h =
    let (m, served, rest) = >>=-eq-ok (serve_all workers proxy_protocol l es) _ h in
    let same : l'.connections ≡ sweep m.connections = ground arith in
    rw same
      (sweep-IsWaiting m.connections (serve_all-IsLoop workers proxy_protocol l m es a served))

-- The rounds in which nothing arrives.
unfoldable pub idle_turns : ℕ → List (Text → Bool) → Bool → Loop → Result Loop
idle_turns zero workers proxy_protocol l = ok l
idle_turns (suc n) workers proxy_protocol l =
    turn workers proxy_protocol l [] >>= idle_turns n workers proxy_protocol
