-- ===== src/Queue/Multi/Turns.antt =====
-- Runs of the operations: the invariant is kept, and no channel is starved.
use snitun.Prelude.{
  ℕ, ◌+◌, ◌≡◌, refl, sym, ◌∙◌, ap, false, List, [], ◌∷◌, ◌++◌, arith, ◌==◌, if◌then◌else◌, length,
  Bool-cases, inl, inr, ◌⊎◌, append_assoc, append-nil,
}
use snitun.Exceptions.{Result, ok, err}
use snitun.Message.{ChannelId}
use snitun.Queue.Items.{Item}
use snitun.Queue.Multi.State.{
  MultiQueue, Event, enlist, contains, is_empty, create_channel, add_channel, delete_channel,
  put_nowait, put_nowait_force, get_nowait,
}
use snitun.Queue.Multi.Invariant.{IsQueue, create_channel_lem, delete_channel-IsQueue}
use snitun.Queue.Multi.Puts.{Put, put_nowait_lem, put_nowait_force_lem}
use snitun.Queue.Multi.Gets.{Served, get_nowait_lem}

pub data Op : Type 0 where
  creates deletes : ChannelId → Op
  puts forces : ChannelId → Item → Op
  gets : Op

-- An operation that raises leaves the queue as it was.
abbrev pub after {ℓ} : {A : Type ℓ} → MultiQueue → Result A → (A → MultiQueue) → MultiQueue
after q (ok a) f = f a
after q (err e) f = q

unfoldable pub step : MultiQueue → Op → MultiQueue
step q (creates id) = after q (create_channel q id) (λ q'. q')
step q (deletes id) = delete_channel q id
step q (puts id item) = after q (put_nowait q id item) (λ r. r.0)
step q (forces id item) = after q (put_nowait_force q id item) (λ r. r.0)
step q gets = after q (get_nowait q) (λ r. r.1)

unfoldable pub run : MultiQueue → List Op → MultiQueue
run q [] = q
run q (op ∷ ops) = run (step q op) ops

abbrev pub is_get : Op → ℕ
is_get gets = 1
is_get _ = 0

unfoldable pub count_gets : List Op → ℕ
count_gets [] = 0
count_gets (op ∷ ops) = is_get op + count_gets ops

-- What one operation does to the order: a get takes the first entry off, and at most one goes to the end.
abbrev Turns : MultiQueue → Op → MultiQueue → Type 0
Turns q op q' =
    (tail : List ChannelId) × ((k : ChannelId) (rest : List ChannelId)
      → q.order ≡ k ∷ rest
      → q'.order ≡ (if is_get op == 1 then rest else k ∷ rest) ++ tail)

enlist-append :
    (order : List ChannelId) (id : ChannelId)
    → (tail : List ChannelId) × (enlist order id ≡ order ++ tail)
unfolding enlist
enlist-append order id = elim (Bool-cases (contains id order)) [
  | inl e ↦ ([], rw e (sym (append-nil order)))
  | inr e ↦ (id ∷ [], rw e)
]

tail_eq : {a b : ChannelId} {xs ys : List ChannelId} → a ∷ xs ≡ b ∷ ys → xs ≡ ys
tail_eq e = cc

module _ (q : MultiQueue) (v : IsQueue q) where
  Steps : Op → Type 0
  Steps op = IsQueue (step q op) × Turns q op (step q op)

  Turns-same :
      (op : Op) (q' : MultiQueue) → (is_get op == 1) ≡ false → q'.order ≡ q.order → Turns q op q'
  Turns-same op q' n e = ([], λ k rest f. rw (n, append-nil (k ∷ rest)) (e ∙ f))

  Turns-Put :
      (op : Op) (id ref : ℕ) (item : Item) (q' : MultiQueue) (event : Event)
      → (is_get op == 1) ≡ false
      → Put q id ref item q' event
      → Turns q op q'
  Turns-Put op id ref item q' event n p =
      let (tail, e) = enlist-append q.order id in
      (tail, λ k rest f. rw n (p.in_turn ∙ e ∙ ap (λ (o : List ChannelId). o ++ tail) f))

  Turns-get :
      (id ref : ℕ) (item : Item) (items : List Item) (rest : List ChannelId) (q' : MultiQueue)
      (event : Event)
      → Served q id ref item items rest q' event
      → Turns q gets q'
  Turns-get id ref item items rest q' event s = elim (Bool-cases (is_empty items)) [
    | inl e ↦ ([], λ k r f. rw (append-nil r) (rw e at s.in_turn ∙ tail_eq (sym s.first ∙ f)))
    | inr e ↦ (
      id ∷ [],
      λ k r f.
          rw e at s.in_turn ∙ ap (λ (o : List ChannelId). o ++ id ∷ []) (tail_eq (sym s.first ∙ f)),
    )
  ]

  step_lem : (op : Op) → Steps op
  unfolding Steps step
  step_lem (creates id) = elim (create_channel_lem q v id) [
    | inl (ref, _, e) ↦ rw e (v, Turns-same (creates id) q refl refl)
    | inr (_, e, w) ↦ rw e (w, Turns-same (creates id) (add_channel q id) refl refl)
  ]
  step_lem (deletes id) = (
    delete_channel-IsQueue q v id,
    Turns-same (deletes id) (delete_channel q id) refl (unfold delete_channel in ground arith),
  )
  step_lem (puts id item) = elim (put_nowait_lem q v id item) [
    | inl (_, e) ↦ rw e (v, Turns-same (puts id item) q refl refl)
    | inr (ref, _, inl (_, e)) ↦ rw e (v, Turns-same (puts id item) q refl refl)
    | inr (ref, _, inr (q', event, e, p, _)) ↦
        rw e (p.valid, Turns-Put (puts id item) id ref item q' event refl p)
  ]
  step_lem (forces id item) = elim (put_nowait_force_lem q v id item) [
    | inl (_, e) ↦ rw e (v, Turns-same (forces id item) q refl refl)
    | inr (ref, _, q', event, e, p) ↦
        rw e (p.valid, Turns-Put (forces id item) id ref item q' event refl p)
  ]
  step_lem gets = elim (get_nowait_lem q v) [
    | inl (n, e) ↦ rw e (v, ([], λ k rest f. cc))
    | inr (id, ref, item, items, rest, q', event, e, s) ↦
        rw e (s.valid, Turns-get id ref item items rest q' event s)
  ]

step-IsQueue : (q : MultiQueue) (op : Op) → IsQueue q → IsQueue (step q op)
unfolding Steps
step-IsQueue q op v = (step_lem q v op).0

-- Every run of the queue's operations that do not wait keeps its invariant: the accounts, the water
-- marks, and an order that lists exactly the channels that have a message, each once.
pub run-IsQueue : (q : MultiQueue) (ops : List Op) → IsQueue q → IsQueue (run q ops)
unfolding run
run-IsQueue q [] v = v
run-IsQueue q (op ∷ ops) v = run-IsQueue (step q op) ops (step-IsQueue q op v)

-- One operation moves the channel up by a get, and keeps its place otherwise.
advance :
    (q : MultiQueue) (op : Op) (b : ChannelId) (rest : List ChannelId)
    → IsQueue q
    → q.order ≡ b ∷ rest
    → (tail : List ChannelId) × (is_get op ≡ 1 → (step q op).order ≡ rest ++ tail)
      × (is_get op ≡ 0 → (step q op).order ≡ (b ∷ rest) ++ tail)
unfolding Steps
advance q op b rest v e =
    let t = (step_lem q v op).1 in (t.0, λ g. rw g at (t.1 b rest e), λ g. rw g at (t.1 b rest e))

is_get-cases : (op : Op) → (is_get op ≡ 0) ⊎ (is_get op ≡ 1)
is_get-cases gets = inr refl
is_get-cases (creates _) = inl refl
is_get-cases (deletes _) = inl refl
is_get-cases (puts _ _) = inl refl
is_get-cases (forces _ _) = inl refl

-- On a queue with the invariant, a channel with messages is first after exactly as many gets as
-- there are channels before it, whatever operations that do not wait are called in between.
pub run-in_turn :
    (q : MultiQueue) (ops : List Op) (before after : List ChannelId) (id : ChannelId)
    → IsQueue q
    → q.order ≡ before ++ id ∷ after
    → count_gets ops ≡ length before
    → (rest : List ChannelId) × ((run q ops).order ≡ id ∷ rest)
unfolding run count_gets
run-in_turn q [] [] after id v e n = (after, e)
run-in_turn q [] (b ∷ bs) after id v e n = absurd (omega arith)
run-in_turn q (op ∷ ops) [] after id v e n =
    let (tail, _, keeps) = advance q op id after v e in
    run-in_turn (step q op) ops [] (after ++ tail) id (step-IsQueue q op v) (keeps (omega arith))
      (omega arith)
run-in_turn q (op ∷ ops) (b ∷ bs) after id v e n =
    let (tail, moves, keeps) = advance q op b (bs ++ id ∷ after) v e in
    elim (is_get-cases op) [
      | inr g ↦
          run-in_turn (step q op) ops bs (after ++ tail) id (step-IsQueue q op v)
            (moves g ∙ append_assoc bs (id ∷ after) tail) (omega arith)
      | inl g ↦
          run-in_turn (step q op) ops (b ∷ bs) (after ++ tail) id (step-IsQueue q op v)
            (keeps g ∙ append_assoc (b ∷ bs) (id ∷ after) tail) (omega arith)
    ]
