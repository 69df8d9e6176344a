-- ===== src/Queue/Multi/Gets.antt =====
-- What a get does: it never fails on a queue that keeps the invariant, and serves the first channel.
use snitun.Prelude.{
  ℕ, ◌≡◌, refl, ◌∙◌, ap, false, not, ◌&&◌, Option, none, some, List, [], ◌∷◌, ◌++◌, arith, ◌==◌,
  if◌then◌else◌, ==_iff, Option-cases, List-cases, inl, inr, ◌⊎◌, subst,
}
use snitun.Exceptions.{ok, err, queue_empty, key_error, or_raise, ◌>>=◌}
use snitun.Message.{ChannelId}
use snitun.Queue.Items.{Item}
use snitun.Queue.Multi.State.{
  MultiQueue, Event, enlist, contains, is_empty, get_item, get_first, get_channel_id, get_nowait,
}
use snitun.Queue.Multi.Contents.{
  contents, contents_of, contents_missing, contents-get_item, Distinct,
}
use snitun.Queue.Multi.Invariant.{IsQueue, get_item-IsQueue}
use snitun.Queue.Multi.Puts.{Tells}

-- What a get that succeeds does: `id` was first, and goes to the end if it has more to send.
pub record Served (q : MultiQueue) (id ref : ℕ) (item : Item) (items : List Item)
    (rest : List ChannelId) (q' : MultiQueue) (event : Event) : Type 0 where
  pub first : q.order ≡ id ∷ rest
  pub oldest : contents q id ≡ item ∷ items
  pub removed : (j : ChannelId) → contents q' j ≡ (if id == j then items else contents q j)
  pub in_turn : q'.order ≡ (if is_empty items then rest else rest ++ id ∷ [])
  pub told : Tells id event (q.heap ref).under_water (q'.heap ref).under_water
  pub dropped :
      q'.channels id ≡ (if is_empty items && (q.heap ref).pending_close then none else some ref)
  pub valid : IsQueue q'

-- The outcomes of `get_nowait`.
abbrev pub Serves : MultiQueue → Type 0
Serves q =
    ((q.order ≡ []) × (get_nowait q ≡ err queue_empty))
    ⊎ ((id ref : ℕ) × (item : Item) × (items : List Item) × (rest : List ChannelId)
        × (q' : MultiQueue) × (event : Event) × (get_nowait q ≡ ok (item, q', event))
        × Served q id ref item items rest q' event)

module _ (q : MultiQueue) (v : IsQueue q) where
  enlist_last :
      (id : ChannelId) (rest : List ChannelId)
      → contains id rest ≡ false
      → enlist rest id ≡ rest ++ id ∷ []
  unfolding enlist
  enlist_last id rest e = rw e

  get_item-Served :
      (id ref : ℕ) (rest : List ChannelId) (item : Item) (items : List Item)
      → q.order ≡ id ∷ rest
      → q.channels id ≡ some ref
      → (q.heap ref).queue ≡ item ∷ items
      → Served q id ref item items rest
          (get_item q id ref rest item items).0
          (get_item q id ref rest item items).1
  get_item-Served id ref rest item items front found head = record {
    first = front;
    oldest = contents_of q id ref found ∙ head;
    removed = λ j. contents-get_item q id ref rest item items j v.distinct found;
    in_turn =
        unfold get_item in ground (arith, enlist_last id rest (subst Distinct front v.once).0);
    told = unfold get_item in ground arith;
    dropped = unfold get_item in ground arith;
    valid = get_item-IsQueue q v id ref rest item items front found head;
  }

  has_message :
      (id : ChannelId) (rest : List ChannelId)
      → q.order ≡ id ∷ rest
      → (ref : ℕ) × (item : Item) × (items : List Item) × (q.channels id ≡ some ref)
        × ((q.heap ref).queue ≡ item ∷ items)
  has_message id rest front = elim (Option-cases (q.channels id)) [
    | inl n ↦ absurd (lost [] (contents_missing q id n) refl)
    | inr (ref, e) ↦ elim (List-cases (q.heap ref).queue) [
      | inl n ↦ absurd (lost [] (contents_of q id ref e ∙ n) refl)
      | inr (item, items, c) ↦ (ref, item, items, e, c)
    ]
  ]
    where
      lost : (xs : List Item) → contents q id ≡ xs → xs ≡ [] → ⊥
      lost xs e n =
          let a : contains id (id ∷ rest) ≡ not (is_empty (contents q id)) =
            subst (λ (o : List ChannelId). contains id o ≡ not (is_empty (contents q id))) front
              (v.listed id) in
          let b : contents q id ≡ [] = e ∙ n in
          unfold contains is_empty in ground (arith, a, b, ==_iff id id)

  get_nowait-eq :
      (id ref : ℕ) (rest : List ChannelId) (item : Item) (items : List Item)
      → q.order ≡ id ∷ rest
      → q.channels id ≡ some ref
      → (q.heap ref).queue ≡ item ∷ items
      → get_nowait q
        ≡ ok (item, (get_item q id ref rest item items).0, (get_item q id ref rest item items).1)
  unfolding get_nowait get_channel_id get_first
  get_nowait-eq id ref rest item items front found head =
      ap (get_channel_id q) front
      ∙ ap (λ (o : Option ℕ). or_raise o key_error >>= λ r. get_first q id r rest (q.heap r).queue)
          found
      ∙ ap (get_first q id ref rest) head

  pub get_nowait_lem : Serves q
  get_nowait_lem = elim (List-cases q.order) [
    | inl n ↦ inl (n, unfold get_nowait in rw (n, get_channel_id))
    | inr (id, rest, front) ↦
        let (ref, item, items, found, head) = has_message id rest front in
        inr (
          id,
          ref,
          item,
          items,
          rest,
          (get_item q id ref rest item items).0,
          (get_item q id ref rest item items).1,
          get_nowait-eq id ref rest item items front found head,
          get_item-Served id ref rest item items front found head,
        )
  ]
