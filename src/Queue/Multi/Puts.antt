-- ===== src/Queue/Multi/Puts.antt =====
-- What the puts do: on a missing channel, on a full one, and otherwise.
use snitun.Prelude.{
  ℕ, ◌+◌, ◌≤◌, ◌≡◌, refl, Bool, true, false, not, none, some, [], ◌∷◌, ◌++◌, arith, ◌==◌,
  if◌then◌else◌, Bool-cases, Option-cases, inl, inr, ◌⊎◌,
}
use snitun.Exceptions.{ok, err, runtime_error, queue_full}
use snitun.Message.{ChannelId}
use snitun.Queue.Items.{Item, effective_size}
use snitun.Queue.Multi.State.{
  MultiQueue, Event, enlist, put_item, is_full, put_nowait, put_nowait_force,
}
use snitun.Queue.Multi.Contents.{contents, contents-put_item}
use snitun.Queue.Multi.Invariant.{IsQueue, put_item-IsQueue}

-- The callback of channel `id`, called exactly when the object goes under water or comes up.
abbrev pub Tells : ChannelId → Event → Bool → Bool → Type 0
Tells id none before after = after ≡ before
Tells id (some (j, under_water)) before after =
    (j ≡ id) × (before ≡ not under_water) × (after ≡ under_water)

-- What a put that succeeds does, with `ref` the object of the channel.
pub record Put (q : MultiQueue) (id ref : ℕ) (item : Item) (q' : MultiQueue) (event : Event)
    : Type 0 where
  pub valid : IsQueue q'
  pub appended :
      (j : ChannelId)
      → contents q' j ≡ (if id == j then contents q id ++ item ∷ [] else contents q j)
  pub in_turn : q'.order ≡ enlist q.order id
  pub told : Tells id event (q.heap ref).under_water (q'.heap ref).under_water
  pub counted : (q'.heap ref).total_bytes ≡ (q.heap ref).total_bytes + effective_size item
  pub same_channels : (j : ChannelId) → q'.channels j ≡ q.channels j

-- The outcomes of `put_nowait`.
abbrev pub Tries : MultiQueue → ChannelId → Item → Type 0
Tries q id item =
    ((q.channels id ≡ none) × (put_nowait q id item ≡ err runtime_error))
    ⊎ ((ref : ℕ) × (q.channels id ≡ some ref)
        × (((is_full q ref item ≡ true) × (put_nowait q id item ≡ err queue_full))
            ⊎ ((q' : MultiQueue) × (event : Event) × (put_nowait q id item ≡ ok (q', event))
                × Put q id ref item q' event
                × ((q'.heap ref).total_bytes ≤ q.channel_size_limit))))

-- The outcomes of `put_nowait_force`.
abbrev pub Forces : MultiQueue → ChannelId → Item → Type 0
Forces q id item =
    ((q.channels id ≡ none) × (put_nowait_force q id item ≡ err runtime_error))
    ⊎ ((ref : ℕ) × (q.channels id ≡ some ref)
        × (q' : MultiQueue) × (event : Event) × (put_nowait_force q id item ≡ ok (q', event))
        × Put q id ref item q' event)

module _ (q : MultiQueue) (v : IsQueue q) (id : ChannelId) (item : Item) where
  pub put_item-Put :
      (ref : ℕ)
      → q.channels id ≡ some ref
      → Put q id ref item (put_item q id ref item).0 (put_item q id ref item).1
  put_item-Put ref e = record {
    valid = put_item-IsQueue q v id ref item e;
    appended = λ j. contents-put_item q id ref item j v.distinct e;
    in_turn = unfold put_item in refl;
    told = unfold put_item in ground arith;
    counted = unfold put_item in ground arith;
    same_channels = λ j. unfold put_item in refl;
  }

  pub put_nowait_lem : Tries q id item
  unfolding put_nowait
  put_nowait_lem = elim (Option-cases (q.channels id)) [
    | inl n ↦ inl (n, rw (n, put_nowait))
    | inr (ref, e) ↦ inr (
      ref,
      e,
      elim (Bool-cases (is_full q ref item)) [
        | inl f ↦ inl (f, rw (e, put_nowait) (rw f))
        | inr r ↦ inr (
          (put_item q id ref item).0,
          (put_item q id ref item).1,
          rw (e, put_nowait) (rw r),
          put_item-Put ref e,
          within ref e r,
        )
      ],
    )
  ]
    where
      within :
          (ref : ℕ)
          → q.channels id ≡ some ref
          → is_full q ref item ≡ false
          → ((put_item q id ref item).0.heap ref).total_bytes ≤ q.channel_size_limit
      within ref e r = ground arith

  -- On a queue with the invariant, a forced put raises on a missing channel only, and otherwise the
  -- item goes to the end of its channel, which is in the order, whatever the limit.
  pub put_nowait_force_lem : Forces q id item
  unfolding put_nowait_force
  put_nowait_force_lem = elim (Option-cases (q.channels id)) [
    | inl n ↦ inl (n, rw (n, put_nowait_force))
    | inr (ref, e) ↦ inr (ref, e, _, _, rw (e, put_nowait_force), put_item-Put ref e)
  ]
