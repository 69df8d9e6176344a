-- ===== src/Queue/Multi/Dropped.antt =====
-- Puts that waited: on a channel that is still there, and on one that was dropped meanwhile.
use snitun.Prelude.{
  ℕ, ◌+◌, ◌≡◌, refl, true, false, none, some, [], ◌∷◌, ◌++◌, arith, ◌==◌, Bool-cases, inl, inr, ◌⊎◌,
}
use snitun.Exceptions.{err, key_error}
use snitun.Message.{ChannelId}
use snitun.Queue.Items.{Item}
use snitun.Queue.Multi.State.{
  MultiQueue, Event, update, enlist, contains, put_item, is_full, get_nowait,
}
use snitun.Queue.Multi.Tasks.{PutTask, finished, waiting, put_loop, resume_put}
use snitun.Queue.Multi.Contents.{contents}
use snitun.Queue.Multi.Invariant.{IsQueue, IsChannel}
use snitun.Queue.Multi.Puts.{Put, put_item-Put}

-- A put that waits changes nothing but the putters of its channel, behind which it stands.
pub record Waits (q : MultiQueue) (id ref : ℕ) (item : Item) (q' : MultiQueue) (t : PutTask)
    : Type 0 where
  pub valid : IsQueue q'
  pub same_contents : (j : ChannelId) → contents q' j ≡ contents q j
  pub same_order : q'.order ≡ q.order
  pub task : t ≡ record { id = id; ref = ref; item = item; putter = q.next_future }
  pub queued : (q'.heap ref).putters ≡ (q.heap ref).putters ++ t.putter ∷ []

abbrev queue_putter : MultiQueue → ℕ → MultiQueue
queue_putter q ref = record q {
  heap =
      update q.heap ref
        (record (q.heap ref) { putters = (q.heap ref).putters ++ q.next_future ∷ [] });
  next_future = q.next_future + 1;
}

module _ (q : MultiQueue) (v : IsQueue q) where
  putter-IsQueue : (ref : ℕ) → IsQueue (queue_putter q ref)
  putter-IsQueue ref = record {
    marks = v.marks;
    objects = λ r. objects r;
    fresh = v.fresh;
    distinct = v.distinct;
    listed = λ j. rw (same j) (v.listed j);
    once = v.once;
  }
    where
      objects :
          (r : ℕ)
          → IsChannel q.channel_low_water_mark q.channel_high_water_mark
              ((queue_putter q ref).heap r)
      objects r = elim (Bool-cases (ref == r)) [
        | inl e ↦
            rw e
              (record { accounted = (v.objects ref).accounted; watered = (v.objects ref).watered })
        | inr e ↦ rw e (v.objects r)
      ]

      same : (j : ChannelId) → contents (queue_putter q ref) j ≡ contents q j
      same j = unfold contents in ground arith

  same_contents : (ref j : ℕ) → contents (queue_putter q ref) j ≡ contents q j
  unfolding contents
  same_contents ref j = ground arith

  putter-Waits :
      (id ref : ℕ) (item : Item)
      → Waits q id ref item
          (queue_putter q ref)
          (record { id = id; ref = ref; item = item; putter = q.next_future })
  putter-Waits id ref item = record {
    valid = putter-IsQueue ref;
    same_contents = same_contents ref;
    same_order = refl;
    task = refl;
    queued = ground arith;
  }

  -- The loop of `put` on the object of a channel that is there: it waits while the item does not
  -- fit, and otherwise puts it. This is the first round of a put and each later one.
  pub put_loop_lem :
      (id ref : ℕ) (item : Item)
      → q.channels id ≡ some ref
      → ((is_full q ref item ≡ true)
          × (q' : MultiQueue) × (t : PutTask) × (put_loop q id ref item ≡ waiting q' t)
          × Waits q id ref item q' t)
        ⊎ ((is_full q ref item ≡ false)
            × (q' : MultiQueue) × (event : Event) × (put_loop q id ref item ≡ finished q' event)
            × Put q id ref item q' event)
  unfolding put_loop
  put_loop_lem id ref item e = elim (Bool-cases (is_full q ref item)) [
    | inl f ↦ inl (
      f,
      queue_putter q ref,
      record { id = id; ref = ref; item = item; putter = q.next_future },
      rw f,
      putter-Waits id ref item,
    )
    | inr f ↦ inr (
      f,
      (put_item q id ref item).0,
      (put_item q id ref item).1,
      rw f,
      put_item-Put q v id item ref e,
    )
  ]

-- A putter that wakes up after its channel was dropped, where its item fits the channel's object,
-- puts the item on this object, which no get finds: on an otherwise empty queue the next get raises
-- KeyError.
pub resume_put_dropped :
    (q : MultiQueue) (t : PutTask)
    → q.order ≡ []
    → q.channels t.id ≡ none
    → is_full q t.ref t.item ≡ false
    → (q' : MultiQueue) × (event : Event) × (resume_put q t ≡ finished q' event)
      × (get_nowait q' ≡ err key_error)
unfolding resume_put
resume_put_dropped q t o n f = (
  (put_item q t.id t.ref t.item).0,
  (put_item q t.id t.ref t.item).1,
  rw f,
  unfold get_nowait put_item enlist contains in rw o (rw n),
)
