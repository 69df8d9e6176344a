-- ===== src/Queue/Multi/Live.antt =====
-- Channels that are there and not about to be dropped, and that the operations keep them.
use snitun.Prelude.{
  ℕ, ◌≡◌, false, none, some, List, arith, ==_iff, Bool-cases, Option-cases, inl, inr, ◌⊎◌, ◌≢◌,
}
use snitun.Exceptions.{ok, err, queue_full}
use snitun.Message.{ChannelId}
use snitun.Queue.Items.{Item}
use snitun.Queue.Multi.State.{
  MultiQueue, Event, add_channel, delete_channel, put_item, get_item, is_full, put_nowait,
  put_nowait_force,
}
use snitun.Queue.Multi.Contents.{AreDistinct}
use snitun.Queue.Multi.Invariant.{IsQueue}
use snitun.Queue.Multi.Puts.{put_item-Put}

abbrev pub IsLive : MultiQueue → ChannelId → Type 0
IsLive q id = (ref : ℕ) × (q.channels id ≡ some ref) × ((q.heap ref).pending_close ≡ false)

pub IsLive-put_item :
    (q : MultiQueue) (id ref : ℕ) (item : Item) (j : ChannelId)
    → IsLive q j
    → IsLive (put_item q id ref item).0 j
unfolding put_item
IsLive-put_item q id ref item j (r, e, n) = (r, e, ground arith)

pub IsLive-add_channel :
    (q : MultiQueue) (id j : ChannelId)
    → IsQueue q
    → q.channels id ≡ none
    → IsLive q j
    → IsLive (add_channel q id) j
IsLive-add_channel q id j v m (r, e, n) = (r, ground arith, ground (arith, v.fresh j r e))

pub IsLive-add_channel_self : (q : MultiQueue) (id : ChannelId) → IsLive (add_channel q id) id
IsLive-add_channel_self q id = (q.next_ref, ground arith, ground arith)

pub IsLive-delete_channel :
    (q : MultiQueue) (id j : ChannelId)
    → AreDistinct q
    → id ≢ j
    → IsLive q j
    → IsLive (delete_channel q id) j
unfolding delete_channel
IsLive-delete_channel q id j d ne (r, e, n) = elim (Option-cases (q.channels id)) [
  | inl m ↦ (r, ground arith, ground arith)
  | inr (t, u) ↦ (r, ground (arith, ==_iff id j), ground (arith, d id j r))
]

pub IsLive-get_item :
    (q : MultiQueue) (id ref : ℕ) (rest : List ChannelId) (item : Item) (items : List Item)
    (j : ChannelId)
    → AreDistinct q
    → q.channels id ≡ some ref
    → IsLive q j
    → IsLive (get_item q id ref rest item items).0 j
unfolding get_item
IsLive-get_item q id ref rest item items j d f (r, e, n) =
    (r, ground (arith, ==_iff id j), ground (arith, d id j r))

-- A step of the queue: it keeps the invariant, and every live channel.
pub record Keeps (q q' : MultiQueue) : Type 0 where
  pub valid : IsQueue q'
  pub live : (j : ChannelId) → IsLive q j → IsLive q' j

pub Keeps-refl : (q : MultiQueue) → IsQueue q → Keeps q q
Keeps-refl q v = record { valid = v; live = λ j h. h }

pub Keeps-trans : {q r s : MultiQueue} → Keeps q r → Keeps r s → Keeps q s
Keeps-trans a b = record { valid = b.valid; live = λ j h. b.live j (a.live j h) }

module _ (q : MultiQueue) (v : IsQueue q) (id : ChannelId) (live : IsLive q id) (item : Item) where
  -- On a live channel a put is made or the queue is full, and a forced put is made.
  pub put_nowait_live :
      (put_nowait q id item ≡ err queue_full)
      ⊎ ((q' : MultiQueue) × (event : Event) × (put_nowait q id item ≡ ok (q', event)) × Keeps q q')
  unfolding put_nowait
  put_nowait_live =
      let (ref, e, n) = live in
      elim (Bool-cases (is_full q ref item)) [
        | inl f ↦ inl (rw (e, put_nowait) (rw f))
        | inr f ↦ inr (
          (put_item q id ref item).0,
          (put_item q id ref item).1,
          rw (e, put_nowait) (rw f),
          record {
            valid = (put_item-Put q v id item ref e).valid;
            live = IsLive-put_item q id ref item;
          },
        )
      ]

  pub put_nowait_force_live :
      (q' : MultiQueue) × (event : Event) × (put_nowait_force q id item ≡ ok (q', event))
      × Keeps q q'
  unfolding put_nowait_force
  put_nowait_force_live =
      let (ref, e, n) = live in
      (
        (put_item q id ref item).0,
        (put_item q id ref item).1,
        rw (e, put_nowait_force),
        record {
          valid = (put_item-Put q v id item ref e).valid;
          live = IsLive-put_item q id ref item;
        },
      )
