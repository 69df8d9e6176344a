-- ===== src/Queue/Single/Laws.antt =====
-- The single channel queue: its accounts, its bound, its callbacks, and its order.
use snitun.Prelude.{
  ℕ, ◌+◌, ◌-◌, ◌≤◌, ◌<◌, ◌≡◌, refl, Bool, true, false, ◌⊎◌, inl, inr, Option, none, some, List, [],
  ◌∷◌, ◌++◌, arith, ◌≢◌, Bool-cases, ap, ◌∙◌,
}
use snitun.Exceptions.{ok, err, queue_full, queue_empty}
use snitun.Queue.Items.{
  Item, effective_size, total_size, total_size-append, total_size-cons, sinks, IsWatered, Reports,
  IsWatered-put, IsWatered-get, Reports-put, Reports-get,
}
use snitun.Queue.Single.{SingleQueue, new, put, get, put_nowait, get_first, get_nowait, full}

pub record IsQueue (q : SingleQueue) : Type 0 where
  pub marks : q.low_water_mark < q.high_water_mark
  pub accounted : q.total_bytes ≡ total_size q.queue
  pub watered : IsWatered q.low_water_mark q.high_water_mark q.total_bytes q.under_water

pub new-IsQueue : (maxsize low high : ℕ) → low < high → IsQueue (new maxsize low high)
unfolding total_size
new-IsQueue maxsize low high h = record {
  marks = h;
  accounted = refl;
  watered = record { above = λ e. omega arith; below = λ e. cc };
}

at_room : (q : SingleQueue) → q.maxsize ≢ 0 → full q ≡ false → q.total_bytes < q.maxsize
unfolding full
at_room q limited e = ground arith

-- What a successful put does to a queue.
pub record Put (q : SingleQueue) (item : Item) (q' : SingleQueue) (event : Option Bool)
    : Type 0 where
  pub valid : IsQueue q'
  pub appended : q'.queue ≡ q.queue ++ item ∷ []
  pub reported : Reports q.under_water event q'.under_water
  pub bounded : q.maxsize ≢ 0 → q'.total_bytes < q.maxsize + effective_size item

put-Put :
    (q : SingleQueue) (item : Item)
    → IsQueue q
    → full q ≡ false
    → Put q item (put q item).0 (put q item).1
unfolding put
put-Put q item v e = record {
  valid = record {
    marks = v.marks;
    accounted = omega (arith, v.accounted, total_size-append q.queue item);
    watered = IsWatered-put _ _ _ (effective_size item) _ v.marks v.watered;
  };
  appended = refl;
  reported = Reports-put q.under_water (q.total_bytes + effective_size item) q.high_water_mark;
  bounded = λ limited. omega (arith, at_room q limited e);
}

-- A put on a full queue raises, and any other appends the item, keeps the accounts and the water
-- marks, calls back exactly on a change, and goes over a non-zero limit by less than the item.
pub put_nowait_lem :
    (q : SingleQueue) (item : Item)
    → IsQueue q
    → ((full q ≡ true) × (put_nowait q item ≡ err queue_full))
      ⊎ ((q' : SingleQueue) × (event : Option Bool) × (put_nowait q item ≡ ok (q', event))
          × Put q item q' event)
unfolding put_nowait
put_nowait_lem q item v = elim (Bool-cases (full q)) [
  | inl e ↦ inl (e, rw e)
  | inr e ↦ inr ((put q item).0, (put q item).1, rw e, put-Put q item v e)
]

-- What a successful get does to a queue.
pub record Get (q : SingleQueue) (item : Item) (q' : SingleQueue) (event : Option Bool)
    : Type 0 where
  pub valid : IsQueue q'
  pub removed : q.queue ≡ item ∷ q'.queue
  pub reported : Reports q.under_water event q'.under_water

get-Get :
    (q : SingleQueue) (item : Item) (items : List Item)
    → IsQueue q
    → q.queue ≡ item ∷ items
    → Get q item (get q item items).0 (get q item items).1
unfolding get
get-Get q item items v e = record {
  valid = record {
    marks = v.marks;
    accounted = omega (arith, v.accounted, ap total_size e, total_size-cons item items);
    watered = IsWatered-get _ _ _ (effective_size item) _ v.marks v.watered;
  };
  removed = e;
  reported = Reports-get q.under_water (q.total_bytes - effective_size item) q.low_water_mark;
}

get_first_lem :
    (q : SingleQueue) (xs : List Item)
    → IsQueue q
    → q.queue ≡ xs
    → ((xs ≡ []) × (get_first q xs ≡ err queue_empty))
      ⊎ ((item : Item) × (q' : SingleQueue) × (event : Option Bool) × (get_first q xs
            ≡ ok (item, q', event))
          × Get q item q' event)
unfolding get_first
get_first_lem q [] v e = inl (refl, refl)
get_first_lem q (item ∷ items) v e =
    inr (item, (get q item items).0, (get q item items).1, refl, get-Get q item items v e)

-- A get on an empty queue raises, and any other takes the oldest item, keeps the accounts and the
-- water marks, and calls back exactly on a change.
pub get_nowait_lem :
    (q : SingleQueue)
    → IsQueue q
    → ((q.queue ≡ []) × (get_nowait q ≡ err queue_empty))
      ⊎ ((item : Item) × (q' : SingleQueue) × (event : Option Bool) × (get_nowait q
            ≡ ok (item, q', event))
          × Get q item q' event)
unfolding get_nowait
get_nowait_lem q v = get_first_lem q q.queue v refl

-- A get of a queue that has an item, whatever the accounts: a queue above water calls nothing back.
pub get_nowait_first :
    (q : SingleQueue) (item : Item) (items : List Item)
    → q.queue ≡ item ∷ items
    → (q' : SingleQueue) × (event : Option Bool) × (get_nowait q ≡ ok (item, q', event))
      × (q'.queue ≡ items)
      × (q.under_water ≡ false → (event ≡ none) × (q'.under_water ≡ false))
unfolding get_nowait
get_nowait_first q item items e = (
  (get q item items).0,
  (get q item items).1,
  ap (get_first q) e,
  refl,
  λ u. (ground arith, ground arith),
)

-- A get that brings the queue up to its low mark calls back.
pub get_nowait_rises :
    (q : SingleQueue) (item : Item) (items : List Item)
    → q.queue ≡ item ∷ items
    → q.under_water ≡ true
    → q.total_bytes - effective_size item ≤ q.low_water_mark
    → (q' : SingleQueue) × (get_nowait q ≡ ok (item, q', some false)) × (q'.queue ≡ items)
unfolding get_nowait
get_nowait_rises q item items e u h =
    ((get q item items).0, ap (get_first q) e ∙ unfold get_first get in ground arith, refl)

-- The end mark never calls back.
pub put_nowait_end :
    (q : SingleQueue)
    → IsQueue q
    → (put_nowait q none ≡ err queue_full)
      ⊎ ((q' : SingleQueue) × (put_nowait q none ≡ ok (q', none))
          × IsQueue q'
          × (q'.queue ≡ q.queue ++ none ∷ [])
          × (q'.under_water ≡ q.under_water))
unfolding put_nowait
put_nowait_end q v = elim (Bool-cases (full q)) [
  | inl e ↦ inl (rw e)
  | inr e ↦ inr (
    (put q none).0,
    rw e (ap (λ (event : Option Bool). ok ((put q none).0, event)) no_call),
    (put-Put q none v e).valid,
    (put-Put q none v e).appended,
    still,
  )
]
  where
    no_call : (put q none).1 ≡ none
    no_call = unfold put effective_size sinks in ground (arith, v.watered.above)

    still : (put q none).0.under_water ≡ q.under_water
    still = unfold put effective_size sinks in ground (arith, v.watered.above)
