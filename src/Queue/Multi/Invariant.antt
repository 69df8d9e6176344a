-- ===== src/Queue/Multi/Invariant.antt =====
-- The invariant of the multi channel queue, and that the operations keep it.
use snitun.Prelude.{
  ℕ, ◌<◌, ◌≡◌, refl, true, not, ◌||◌, none, some, List, [], ◌∷◌, arith, ◌==◌, ==_iff, Bool-cases,
  Option-cases, inl, inr, ◌⊎◌, ap, subst,
}
use snitun.Exceptions.{ok, err, runtime_error}
use snitun.Message.{ChannelId}
use snitun.Queue.Items.{
  Item, effective_size, total_size, total_size-append, total_size-cons, IsWatered, IsWatered-put,
  IsWatered-get,
}
use snitun.Queue.Multi.State.{
  MultiQueue, ChannelQueue, new, update, contains, enlist, is_empty, put_item, get_item,
  put_channel, get_channel, create_channel, add_channel, delete_channel, new_channel,
}
use snitun.Queue.Multi.Contents.{
  contents, AreDistinct, Distinct, contains-enlist, Distinct-enlist, contents-put_item,
  contents-get_item, is_empty-append, is_empty→nil,
}

-- An object counts its bytes and is on the right side of the water marks.
pub record IsChannel (low high : ℕ) (c : ChannelQueue) : Type 0 where
  pub accounted : c.total_bytes ≡ total_size c.queue
  pub watered : IsWatered low high c.total_bytes c.under_water

pub record IsQueue (q : MultiQueue) : Type 0 where
  pub marks : q.channel_low_water_mark < q.channel_high_water_mark
  pub objects :
      (ref : ℕ) → IsChannel q.channel_low_water_mark q.channel_high_water_mark (q.heap ref)
  pub fresh : (id ref : ℕ) → q.channels id ≡ some ref → ref < q.next_ref
  pub distinct : AreDistinct q
  -- The order lists exactly the channels that have a message, each once.
  pub listed : (id : ChannelId) → contains id q.order ≡ not (is_empty (contents q id))
  pub once : Distinct q.order

update_all {ℓ κ} :
    {A : Type ℓ} (P : A → Type κ) (f : ℕ → A) (k : ℕ) (v : A)
    → ((r : ℕ) → P (f r))
    → P v
    → (r : ℕ) → P (update f k v r)
update_all P f k v h hv r = elim (Bool-cases (k == r)) [ inl e ↦ rw e hv | inr e ↦ rw e (h r) ]

pub new_channel-IsChannel : (low high : ℕ) → low < high → IsChannel low high new_channel
unfolding total_size
new_channel-IsChannel low high h = record {
  accounted = refl;
  watered = record { above = λ e. omega arith; below = λ e. cc };
}

pub new-IsQueue : (limit low high : ℕ) → low < high → IsQueue (new limit low high)
unfolding contents contains is_empty
new-IsQueue limit low high h = record {
  marks = h;
  objects = λ ref. new_channel-IsChannel low high h;
  fresh = λ id ref e. cc;
  distinct = λ i j ref e f. cc;
  listed = λ id. refl;
  once = tt;
}

module _ (q : MultiQueue) (v : IsQueue q) where
  pub put_channel-IsChannel :
      (c : ChannelQueue) (item : Item)
      → IsChannel q.channel_low_water_mark q.channel_high_water_mark c
      → IsChannel q.channel_low_water_mark q.channel_high_water_mark (put_channel q c item)
  unfolding put_channel
  put_channel-IsChannel c item w = record {
    accounted = omega (arith, w.accounted, total_size-append c.queue item);
    watered = IsWatered-put _ _ _ (effective_size item) _ v.marks w.watered;
  }

  pub get_channel-IsChannel :
      (c : ChannelQueue) (item : Item) (items : List Item)
      → c.queue ≡ item ∷ items
      → IsChannel q.channel_low_water_mark q.channel_high_water_mark c
      → IsChannel q.channel_low_water_mark q.channel_high_water_mark (get_channel q c item items)
  unfolding get_channel
  get_channel-IsChannel c item items e w = record {
    accounted = omega (arith, w.accounted, ap total_size e, total_size-cons item items);
    watered = IsWatered-get _ _ _ (effective_size item) _ v.marks w.watered;
  }

  pub put_item-IsQueue :
      (id ref : ℕ) (item : Item) → q.channels id ≡ some ref → IsQueue (put_item q id ref item).0
  unfolding put_item
  put_item-IsQueue id ref item e = record {
    marks = v.marks;
    objects =
        update_all (IsChannel q.channel_low_water_mark q.channel_high_water_mark) q.heap ref _
          v.objects (put_channel-IsChannel (q.heap ref) item (v.objects ref));
    fresh = v.fresh;
    distinct = v.distinct;
    listed = λ j. put_listed j;
    once = Distinct-enlist id q.order v.once;
  }
    where
      put_listed :
          (j : ChannelId)
          → contains j (enlist q.order id) ≡ not (is_empty (contents (put_item q id ref item).0 j))
      put_listed j =
          rw (contains-enlist j id q.order, contents-put_item q id ref item j v.distinct e)
            (ground (arith, v.listed j, is_empty-append (contents q id) item))

  contents-add_channel :
      (id j : ℕ) → q.channels id ≡ none → contents (add_channel q id) j ≡ contents q j
  unfolding contents
  contents-add_channel id j n = elim (Option-cases (q.channels j)) [
    | inl m ↦ ground arith
    | inr (r, s) ↦ ground (arith, v.fresh j r s)
  ]

  add_channel-IsQueue : (id : ℕ) → q.channels id ≡ none → IsQueue (add_channel q id)
  add_channel-IsQueue id n = record {
    marks = v.marks;
    objects =
        update_all (IsChannel q.channel_low_water_mark q.channel_high_water_mark) q.heap q.next_ref
          _ v.objects (new_channel-IsChannel _ _ v.marks);
    fresh = λ j r e. ground (arith, v.fresh j r);
    distinct = λ i j r e f. ground (arith, v.fresh i r, v.fresh j r, v.distinct i j r);
    listed = λ j. rw (contents-add_channel id j n) (v.listed j);
    once = v.once;
  }

  -- A new channel raises if the id is taken, and otherwise is empty and keeps the invariant.
  pub create_channel_lem :
      (id : ℕ)
      → ((ref : ℕ) × (q.channels id ≡ some ref) × (create_channel q id ≡ err runtime_error))
        ⊎ ((q.channels id ≡ none)
            × (create_channel q id ≡ ok (add_channel q id))
            × IsQueue (add_channel q id))
  unfolding create_channel
  create_channel_lem id = elim (Option-cases (q.channels id)) [
    | inl n ↦ inr (n, rw (n, create_channel), add_channel-IsQueue id n)
    | inr (r, s) ↦ inl (r, s, rw (s, create_channel))
  ]

  abbrev mark_closing : ℕ → MultiQueue
  mark_closing ref = record q {
    heap = update q.heap ref (record (q.heap ref) { pending_close = true });
  }

  abbrev drop_channel : ℕ → MultiQueue
  drop_channel id = record q { channels = update q.channels id none }

  contents-mark_closing : (ref j : ℕ) → contents (mark_closing ref) j ≡ contents q j
  unfolding contents
  contents-mark_closing ref j = ground arith

  contents-drop_channel :
      (id ref j : ℕ)
      → q.channels id ≡ some ref
      → (q.heap ref).queue ≡ []
      → contents (drop_channel id) j ≡ contents q j
  unfolding contents
  contents-drop_channel id ref j e n = elim (Option-cases (q.channels j)) [
    | inl m ↦ ground arith
    | inr (t, u) ↦ ground (arith, v.distinct id j ref e, ==_iff id j)
  ]

  mark_closing-IsQueue : (ref : ℕ) → IsQueue (mark_closing ref)
  mark_closing-IsQueue ref = record {
    marks = v.marks;
    objects =
        update_all (IsChannel q.channel_low_water_mark q.channel_high_water_mark) q.heap ref _
          v.objects
          (record { accounted = (v.objects ref).accounted; watered = (v.objects ref).watered });
    fresh = v.fresh;
    distinct = v.distinct;
    listed = λ j. rw (contents-mark_closing ref j) (v.listed j);
    once = v.once;
  }

  drop_channel-IsQueue :
      (id ref : ℕ) → q.channels id ≡ some ref → (q.heap ref).queue ≡ [] → IsQueue (drop_channel id)
  drop_channel-IsQueue id ref e n = record {
    marks = v.marks;
    objects = v.objects;
    fresh = λ j r s. ground (arith, v.fresh j r);
    distinct = λ i j r s t. ground (arith, v.distinct i j r);
    listed = λ j. rw (contents-drop_channel id ref j e n) (v.listed j);
    once = v.once;
  }

  pub delete_channel-IsQueue : (id : ℕ) → IsQueue (delete_channel q id)
  unfolding delete_channel
  delete_channel-IsQueue id = elim (Option-cases (q.channels id)) [
    | inl n ↦ rw (n, delete_channel) v
    | inr (ref, e) ↦ elim (Bool-cases (is_empty (q.heap ref).queue)) [
      | inl n ↦ rw (e, delete_channel) (rw n (drop_channel-IsQueue id ref e (is_empty→nil _ n)))
      | inr n ↦ rw (e, delete_channel) (rw n (mark_closing-IsQueue ref))
    ]
  ]

  module _ (id ref : ℕ) (rest : List ChannelId) (item : Item) (items : List Item)
      (front : q.order ≡ id ∷ rest) (found : q.channels id ≡ some ref)
      (head : (q.heap ref).queue ≡ item ∷ items) where
    abbrev served : MultiQueue
    served = (get_item q id ref rest item items).0

    front_once : Distinct (id ∷ rest)
    front_once = subst Distinct front v.once

    served-objects :
        (r : ℕ) → IsChannel q.channel_low_water_mark q.channel_high_water_mark (served.heap r)
    unfolding get_item
    served-objects =
        update_all (IsChannel q.channel_low_water_mark q.channel_high_water_mark) q.heap ref _
          v.objects
          (let w = get_channel-IsChannel (q.heap ref) item items head (v.objects ref) in
            record { accounted = w.accounted; watered = w.watered })

    listed_before : (j : ChannelId) → (id == j || contains j rest) ≡ not (is_empty (contents q j))
    unfolding contains
    listed_before j =
        subst (λ (o : List ChannelId). contains j o ≡ not (is_empty (contents q j))) front
          (v.listed j)

    served-listed : (j : ChannelId) → contains j served.order ≡ not (is_empty (contents served j))
    served-listed j = rw (contents-get_item q id ref rest item items j v.distinct found) (
        unfold get_item in
        ground (arith, contains-enlist j id rest, listed_before j, front_once.0, ==_iff id j))

    pub get_item-IsQueue : IsQueue served
    get_item-IsQueue = record {
      marks = unfold get_item in v.marks;
      objects = unfold get_item in served-objects;
      fresh = λ j r e. unfold get_item in ground (arith, v.fresh j r);
      distinct = λ i j r e f. unfold get_item in ground (arith, v.distinct i j r);
      listed = served-listed;
      once = unfold get_item in ground (arith, front_once.1, Distinct-enlist id rest front_once.1);
    }
