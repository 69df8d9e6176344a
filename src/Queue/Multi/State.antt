-- ===== src/Queue/Multi/State.antt =====
-- The state of the multi channel queue, and the operations that do not wait.
use snitun.Prelude.{
  ℕ, ◌+◌, ◌-◌, Bool, true, false, ◌&&◌, ◌||◌, Option, none, some, List, [], ◌∷◌, ◌++◌, leb, ltb,
  ◌==◌, if◌then◌else◌,
}
use snitun.Exceptions.{
  ◌>>=◌, Result, ok, err, or_raise, queue_full, queue_empty, runtime_error, key_error, index_error,
}
use snitun.Message.{ChannelId}
use snitun.Queue.Items.{Item, effective_size, sinks, rises}

pub record ChannelQueue : Type 0 where
  pub total_bytes : ℕ
  pub under_water : Bool
  pub pending_close : Bool
  pub queue : List Item
  pub putters : List ℕ

abbrev pub new_channel : ChannelQueue
new_channel = record {
  total_bytes = 0;
  under_water = false;
  pending_close = false;
  queue = [];
  putters = [];
}

pub record MultiQueue : Type 0 where
  pub channel_size_limit : ℕ
  pub channel_low_water_mark : ℕ
  pub channel_high_water_mark : ℕ
  pub heap : ℕ → ChannelQueue
  pub channels : ChannelId → Option ℕ
  pub order : List ChannelId
  pub getters : List ℕ
  pub done : ℕ → Bool
  pub next_ref : ℕ
  pub next_future : ℕ

-- `d[k] = v`
abbrev pub update {ℓ} : {V : Type ℓ} (d : ℕ → V) (k : ℕ) (v : V) (j : ℕ) → V
update d k v j = if k == j then v else d j

abbrev pub new : ℕ → ℕ → ℕ → MultiQueue
new limit low high = record {
  channel_size_limit = limit;
  channel_low_water_mark = low;
  channel_high_water_mark = high;
  heap = λ _. new_channel;
  channels = λ _. none;
  order = [];
  getters = [];
  done = λ _. false;
  next_ref = 0;
  next_future = 0;
}

abbrev pub Event : Type 0
Event = Option (ChannelId × Bool)

-- The members of `_order`, an `OrderedDict` whose values are not used.
unfoldable pub contains : ChannelId → List ChannelId → Bool
contains id [] = false
contains id (first ∷ rest) = first == id || contains id rest

-- `_order[id] = None`: a new key goes to the end, and an old one keeps its place.
unfoldable pub enlist : List ChannelId → ChannelId → List ChannelId
unfolding contains
enlist order id = if contains id order then order else order ++ id ∷ []

unfoldable pub is_empty {ℓ} : {A : Type ℓ} → List A → Bool
is_empty [] = true
is_empty (_ ∷ _) = false

-- `_wakeup_next`: the waiters that are left, and the futures that are done.
unfoldable pub wakeup_next : List ℕ → (ℕ → Bool) → List ℕ × (ℕ → Bool)
wakeup_next [] done = ([], done)
wakeup_next (waiter ∷ waiters) done =
    let rest = wakeup_next waiters done in
    if done waiter then rest else (waiters, update done waiter true)

-- A new object under the id.
abbrev pub add_channel : MultiQueue → ChannelId → MultiQueue
add_channel q id = record q {
  heap = update q.heap q.next_ref new_channel;
  channels = update q.channels id (some q.next_ref);
  next_ref = q.next_ref + 1;
}

unfoldable pub create_channel : MultiQueue → ChannelId → Result MultiQueue
create_channel q id = elim (q.channels id) [
  | some _ ↦ err runtime_error
  | none ↦ ok (add_channel q id)
]

unfoldable pub delete_channel : MultiQueue → ChannelId → MultiQueue
unfolding is_empty
delete_channel q id = elim (q.channels id) [
  | none ↦ q
  | some ref ↦
      if is_empty (q.heap ref).queue
      then record q { channels = update q.channels id none }
      else record q { heap = update q.heap ref (record (q.heap ref) { pending_close = true }) }
]

-- The object after `_put`.
unfoldable pub put_channel : MultiQueue → ChannelQueue → Item → ChannelQueue
unfolding sinks
put_channel q channel item =
    let total = channel.total_bytes + effective_size item in
    record channel {
      queue = channel.queue ++ item ∷ [];
      total_bytes = total;
      under_water =
          if sinks channel.under_water total q.channel_high_water_mark
          then true
          else channel.under_water;
    }

-- `_put`, on the object `ref`.
unfoldable pub put_item : MultiQueue → ChannelId → ℕ → Item → MultiQueue × Event
unfolding put_channel enlist
put_item q id ref item =
    let channel = q.heap ref in
    let (getters, done) = wakeup_next q.getters q.done in
    (
      record q {
        heap = update q.heap ref (put_channel q channel item);
        order = enlist q.order id;
        getters = getters;
        done = done;
      },
      if sinks channel.under_water (channel.total_bytes + effective_size item)
            q.channel_high_water_mark
          then some (id, true)
          else none,
    )

-- `channel.total_bytes + size > self._channel_size_limit`
unfoldable pub is_full : MultiQueue → ℕ → Item → Bool
is_full q ref item = ltb q.channel_size_limit ((q.heap ref).total_bytes + effective_size item)

unfoldable pub put_nowait : MultiQueue → ChannelId → Item → Result (MultiQueue × Event)
unfolding put_item is_full
put_nowait q id item = elim (q.channels id) [
  | none ↦ err runtime_error
  | some ref ↦ if is_full q ref item then err queue_full else ok (put_item q id ref item)
]

unfoldable pub put_nowait_force : MultiQueue → ChannelId → Item → Result (MultiQueue × Event)
unfolding put_item
put_nowait_force q id item = elim (q.channels id) [
  | none ↦ err runtime_error
  | some ref ↦ ok (put_item q id ref item)
]

-- The object that a get leaves.
unfoldable pub get_channel : MultiQueue → ChannelQueue → Item → List Item → ChannelQueue
unfolding rises
get_channel q channel item items =
    let total = channel.total_bytes - effective_size item in
    record channel {
      queue = items;
      total_bytes = total;
      under_water =
          if rises channel.under_water total q.channel_low_water_mark
          then false
          else channel.under_water;
    }

-- `get_nowait` behind the lookup: `channel` is the object `ref`, and `rest` the order without `id`.
unfoldable pub get_item :
    MultiQueue → ChannelId → ℕ → List ChannelId → Item → List Item → MultiQueue × Event
unfolding get_channel enlist is_empty wakeup_next
get_item q id ref rest item items =
    let channel = q.heap ref in
    let left = get_channel q channel item items in
    let (putters, done) = wakeup_next left.putters q.done in
    (
      record q {
        heap = update q.heap ref (record left { putters = putters });
        channels =
            if is_empty items && channel.pending_close
            then update q.channels id none
            else q.channels;
        order = if is_empty items then rest else enlist rest id;
        done = done;
      },
      if rises channel.under_water left.total_bytes q.channel_low_water_mark
          then some (id, false)
          else none,
    )

unfoldable pub get_first :
    MultiQueue → ChannelId → ℕ → List ChannelId → List Item → Result (Item × MultiQueue × Event)
get_first q id ref rest [] = err index_error
get_first q id ref rest (item ∷ items) =
    let (q', event) = get_item q id ref rest item items in ok (item, q', event)

-- `self._channels[channel_id]` raises `KeyError` if the channel is not there, and `popleft`
-- `IndexError` if it has no message.
unfoldable pub get_channel_id : MultiQueue → List ChannelId → Result (Item × MultiQueue × Event)
unfolding get_first
get_channel_id q [] = err queue_empty
get_channel_id q (id ∷ rest) = do
  ref ← or_raise (q.channels id) key_error
  get_first q id ref rest (q.heap ref).queue

unfoldable pub get_nowait : MultiQueue → Result (Item × MultiQueue × Event)
unfolding get_channel_id
get_nowait q = get_channel_id q q.order

unfoldable pub empty : MultiQueue → ChannelId → Bool
empty q id = elim (q.channels id) [ none ↦ true | some ref ↦ (q.heap ref).total_bytes == 0 ]

unfoldable pub size : MultiQueue → ChannelId → ℕ
size q id = elim (q.channels id) [ none ↦ 0 | some ref ↦ (q.heap ref).total_bytes ]

unfoldable pub full : MultiQueue → ChannelId → Bool
full q id = elim (q.channels id) [
  | none ↦ false
  | some ref ↦ leb q.channel_size_limit (q.heap ref).total_bytes
]
