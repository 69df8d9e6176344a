-- ===== src/Queue/Single.antt =====
-- `MultiplexerSingleChannelQueue`: asyncio's queue with its size in bytes. An operation returns the
-- call of `under_water_callback` that it makes.
pub mod Laws
use snitun.Prelude.{
  ℕ, ◌+◌, ◌-◌, Bool, true, false, ◌&&◌, Option, none, some, List, [], ◌∷◌, ◌++◌, leb, ltb,
  if◌then◌else◌,
}
use snitun.Exceptions.{Result, ok, err, queue_full, queue_empty}
use snitun.Queue.Items.{Item, effective_size, sinks, rises}

pub record SingleQueue : Type 0 where
  pub maxsize : ℕ
  pub low_water_mark : ℕ
  pub high_water_mark : ℕ
  pub total_bytes : ℕ
  pub under_water : Bool
  pub queue : List Item

abbrev pub new : ℕ → ℕ → ℕ → SingleQueue
new maxsize low high = record {
  maxsize = maxsize;
  low_water_mark = low;
  high_water_mark = high;
  total_bytes = 0;
  under_water = false;
  queue = [];
}

unfoldable pub qsize : SingleQueue → ℕ
qsize q = q.total_bytes

-- `asyncio.Queue.full`, on `qsize`: no limit if `maxsize` is 0.
unfoldable pub full : SingleQueue → Bool
unfolding qsize
full q = ltb 0 q.maxsize && leb q.maxsize (qsize q)

-- `asyncio.Queue.empty`, on the deque.
unfoldable pub empty : SingleQueue → Bool
empty q = elim q.queue [ [] ↦ true | _ ∷ _ ↦ false ]

-- `_put`
put : SingleQueue → Item → SingleQueue × Option Bool
unfolding sinks
put q item =
    let total = q.total_bytes + effective_size item in
    let down = sinks q.under_water total q.high_water_mark in
    (
      record q {
        total_bytes = total;
        queue = q.queue ++ item ∷ [];
        under_water = if down then true else q.under_water;
      },
      if down then some true else none,
    )

-- `_get`, of a queue whose first item is `item`.
get : SingleQueue → Item → List Item → SingleQueue × Option Bool
unfolding rises
get q item items =
    let total = q.total_bytes - effective_size item in
    let up = rises q.under_water total q.low_water_mark in
    (
      record q {
        total_bytes = total;
        queue = items;
        under_water = if up then false else q.under_water;
      },
      if up then some false else none,
    )

unfoldable pub put_nowait : SingleQueue → Item → Result (SingleQueue × Option Bool)
unfolding put full
put_nowait q item = if full q then err queue_full else ok (put q item)

get_first : SingleQueue → List Item → Result (Item × SingleQueue × Option Bool)
unfolding get
get_first q [] = err queue_empty
get_first q (item ∷ items) = let (q', event) = get q item items in ok (item, q', event)

unfoldable pub get_nowait : SingleQueue → Result (Item × SingleQueue × Option Bool)
unfolding get_first
get_nowait q = get_first q q.queue
