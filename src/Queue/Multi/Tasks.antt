-- ===== src/Queue/Multi/Tasks.antt =====
-- The operations that wait: `put` and `get` up to an `await` and behind it.
use snitun.Prelude.{ℕ, ◌+◌, true, not, ◌&&◌, List, [], ◌∷◌, ◌++◌, ◌==◌, if◌then◌else◌}
use snitun.Exceptions.{◌>>=◌, Result, ok, or_raise, runtime_error}
use snitun.Message.{ChannelId}
use snitun.Queue.Items.{Item}
use snitun.Queue.Multi.State.{
  MultiQueue, Event, update, wakeup_next, put_item, is_full, is_empty, full, get_nowait,
}

-- The locals of a suspended `put`: the channel object is a reference.
pub record PutTask : Type 0 where
  pub id : ChannelId
  pub ref : ℕ
  pub item : Item
  pub putter : ℕ

pub data PutState : Type 0 where
  finished : MultiQueue → Event → PutState
  waiting : MultiQueue → PutTask → PutState

-- The loop of `put`, up to its next `await`.
unfoldable pub put_loop : MultiQueue → ChannelId → ℕ → Item → PutState
unfolding is_full
put_loop q id ref item =
    if is_full q ref item
    then waiting
        (record q {
          heap =
              update q.heap ref
                (record (q.heap ref) { putters = (q.heap ref).putters ++ q.next_future ∷ [] });
          next_future = q.next_future + 1;
        })
        (record { id = id; ref = ref; item = item; putter = q.next_future })
    else (let (q', event) = put_item q id ref item in finished q' event)

unfoldable pub put : MultiQueue → ChannelId → Item → Result PutState
unfolding put_loop
put q id item = do ref ← or_raise (q.channels id) runtime_error; ok (put_loop q id ref item)

-- The putter is done, and the loop goes on with the same object.
unfoldable pub resume_put : MultiQueue → PutTask → PutState
unfolding put_loop
resume_put q t = put_loop q t.id t.ref t.item

-- `deque.remove`, of the first entry that is equal.
unfoldable pub remove : ℕ → List ℕ → List ℕ
remove x [] = []
remove x (y ∷ ys) = if y == x then ys else y ∷ remove x ys

-- The `except` of `put`, when the await raises: a putter that was done is not cancelled.
unfoldable pub cancel_put : MultiQueue → PutTask → MultiQueue
unfolding remove
cancel_put q t =
    let channel = q.heap t.ref in
    let putters = remove t.putter channel.putters in
    let woken = wakeup_next putters (update q.done t.putter true) in
    if not (full q t.id) && q.done t.putter
    then record q {
      heap = update q.heap t.ref (record channel { putters = woken.0 });
      done = woken.1;
    }
    else record q {
      heap = update q.heap t.ref (record channel { putters = putters });
      done = update q.done t.putter true;
    }

pub data GetState : Type 0 where
  got : Result (Item × MultiQueue × Event) → GetState
  waiting : MultiQueue → ℕ → GetState

-- `get` from its start, and from behind its await.
unfoldable pub get : MultiQueue → GetState
unfolding is_empty
get q =
    if is_empty q.order
    then waiting
        (record q { getters = q.getters ++ q.next_future ∷ []; next_future = q.next_future + 1 })
        q.next_future
    else got (get_nowait q)

-- The `except` of `get`.
unfoldable pub cancel_get : MultiQueue → ℕ → MultiQueue
unfolding remove is_empty
cancel_get q getter =
    let getters = remove getter q.getters in
    let woken = wakeup_next getters (update q.done getter true) in
    if not (is_empty q.order) && q.done getter
    then record q { getters = woken.0; done = woken.1 }
    else record q { getters = getters; done = update q.done getter true }
