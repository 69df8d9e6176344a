-- ===== src/Multiplexer/Tasks.antt =====
-- The two tasks of a multiplexer (snitun/multiplexer/core.py). A round of a loop is given the time at
-- which it ends, what `os.urandom` returns, and what `writer.drain` comes to.
pub mod Listens
pub mod Conversation
use snitun.Prelude.{
  nat_eq, ℕ, Bool, true, Option, none, some, List, [], ◌∷◌, ◌++◌, ltb, if◌then◌else◌,
}
use snitun.Exceptions.{
  Exception, Result, ok, err, transport_close, incomplete_read, os_error, cancelled_error,
}
use snitun.Bytes.{Bytes}
use snitun.Message.{MultiplexerMessage}
use snitun.Dict.{lookup}
use snitun.Crypto.{Primitives}
use snitun.Queue.Items.{Item}
use snitun.Queue.Multi.State.{MultiQueue, Event}
use snitun.Queue.Multi.Tasks
use snitun.Queue.Multi.Tasks.{GetState, got, waiting}
use snitun.Channel.{on_local_output_under_water}
use snitun.RangedTimeout
use snitun.RangedTimeout.{RangedTimeout, reschedule}
use snitun.Multiplexer.Frame.{Entropy, Received, read_frame}
use snitun.Multiplexer.State.{update_channel}
use snitun.Multiplexer.Endpoint.{Endpoint, Round, close_channels, write_message, receive}

abbrev pub min_size_throttle : ℕ
min_size_throttle = 8192

-- Where the reading task stands: what is left of the stream, or how the task ended.
pub data ReadState : Type 0 where
  going : (stream : Bytes) → ReadState
  ended : Result (Unit {0}) → ReadState

-- The task, with the messages that it handled, in their order.
pub record Read : Type 0 where
  pub state : ReadState
  pub endpoint : Endpoint
  pub handled : List MultiplexerMessage

pub data WriteState : Type 0 where
  going : WriteState
  -- The loop waits for a message, on a future of the queue.
  suspended : (getter : ℕ) → WriteState
  ended : Result (Unit {0}) → WriteState

-- The `except` clauses of the reading task.
unfoldable pub read_caught : Exception → Result (Unit {0})
read_caught transport_close = ok tt
read_caught incomplete_read = ok tt
read_caught os_error = ok tt
read_caught e = err e

-- Its `finally` clause.
unfoldable pub end_read : Result (Unit {0}) → Endpoint → Read
end_read result ep = record {
  state = ReadState.ended result;
  endpoint = record ep { write_cancelled = true; read_done = true };
  handled = [];
}

-- The reading task is cancelled where it waits.
unfoldable pub cancel_read : Endpoint → Read
unfolding end_read
cancel_read ep = end_read (err cancelled_error) ep

-- The `finally` clause of the writing task.
unfoldable pub end_write : Result (Unit {0}) → Endpoint → WriteState × Endpoint
unfolding close_channels
end_write result ep = (
  WriteState.ended result,
  close_channels (record ep {
    read_cancelled = true;
    timeout = RangedTimeout.cancel ep.timeout;
    closing = true;
    write_done = true;
  }),
)

-- Its `except` clauses.
unfoldable pub write_caught : Exception → Result (Unit {0})
write_caught transport_close = ok tt
write_caught os_error = ok tt
write_caught e = err e

-- The writing task is cancelled where it waits; `cancelling` is whether the task itself was cancelled.
unfoldable pub cancel_write : Bool → Endpoint → WriteState × Endpoint
unfolding end_write
cancel_write cancelling ep =
    end_write (if cancelling then err cancelled_error else ok tt) (record ep { eof = true })

-- For how long the loop sleeps behind a message, in parts of a second over `throttling`.
unfoldable pub to_sleep : ℕ → Option ℕ → Option ℕ
to_sleep size none = none
to_sleep size (some throttling) = some (if ltb size min_size_throttle then 0 else throttling)

-- The callback of the queue, to the channel.
unfoldable pub hear_queue : MultiQueue → Event → Endpoint → Endpoint
hear_queue queue none ep = record ep { mux = record ep.mux { queue = queue } }
hear_queue queue (some (id, under_water)) ep = elim (lookup id ep.mux.channels) [
  | none ↦ record ep { mux = record ep.mux { queue = queue } }
  | some c ↦
      let (c', calls) = on_local_output_under_water c under_water in
      let turn =
        update_channel ep.mux (ok tt, record { channel = c'; output = queue; calls = calls }) in
      record ep { mux = turn.mux; log = ep.log ++ turn.effects }
]

module _ (p : Primitives) where
  received :
      MultiplexerMessage
      → Bytes
      → Result (Unit {0}) × Endpoint
      → Result Bytes × Endpoint × List MultiplexerMessage
  received m rest (ok _, ep) = (ok rest, ep, m ∷ [])
  received m rest (err e, ep) = (err e, ep, m ∷ [])

  -- `_read_message`, with the message that it handled, if there was one.
  framed : Entropy → Endpoint → Result Received → Result Bytes × Endpoint × List MultiplexerMessage
  unfolding receive received
  framed e ep (err raised) = (err raised, ep, [])
  framed e ep (ok r) = elim r.message [
    | none ↦ (ok r.rest, record ep { crypto = r.transport }, [])
    | some m ↦ received m r.rest (receive p e m (record ep { crypto = r.transport }))
  ]

  unfoldable pub read_message :
      Entropy → Bytes → Endpoint → Result Bytes × Endpoint × List MultiplexerMessage
  unfolding framed
  read_message e stream ep =
      framed e ep (read_frame p ep.mux.peer_protocol_version ep.crypto stream)

  abbrev with_handled : List MultiplexerMessage → Read → Read
  with_handled ms r = record r { handled = ms ++ r.handled }

  -- What follows a message in the loop.
  read_next :
      ℕ → (Bytes → Endpoint → Read) → Result Bytes × Endpoint × List MultiplexerMessage → Read
  unfolding end_read read_caught
  read_next now next (ok stream, ep, ms) =
      with_handled ms (next stream (record ep { timeout = reschedule now ep.timeout }))
  read_next now next (err e, ep, ms) = with_handled ms (end_read (read_caught e) ep)

  -- `_read_from_peer_loop`, for so many rounds.
  unfoldable pub read_from_peer_loop : List Round → Bytes → Endpoint → Read
  unfolding read_next end_read
  read_from_peer_loop [] stream ep = record {
    state = ReadState.going stream;
    endpoint = ep;
    handled = [];
  }
  read_from_peer_loop (r ∷ rounds) stream ep =
      let next = read_next r.now (read_from_peer_loop rounds) (read_message r.entropy stream ep) in
      if ep.closing then end_read (ok tt) ep else next

  -- What follows a message, or an end mark, in the loop that writes.
  drain : Round → (Endpoint → WriteState × Endpoint) → Result ℕ × Endpoint → WriteState × Endpoint
  unfolding end_write write_caught
  drain r next (err e, ep) = end_write (write_caught e) ep
  drain r next (ok size, ep) = elim r.drained [
    | ok _ ↦ next (record ep { timeout = reschedule r.now ep.timeout })
    | err e ↦ end_write (write_caught e) ep
  ]

  write_item : Entropy → Item → Endpoint → Result ℕ × Endpoint
  write_item e none ep = (ok 0, ep)
  write_item e (some m) ep = write_message p e m ep

  write_next :
      Round → (Endpoint → WriteState × Endpoint) → Endpoint → GetState → WriteState × Endpoint
  unfolding drain write_item hear_queue end_write write_caught
  write_next r next ep (waiting queue getter) =
      (suspended getter, record ep { mux = record ep.mux { queue = queue } })
  write_next r next ep (got (err e)) = end_write (write_caught e) ep
  write_next r next ep (got (ok (item, queue, event))) =
      drain r next (write_item r.entropy item (hear_queue queue event ep))

  -- `_write_to_peer_loop`, for so many rounds.
  unfoldable pub write_to_peer_loop : List Round → Endpoint → WriteState × Endpoint
  unfolding write_next end_write
  write_to_peer_loop [] ep = (WriteState.going, ep)
  write_to_peer_loop (r ∷ rounds) ep =
      let next = write_next r (write_to_peer_loop rounds) ep (Tasks.get ep.mux.queue) in
      if ep.closing then end_write (ok tt) ep else next
