-- ===== src/Transport/Reader.antt =====
-- The calls of `ChannelTransport` of snitun/multiplexer/transport.py that concern its protocol and its
-- reader task, and that task as steps: each goes from one statement to the next, and a step that
-- awaits what is not there leaves all as it is.
pub mod Keeps
pub mod Delivery
use snitun.Prelude.{
  ℕ, Bool, true, false, not, ◌||◌, Option, none, some, [], ◌∷◌, ◌++◌, ◌==◌, if◌then◌else◌, take,
  drop,
}
use snitun.Exceptions.{
  Exception, Result, ok, err, assertion_error, attribute_error, transport_close, cancelled_error,
  catches_control, system_exit, keyboard_interrupt,
}
use snitun.Bytes.{Bytes}
use snitun.Channel
use snitun.Channel.{ReadState, blocked, returned}
use snitun.Transport.{
  ChannelTransport, Protocol, Call, Fed, default_reader_chunk_size, close, force_close, fatal_error,
  is_closing, feed_data_to_buffered_proto,
}

-- Where `_reader` stands. A future that it awaits is in the state, and so is the data that it read and
-- has not yet given away.
pub data Place : Type 0 where
  looping reading : Place
  paused : (future : ℕ) → Place
  received awaiting_protocol feeding : (from_peer : Bytes) → Place
  held : (future : ℕ) (from_peer : Bytes) → Place
  finished : Result (Unit {0}) → Place

-- The task with the local `chunk_size`.
pub record Reader : Type 0 where
  pub place : Place
  pub chunk_size : ℕ

-- A step, with what it read from the channel and what the protocol was given.
pub record Moved (S : Type 0) : Type 0 where
  pub transport : ChannelTransport S
  pub reader : Reader
  pub taken : Bytes
  pub given : Bytes

abbrev pub new_reader : Reader
new_reader = record { place = looping; chunk_size = 0 }

abbrev pub ended : {S : Type 0} → Reader → Exception → ChannelTransport S → Moved S
ended r e t = record {
  transport = t;
  reader = record r { place = finished (err e) };
  taken = [];
  given = [];
}

-- `if self._pause_future: await self._pause_future`, for what comes next.
abbrev pub await_pause : Option ℕ → Place → (ℕ → Place) → Place
await_pause none next wait = next
await_pause (some future) next wait = wait future

-- Whether the future is not done.
abbrev pub is_pending : Option ℕ → ℕ → Bool
is_pending none future = false
is_pending (some current) future = current == future

abbrev pub goes : {S : Type 0} → ChannelTransport S → Reader → Place → Moved S
goes t r place = record {
  transport = t;
  reader = record r { place = place };
  taken = [];
  given = [];
}

module _ {S : Type 0} (protocols : Protocol S) where
  open protocols use {is_buffered, max_size, pause_writing, resume_writing}

  unfoldable pub set_protocol : Option ℕ → Call S (Unit {0})
  set_protocol none t = (err assertion_error, t)
  set_protocol (some proto) t =
      if is_buffered proto
      then (
        ok tt,
        record t {
          protocol = some proto;
          protocol_ready = true;
          protocol_set = t.protocol_set || not t.protocol_ready;
        },
      )
      else (err assertion_error, t)

  -- The exception of a protocol is reported, but for the two that are raised again.
  called : Bool → Result (Unit {0}) × ChannelTransport S → Result (Unit {0}) × ChannelTransport S
  called pause (ok _, t) = (ok tt, record t { protocol_paused = pause })
  called pause (err system_exit, t) = (err system_exit, t)
  called pause (err keyboard_interrupt, t) = (err keyboard_interrupt, t)
  called pause (err e, t) = (ok tt, record t { reports = t.reports ++ e ∷ [] })

  call_protocol : Bool → Option ℕ → Call S (Unit {0})
  unfolding called is_closing
  call_protocol pause none t = (ok tt, t)
  call_protocol pause (some proto) t =
      if is_closing t
      then (ok tt, t)
      else called pause (if pause then pause_writing proto t else resume_writing proto t)

  unfoldable pub pause_or_resume_protocol : Bool → Call S (Unit {0})
  unfolding call_protocol
  pause_or_resume_protocol pause t = call_protocol pause t.protocol t

  unfoldable pub resume_protocol : Call S (Unit {0})
  unfolding pause_or_resume_protocol
  resume_protocol t = pause_or_resume_protocol false t

  unfoldable pub pause_protocol : Call S (Unit {0})
  unfolding pause_or_resume_protocol
  pause_protocol t = pause_or_resume_protocol true t

  unfoldable pub start_reader : ChannelTransport S → ChannelTransport S × Reader
  start_reader t = (record t { has_reader_task = true }, new_reader)

  -- The reader leaves with `e`, or with what the cleanup raises.
  raises : Reader → Exception → Result (Unit {0}) × ChannelTransport S → Moved S
  raises r e (ok _, t) = ended r e t
  raises r e (err e', t) = ended r e' t

  normal_close : Reader → Result (Unit {0}) × ChannelTransport S → Moved S
  normal_close r (ok _, t) = goes t r (finished (ok tt))
  normal_close r (err e, t) = ended r e t

  -- The last two `except` clauses of both `try` statements.
  failed : ChannelTransport S → Reader → Exception → Moved S
  unfolding raises fatal_error
  failed t r e = if catches_control e then ended r e t else raises r e (fatal_error e t)

  on_read : ChannelTransport S → Reader → ReadState → Moved S
  unfolding normal_close failed
  on_read t r blocked = goes t r reading
  on_read t r (returned (ok from_peer, link)) = record {
    transport = record t { link = link };
    reader = record r { place = received from_peer };
    taken = from_peer;
    given = [];
  }
  on_read t r (returned (err transport_close, link)) =
      normal_close r (force_close none (record t { link = link }))
  on_read t r (returned (err e, link)) = failed (record t { link = link }) r e

  -- `getattr(self._protocol, "max_size", _DEFAULT_READER_CHUNK_SIZE)`
  max_size_of : Option ℕ → ℕ
  max_size_of none = default_reader_chunk_size
  max_size_of (some proto) = elim (max_size proto) [ none ↦ default_reader_chunk_size | some n ↦ n ]

  size : ChannelTransport S → Reader → Bytes → Moved S
  unfolding max_size_of
  size t r from_peer =
      goes t
        (record r {
          chunk_size = if r.chunk_size == 0 then max_size_of t.protocol else r.chunk_size;
        })
        (feeding from_peer)

  on_fed : Reader → Bytes → Fed S → Moved S
  unfolding failed
  on_fed r [] fed = record {
    transport = fed.transport;
    reader = record r { place = feeding [] };
    taken = [];
    given = fed.given;
  }
  on_fed r (b ∷ bs) fed = record {
    transport = fed.transport;
    reader = record r {
      place =
          await_pause fed.transport.pause_future (feeding (b ∷ bs))
            (λ future. held future (b ∷ bs));
    };
    taken = [];
    given = fed.given;
  }

  after_feed : Reader → Bytes → Fed S → Result (Unit {0}) → Moved S
  unfolding on_fed failed
  after_feed r rest fed (ok _) = on_fed r rest fed
  after_feed r rest fed (err e) = record (failed fed.transport r e) { given = fed.given }

  feed_chunk : ChannelTransport S → Reader → Bytes → Option ℕ → Moved S
  unfolding after_feed failed
  feed_chunk t r from_peer none = failed t r attribute_error
  feed_chunk t r from_peer (some proto) =
      let fed = feed_data_to_buffered_proto protocols proto (take r.chunk_size from_peer) t in
      after_feed r (drop r.chunk_size from_peer) fed fed.result

  reader_step : ChannelTransport S → Reader → Place → Moved S
  unfolding on_read size feed_chunk
  reader_step t r looping = goes t r (await_pause t.pause_future reading (λ future. paused future))
  reader_step t r (paused future) =
      goes t r (if is_pending t.pause_future future then paused future else reading)
  reader_step t r reading = on_read t r (Channel.read t.link)
  reader_step t r (received from_peer) =
      if t.protocol_set then size t r from_peer else goes t r (awaiting_protocol from_peer)
  reader_step t r (awaiting_protocol from_peer) =
      if t.protocol_ready then size t r from_peer else goes t r (awaiting_protocol from_peer)
  reader_step t r (feeding []) = goes t r looping
  reader_step t r (feeding (b ∷ bs)) = feed_chunk t r (b ∷ bs) t.protocol
  reader_step t r (held future from_peer) =
      goes t r
        (if is_pending t.pause_future future then held future from_peer else feeding from_peer)
  reader_step t r (finished result) = goes t r (finished result)

  -- `_reader`, from one statement to the next.
  unfoldable pub step : ChannelTransport S → Reader → Moved S
  unfolding reader_step
  step t r = reader_step t r r.place

  cancel_at : ChannelTransport S → Reader → Place → Moved S
  unfolding failed
  cancel_at t r (finished result) = goes t r (finished result)
  cancel_at t r place = failed t r cancelled_error

  -- The task is cancelled: the exception comes out of the statement that awaits.
  unfoldable pub cancel : ChannelTransport S → Reader → Moved S
  unfolding cancel_at
  cancel t r = cancel_at t r r.place

  -- `await self._reader_task` in `stop_reader`: every `Exception` is logged. `cancelling` is whether
  -- the caller's own task is being cancelled.
  reaped : Bool → Result (Unit {0}) → Result (Unit {0})
  reaped cancelling (ok _) = ok tt
  reaped cancelling (err cancelled_error) = if cancelling then err cancelled_error else ok tt
  reaped cancelling (err e) = if catches_control e then err e else ok tt

  result_of : Place → Result (Unit {0})
  result_of (finished result) = result
  result_of _ = err cancelled_error

  -- `wait_for_close` gives what the task came to, once it has ended.
  unfoldable pub wait_for_close : ChannelTransport S → Reader → Option (Result (Unit {0}))
  wait_for_close t r = if t.has_reader_task then done r.place else some (err assertion_error)
    where
      done : Place → Option (Result (Unit {0}))
      done (finished result) = some result
      done _ = none

  stopped :
      Bool
      → Result (Unit {0}) × ChannelTransport S
      → Reader
      → Result (Unit {0}) × ChannelTransport S
  unfolding reaped result_of cancel
  stopped cancelling (err e, t) r = (err e, t)
  stopped cancelling (ok _, t) r =
      let moved = cancel t r in
      (
        reaped cancelling (result_of moved.reader.place),
        record moved.transport { has_reader_task = false },
      )

  unfoldable pub stop_reader :
      Bool → ChannelTransport S → Reader → Result (Unit {0}) × ChannelTransport S
  unfolding stopped close
  stop_reader cancelling t r =
      if t.has_reader_task then stopped cancelling (close t) r else (err assertion_error, t)
