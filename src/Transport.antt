-- ===== src/Transport.antt =====
-- snitun/multiplexer/transport.py: a channel as a transport of asyncio, and the task that reads it.
-- `S` is the state of what the transport calls, and a protocol is a reference to an object there.
-- A method of a protocol may call the transport in turn, so it takes the transport and returns it.
pub mod Reader
pub mod Feed
use snitun.Prelude.{
  ℕ, zero, suc, Bool, true, false, not, Option, none, some, List, [], ◌∷◌, ◌++◌, leb, ◌==◌,
  if◌then◌else◌, length, take, drop,
}
use snitun.Exceptions.{
  Exception, Result, ok, err, runtime_error, assertion_error, transport_error, transport_close,
  catches_control,
}
use snitun.Bytes.{Bytes}
use snitun.Channel
use snitun.Channel.{Link}

abbrev pub default_reader_chunk_size : ℕ
default_reader_chunk_size = 262144

-- A future is a number: those given so far are below `futures`. The future that `pause_future` names
-- is not done, and every other one is.
pub record ChannelTransport (S : Type 0) : Type 0 where
  pub link : Link
  pub protocol : Option ℕ
  pub pause_future : Option ℕ
  pub futures : ℕ
  pub protocol_paused : Bool
  pub has_reader_task : Bool
  pub protocol_ready : Bool
  pub protocol_set : Bool
  -- The calls of `connection_lost` that are scheduled, and the reports to the exception handler.
  pub lost_calls : List (ℕ × Option Exception)
  pub reports : List Exception
  pub outside : S

abbrev pub Call : Type 0 → Type 0 → Type 0
Call S A = ChannelTransport S → Result A × ChannelTransport S

-- `asyncio.BufferedProtocol`, for every object that may be one. `get_buffer` gives the length of its
-- buffer, and `buffer_updated` is given what the transport has written there.
pub record Protocol (S : Type 0) : Type 0 where
  pub is_buffered : (proto : ℕ) → Bool
  pub max_size : (proto : ℕ) → Option ℕ
  pub get_buffer : (proto size : ℕ) → Call S ℕ
  pub buffer_updated : (proto : ℕ) (written : Bytes) → Call S (Unit {0})
  pub pause_writing : (proto : ℕ) → Call S (Unit {0})
  pub resume_writing : (proto : ℕ) → Call S (Unit {0})

-- What became of a feed: `given` is what the protocol was given.
pub record Fed (S : Type 0) : Type 0 where
  pub result : Result (Unit {0})
  pub transport : ChannelTransport S
  pub given : Bytes

-- `exc is None or isinstance(exc, Exception)`
tells : Option Exception → Bool
unfolding catches_control
tells none = true
tells (some e) = not (catches_control e)

module _ {S : Type 0} where
  abbrev pub new : Link → S → ChannelTransport S
  new link outside = record {
    link = link;
    protocol = none;
    pause_future = none;
    futures = 0;
    protocol_paused = false;
    has_reader_task = false;
    protocol_ready = false;
    protocol_set = false;
    lost_calls = [];
    reports = [];
    outside = outside;
  }

  unfoldable pub is_closing : ChannelTransport S → Bool
  is_closing t = t.link.channel.closing

  unfoldable pub get_protocol : ChannelTransport S → Result ℕ
  get_protocol t = elim t.protocol [ none ↦ err assertion_error | some proto ↦ ok proto ]

  unfoldable pub release_pause_future : ChannelTransport S → ChannelTransport S
  release_pause_future t = record t { pause_future = none }

  unfoldable pub is_reading : ChannelTransport S → Bool
  is_reading t = elim t.pause_future [ none ↦ true | some _ ↦ false ]

  unfoldable pub pause_reading : ChannelTransport S → ChannelTransport S
  pause_reading t = elim t.pause_future [
    | none ↦ record t { pause_future = some t.futures; futures = suc t.futures }
    | some _ ↦ t
  ]

  unfoldable pub resume_reading : ChannelTransport S → ChannelTransport S
  unfolding release_pause_future
  resume_reading t = release_pause_future t

  -- Where the channel's `close` raises, the future is not released.
  closed : ChannelTransport S → Result (Unit {0}) × Link → Result (Unit {0}) × ChannelTransport S
  unfolding release_pause_future
  closed t (err e, link) = (err e, record t { link = link })
  closed t (ok _, link) = (ok tt, release_pause_future (record t { link = link }))

  unfoldable pub close : Call S (Unit {0})
  unfolding closed
  close t = closed t (Channel.close t.link)

  unfoldable pub abort : Call S (Unit {0})
  unfolding close
  abort t = close t

  tell_lost : Option Exception → Option ℕ → ChannelTransport S → ChannelTransport S
  unfolding tells
  tell_lost exc none t = t
  tell_lost exc (some proto) t =
      if tells exc then record t { lost_calls = t.lost_calls ++ (proto, exc) ∷ [] } else t

  lost :
      Option Exception
      → Result (Unit {0}) × ChannelTransport S
      → Result (Unit {0}) × ChannelTransport S
  unfolding tell_lost
  lost exc (err e, t) = (err e, t)
  lost exc (ok _, t) = (ok tt, tell_lost exc t.protocol t)

  unfoldable pub force_close : Option Exception → Call S (Unit {0})
  unfolding lost close
  force_close exc t = lost exc (close t)

  unfoldable pub fatal_error : Exception → Call S (Unit {0})
  unfolding force_close
  fatal_error exc t = force_close (some exc) (record t { reports = t.reports ++ exc ∷ [] })

  written : ChannelTransport S → Result (Unit {0}) × Link → Result (Unit {0}) × ChannelTransport S
  unfolding force_close
  written t (err transport_close, link) = force_close none (record t { link = link })
  written t (err transport_error, link) =
      force_close (some transport_error) (record t { link = link })
  written t (r, link) = (r, record t { link = link })

  unfoldable pub write : Bytes → Call S (Unit {0})
  unfolding written is_closing
  write payload t =
      if is_closing t then (ok tt, t) else written t (Channel.write_no_wait t.link payload)

  module _ (protocols : Protocol S) where
    open protocols use {
      is_buffered, max_size, get_buffer, buffer_updated, pause_writing, resume_writing,
    }

    -- The rounds of `while data_len`, with what follows a round as an argument.
    given_then :
        Bytes → (ChannelTransport S → Fed S) → Result (Unit {0}) × ChannelTransport S → Fed S
    given_then piece next (err e, t) = record { result = err e; transport = t; given = piece }
    given_then piece next (ok _, t) = let fed = next t in record fed { given = piece ++ fed.given }

    unfoldable pub all_fed : ChannelTransport S → Fed S
    all_fed t = record { result = ok tt; transport = t; given = [] }

    feed_round :
        ℕ → Bytes → (Bytes → ChannelTransport S → Fed S) → Result ℕ × ChannelTransport S → Fed S
    unfolding given_then all_fed
    feed_round proto payload again (err e, t) = record { result = err e; transport = t; given = [] }
    feed_round proto payload again (ok buf_len, t) =
        if buf_len == 0
        then record { result = err runtime_error; transport = t; given = [] }
        else if leb (length payload) buf_len
        then given_then payload all_fed (buffer_updated proto payload t)
        else given_then (take buf_len payload) (again (drop buf_len payload))
            (buffer_updated proto (take buf_len payload) t)

    feed_loop : ℕ → ℕ → Bytes → ChannelTransport S → Fed S
    unfolding feed_round all_fed
    feed_loop zero proto payload t = all_fed t
    feed_loop (suc fuel) proto [] t = all_fed t
    feed_loop (suc fuel) proto (b ∷ bs) t =
        feed_round proto (b ∷ bs) (feed_loop fuel proto) (get_buffer proto (length (b ∷ bs)) t)

    -- `_feed_data_to_buffered_proto`
    unfoldable pub feed_data_to_buffered_proto : ℕ → Bytes → ChannelTransport S → Fed S
    unfolding feed_loop
    feed_data_to_buffered_proto proto payload t = feed_loop (length payload) proto payload t
