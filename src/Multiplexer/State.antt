-- ===== src/Multiplexer/State.antt =====
-- The state of `Multiplexer`, and the operations on its channels.
use snitun.Prelude.{
  nat_eq, ℕ, Bool, true, false, ◌||◌, none, some, List, [], ◌∷◌, ◌++◌, map, ◌==◌, if◌then◌else◌,
}
use snitun.Exceptions.{◌>>=◌, Result, ok, err, transport_error}
use snitun.Bytes.{Bytes, starts_with}
use snitun.IpAddress.{IpAddress}
use snitun.Dict.{Dict, lookup, insert, remove, has, values}
use snitun.Message.{
  ChannelId, MultiplexerMessage, channel_flow_new, channel_flow_data, channel_flow_close,
  channel_flow_ping, channel_flow_pause, channel_flow_resume,
}
use snitun.Queue.Single
use snitun.Queue.Multi.State
use snitun.Queue.Multi.State.{MultiQueue, Event}
use snitun.Queue.Multi.Tasks
use snitun.Queue.Multi.Tasks.{PutTask, PutState, finished, waiting}
use snitun.Channel
use snitun.Channel.{
  Channel, Link, hear, message_transport, on_remote_input_under_water, init_close, init_new,
}
use snitun.Multiplexer.Addresses.{new_address}

pub record Multiplexer : Type 0 where
  pub peer_protocol_version : ℕ
  -- Whether `_new_connections` is set.
  pub accepts : Bool
  pub healthy : Bool
  pub queue : MultiQueue
  pub channels : Dict ChannelId Channel

-- What the multiplexer makes others do: call a channel's reader, start the handler of a new
-- channel, write a message, and let go of a channel that is closed.
pub data Effect : Type 0 where
  pause_reader : ChannelId → Bool → Effect
  new_connection : ChannelId → Effect
  writes : MultiplexerMessage → Effect
  released : Channel → Effect

pub record Turn : Type 0 where
  pub outcome : Result (Unit {0})
  pub mux : Multiplexer
  pub effects : List Effect

abbrev pub quiet : Multiplexer → Turn
quiet mux = record { outcome = ok tt; mux = mux; effects = [] }

abbrev pub link : Multiplexer → Channel → Link
link mux c = record { channel = c; output = mux.queue; calls = [] }

abbrev pub pauses : Link → List Effect
pauses l = map (pause_reader l.channel.id) l.calls

-- The channel of the dict after one of its methods ran.
abbrev pub update_channel : Multiplexer → Result (Unit {0}) × Link → Turn
update_channel mux (outcome, l) = record {
  outcome = outcome;
  mux = record mux { queue = l.output; channels = insert l.channel.id l.channel mux.channels };
  effects = pauses l;
}

-- The multiplexer without a channel, which was let go of after the effects.
abbrev pub release : Multiplexer → List Effect → Result (Unit {0}) × Link → Turn
release mux effects (outcome, l) = record {
  outcome = outcome;
  mux = record mux { queue = l.output };
  effects = effects ++ pauses l ++ released l.channel ∷ [];
}

-- `_delete_channel_and_queue`, but for the channel that it returns.
unfoldable pub delete_channel_and_queue : Multiplexer → ChannelId → Multiplexer
delete_channel_and_queue mux id = record mux {
  queue = State.delete_channel mux.queue id;
  channels = remove id mux.channels;
}

-- The best effort to send the close message.
unfoldable pub force : Link → Result (MultiQueue × Event) → Link
force l (err e) = l
force l (ok (output, event)) = hear l output event

-- `delete_channel`; the exception of a missing queue is suppressed.
unfoldable pub delete_channel : Multiplexer → Channel → Turn
unfolding force delete_channel_and_queue
delete_channel mux c =
    let l = force (link mux c) (State.put_nowait_force mux.queue c.id (some (init_close c))) in
    if has c.id mux.channels
    then record {
      outcome = ok tt;
      mux = delete_channel_and_queue (record mux { queue = l.output }) c.id;
      effects = pauses l;
    }
    else quiet (record mux { queue = State.delete_channel mux.queue c.id })

abbrev pub after_close : Multiplexer → Result (Unit {0}) × Link → Turn
after_close mux (err e, l) = update_channel mux (err e, l)
after_close mux (ok _, l) =
    let t =
      delete_channel
        (record mux { queue = l.output; channels = insert l.channel.id l.channel mux.channels })
        l.channel in
    record t { effects = pauses l ++ t.effects }

unfoldable pub on_data : Multiplexer → MultiplexerMessage → Turn
unfolding delete_channel
on_data mux m = elim (lookup m.id mux.channels) [
  | none ↦ quiet mux
  | some c ↦
      if c.closing
      then quiet mux
      else if Single.full c.input
      then after_close mux (Channel.close (link mux c))
      else update_channel mux (message_transport (link mux c) m)
]

-- `MultiplexerChannel.__init__` on the output queue, and the new entry of the dict.
unfoldable pub open_channel : Multiplexer → Channel → Result Multiplexer
open_channel mux c = do
  queue ← State.create_channel mux.queue c.id
  ok (record mux { queue = queue; channels = insert c.id c mux.channels })

abbrev pub opened : Multiplexer → ChannelId → Result Multiplexer → Turn
opened mux id (ok mux') = record { outcome = ok tt; mux = mux'; effects = new_connection id ∷ [] }
opened mux id (err e) = record { outcome = err e; mux = mux; effects = [] }

unfoldable pub on_new : Multiplexer → MultiplexerMessage → Turn
unfolding open_channel
on_new mux m =
    if mux.accepts
    then elim (new_address mux.peer_protocol_version m) [
      | none ↦ quiet mux
      | some ip ↦
          opened mux m.id (open_channel mux (Channel.new ip mux.peer_protocol_version false m.id))
    ]
    else quiet mux

unfoldable pub on_close : Multiplexer → MultiplexerMessage → Turn
unfolding delete_channel_and_queue
on_close mux m =
    let left = delete_channel_and_queue mux m.id in
    elim (lookup m.id mux.channels) [
      | none ↦ quiet left
      | some c ↦ release left [] (Channel.close (link left c))
    ]

unfoldable pub on_ping : Multiplexer → MultiplexerMessage → Turn
on_ping mux m =
    if starts_with m.extra (b'p' ∷ b'o' ∷ b'n' ∷ b'g' ∷ [])
    then quiet (record mux { healthy = true })
    else record {
      outcome = ok tt;
      mux = mux;
      effects =
          writes (record {
            id = m.id;
            flow_type = channel_flow_ping;
            payload = [];
            extra = b'p' ∷ b'o' ∷ b'n' ∷ b'g' ∷ [];
          })
          ∷ [];
    }

unfoldable pub on_pause_or_resume : Multiplexer → MultiplexerMessage → Turn
on_pause_or_resume mux m = elim (lookup m.id mux.channels) [
  | none ↦ quiet mux
  | some c ↦
      let (c', calls) = on_remote_input_under_water c (m.flow_type == channel_flow_pause) in
      update_channel mux (ok tt, record { channel = c'; output = mux.queue; calls = calls })
]

-- The second half of `_read_message`.
unfoldable pub handle_message : Multiplexer → MultiplexerMessage → Turn
unfolding on_data on_new on_close on_ping on_pause_or_resume
handle_message mux m =
    if m.flow_type == channel_flow_data
    then on_data mux m
    else if m.flow_type == channel_flow_new
    then on_new mux m
    else if m.flow_type == channel_flow_close
    then on_close mux m
    else if m.flow_type == channel_flow_ping
    then on_ping mux m
    else if m.flow_type == channel_flow_pause || m.flow_type == channel_flow_resume
    then on_pause_or_resume mux m
    else quiet mux

-- `create_channel`, up to the wait for room on the output queue.
pub data CreateState : Type 0 where
  created : Multiplexer → Channel → List Bool → CreateState
  creating : Multiplexer → Channel → PutTask → CreateState

put_new : Multiplexer → Channel → PutState → CreateState
put_new mux c (finished queue event) =
    let l = hear (record { channel = c; output = queue; calls = [] }) queue event in
    created (record mux { queue = queue; channels = insert l.channel.id l.channel mux.channels })
      l.channel l.calls
put_new mux c (waiting queue task) = creating (record mux { queue = queue }) c task

-- `id` and `random` are what `os.urandom` returns.
unfoldable pub create_channel :
    Multiplexer → (ℕ → Bytes) → IpAddress → ChannelId → Result CreateState
unfolding put_new
create_channel mux random ip id = do
  let c = Channel.new ip mux.peer_protocol_version true id
  queue ← State.create_channel mux.queue id
  put ← Tasks.put queue id (some (init_new random c))
  ok (put_new (record mux { queue = queue }) c put)

-- The wait goes on, or its five seconds are over.
unfoldable pub resume_create : Multiplexer → Channel → PutTask → CreateState
unfolding put_new
resume_create mux c task = put_new mux c (Tasks.resume_put mux.queue task)

unfoldable pub timeout_create : Multiplexer → PutTask → Result CreateState × Multiplexer
timeout_create mux task =
    (err transport_error, record mux { queue = Tasks.cancel_put mux.queue task })

-- The loop of `_graceful_channel_shutdown`.
shutdown_channels : MultiQueue → List Channel → MultiQueue × List Effect
shutdown_channels queue [] = (queue, [])
shutdown_channels queue (c ∷ cs) =
    let (outcome, l) =
      Channel.close
        (record { channel = c; output = State.delete_channel queue c.id; calls = [] }) in
    let (queue', effects) = shutdown_channels l.output cs in
    (queue', pauses l ++ released l.channel ∷ effects)

unfoldable pub graceful_channel_shutdown : Multiplexer → Multiplexer × List Effect
unfolding shutdown_channels
graceful_channel_shutdown mux =
    let (queue, effects) = shutdown_channels mux.queue (values mux.channels) in
    (record mux { queue = queue; channels = [] }, effects)
