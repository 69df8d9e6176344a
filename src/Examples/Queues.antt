-- ===== src/Examples/Queues.antt =====
-- Queues, channels and the multiplexer at concrete inputs.
use snitun.Prelude.{◌≡◌, refl, true, false, some, List, [], ◌∷◌, arith, inl, inr}
use snitun.Exceptions.{err, key_error, runtime_error, transport_close}
use snitun.IpAddress.{v4}
use snitun.Message.{ChannelId, MultiplexerMessage}
use snitun.Queue.Items.{effective_size, Item}
use snitun.Queue.Multi.State
use snitun.Queue.Multi.State.{MultiQueue, Event, get_nowait}
use snitun.Queue.Multi.Tasks.{PutTask, finished, resume_put}
use snitun.Queue.Multi.Invariant.{IsQueue, new-IsQueue}
use snitun.Queue.Multi.Turns.{
  count_gets, Op, creates, puts, gets, step, run, run-IsQueue, run-in_turn,
}
use snitun.Queue.Multi.Dropped.{resume_put_dropped}
use snitun.Channel
use snitun.Channel.{Channel, Link, read, returned}
use snitun.Channel.Reads.{drain, payloads, drain-closed, read_lost}
use snitun.Multiplexer.State.{Multiplexer}

abbrev message : ChannelId → MultiplexerMessage
message id = record { id = id; flow_type = 2; payload = 104 ∷ 105 ∷ []; extra = [] }

abbrev item : Item
item = some (message 1)

abbrev empty : MultiQueue
empty = State.new 1000 10 100

empty-IsQueue : IsQueue empty
empty-IsQueue = new-IsQueue 1000 10 100 (omega arith)

-- Two channels with a message each.
abbrev ops : List Op
ops = creates 1 ∷ creates 2 ∷ puts 1 item ∷ puts 2 (some (message 2)) ∷ []

abbrev two : MultiQueue
two = run empty ops

two-IsQueue : IsQueue two
two-IsQueue = run-IsQueue empty ops empty-IsQueue

run-IsQueue_example : IsQueue (run empty ops)
run-IsQueue_example = run-IsQueue empty ops empty-IsQueue

run-in_turn_example :
    (rest : List ChannelId) × ((run two (puts 1 item ∷ gets ∷ [])).order ≡ 2 ∷ rest)
unfolding run step State.put_nowait State.create_channel effective_size count_gets
run-in_turn_example = run-in_turn two (puts 1 item ∷ gets ∷ []) (1 ∷ []) [] 2 two-IsQueue refl refl

abbrev late : PutTask
late = record { id = 1; ref = 0; item = item; putter = 0 }

resume_put_dropped_example :
    (q' : MultiQueue) × (event : Event) × (resume_put empty late ≡ finished q' event)
    × (get_nowait q' ≡ err key_error)
unfolding State.is_full effective_size
resume_put_dropped_example = resume_put_dropped empty late refl refl refl

-- A channel that was closed with a message left.
abbrev channel : Channel
channel = record (Channel.new (v4 1) 1 true 7) {
  closing = true;
  input = record {
    maxsize = 100;
    low_water_mark = 40;
    high_water_mark = 50;
    queue = item ∷ [];
    total_bytes = 60;
    under_water = true;
  };
}

abbrev link : Link
link = record { channel = channel; output = empty; calls = [] }

abbrev calm : Link
calm = record {
  channel = record channel { input = record channel.input { under_water = false } };
  output = empty;
  calls = [];
}

read_lost_example :
    (l' : Link) × (read link ≡ returned (err runtime_error, l')) × (l'.channel.input.queue ≡ [])
unfolding effective_size
read_lost_example = read_lost link (message 1) [] refl (omega arith) refl refl refl (omega arith)

drain-closed_example :
    (l' : Link) × (drain 2 calm ≡ some (payloads (item ∷ []), transport_close, l'))
drain-closed_example = drain-closed 2 calm refl (inr (inl refl)) (omega arith)

abbrev mux : Multiplexer
mux = record {
  peer_protocol_version = 1;
  accepts = true;
  healthy = true;
  queue = empty;
  channels = [];
}
