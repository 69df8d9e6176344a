-- ===== src/Channel.antt =====
-- snitun/multiplexer/channel.py: a channel with its input queue and its flow control.
-- A `Link` is the channel with the output queue that it shares, and the calls of its
-- `pause_resume_reader_callback` so far. A method that raises leaves what it wrote before.
pub mod FlowControl
pub mod Reader
pub mod Reads
pub mod Links
use snitun.Prelude.{
  ℕ, ◌-◌, ◌*◌, ◌%◌, Bool, true, false, not, ◌&&◌, ◌||◌, Option, none, some, List, [], ◌∷◌, ◌++◌,
  leb, ltb, ◌==◌, if◌then◌else◌, length,
}
use snitun.Exceptions.{Result, ok, err, queue_full, transport_error, transport_close}
use snitun.Bytes.{Bytes}
use snitun.IpAddress.{IpAddress, v4, v6, empty_ip_address, ip_address_to_bytes}
use snitun.Message.{
  ChannelId, MultiplexerMessage, min_protocol_version_for_pause_resume,
  min_protocol_version_for_encrypted_new, channel_flow_new, channel_flow_data, channel_flow_close,
  channel_flow_pause, channel_flow_resume,
}
use snitun.Queue.Items.{Item}
use snitun.Queue.Single
use snitun.Queue.Single.{SingleQueue}
use snitun.Queue.Multi.State.{MultiQueue, Event}
use snitun.Queue.Multi.State
use snitun.Queue.Multi.Tasks
use snitun.Queue.Multi.Tasks.{PutTask, PutState, finished, waiting}

-- The defaults of snitun/multiplexer/const.py.
abbrev pub incoming_queue_max_bytes_channel : ℕ
incoming_queue_max_bytes_channel = 1024 * 1024 * 65

abbrev pub incoming_queue_low_watermark : ℕ
incoming_queue_low_watermark = 1024 * 512

abbrev pub incoming_queue_high_watermark : ℕ
incoming_queue_high_watermark = 1024 * 1024 * 2

abbrev pub incoming_queue_max_bytes_channel_v0 : ℕ
incoming_queue_max_bytes_channel_v0 = 1024 * 1024 * 256

pub record Channel : Type 0 where
  pub id : ChannelId
  pub ip_address : IpAddress
  pub peer_protocol_version : ℕ
  pub closing : Bool
  pub local_output_under_water : Bool
  pub remote_input_under_water : Bool
  pub reader_paused : Bool
  -- Whether `_pause_resume_reader_callback` is set.
  pub has_callback : Bool
  pub input : SingleQueue

pub record Link : Type 0 where
  pub channel : Channel
  pub output : MultiQueue
  pub calls : List Bool

-- `__init__` but for `create_channel` on the output queue, with an id that is given.
abbrev pub new : IpAddress → ℕ → Bool → ChannelId → Channel
new ip version callback id = record {
  id = id;
  ip_address = ip;
  peer_protocol_version = version;
  closing = false;
  local_output_under_water = false;
  remote_input_under_water = false;
  reader_paused = false;
  has_callback = callback;
  input =
      Single.new
        (if version == 0
          then incoming_queue_max_bytes_channel_v0
          else incoming_queue_max_bytes_channel)
        incoming_queue_low_watermark incoming_queue_high_watermark;
}

unfoldable pub set_pause_resume_reader_callback : Channel → Channel
set_pause_resume_reader_callback c = record c { has_callback = true }

abbrev bool_ne : Bool → Bool → Bool
bool_ne a b = if a then not b else b

-- `_pause_or_resume_reader`: the channel, and the call that it makes.
unfoldable pub pause_or_resume_reader : Channel → Channel × List Bool
pause_or_resume_reader c =
    let pause_reader = c.local_output_under_water || c.remote_input_under_water in
    if c.has_callback && bool_ne c.reader_paused pause_reader
    then (record c { reader_paused = pause_reader }, pause_reader ∷ [])
    else (c, [])

unfoldable pub on_local_output_under_water : Channel → Bool → Channel × List Bool
unfolding pause_or_resume_reader
on_local_output_under_water c under_water =
    pause_or_resume_reader (record c { local_output_under_water = under_water })

unfoldable pub on_remote_input_under_water : Channel → Bool → Channel × List Bool
unfolding pause_or_resume_reader
on_remote_input_under_water c under_water =
    pause_or_resume_reader (record c { remote_input_under_water = under_water })

-- The output queue's `under_water_callback`, if it was called.
unfoldable pub hear : Link → MultiQueue → Event → Link
unfolding on_local_output_under_water
hear l output none = record l { output = output }
hear l output (some (id, under_water)) =
    let (channel, calls) = on_local_output_under_water l.channel under_water in
    record { channel = channel; output = output; calls = l.calls ++ calls }

abbrev pub message_of : ChannelId → ℕ → MultiplexerMessage
message_of id flow_type = record { id = id; flow_type = flow_type; payload = []; extra = [] }

-- What comes of a `put_nowait` on the output queue, where a full queue is only logged.
unfoldable pub forgive_full : Link → Result (MultiQueue × Event) → Result (Unit {0}) × Link
unfolding hear
forgive_full l (ok (output, event)) = (ok tt, hear l output event)
forgive_full l (err queue_full) = (ok tt, l)
forgive_full l (err e) = (err e, l)

-- `_on_local_input_under_water`
unfoldable pub on_local_input_under_water : Link → Bool → Result (Unit {0}) × Link
unfolding forgive_full
on_local_input_under_water l under_water =
    let msg_type = if under_water then channel_flow_pause else channel_flow_resume in
    if ltb l.channel.peer_protocol_version min_protocol_version_for_pause_resume
    then (ok tt, l)
    else forgive_full l
        (State.put_nowait l.output l.channel.id (some (message_of l.channel.id msg_type)))

-- The input queue's `under_water_callback`, if it was called.
unfoldable pub notify : Link → Option Bool → Result (Unit {0}) × Link
unfolding on_local_input_under_water
notify l none = (ok tt, l)
notify l (some under_water) = on_local_input_under_water l under_water

abbrev pub with_input : Link → SingleQueue → Link
with_input l input = record l { channel = record l.channel { input = input } }

-- A `put_nowait` on the input queue, where a full queue is only logged or suppressed.
unfoldable pub feed : Link → Result (SingleQueue × Option Bool) → Result (Unit {0}) × Link
unfolding notify
feed l (ok (input, event)) = notify (with_input l input) event
feed l (err e) = (ok tt, l)

unfoldable pub close : Link → Result (Unit {0}) × Link
unfolding feed
close l =
    let closed = record l { channel = record l.channel { closing = true } } in
    feed closed (Single.put_nowait closed.channel.input none)

unfoldable pub message_transport : Link → MultiplexerMessage → Result (Unit {0}) × Link
unfolding feed
message_transport l message =
    if l.channel.closing
    then (ok tt, l)
    else feed l (Single.put_nowait l.channel.input (some message))

unfoldable pub make_message_or_raise : Channel → Bytes → Result MultiplexerMessage
unfolding State.is_empty
make_message_or_raise c payload =
    if State.is_empty payload
    then err transport_error
    else if c.closing
    then err transport_close
    else ok (record { id = c.id; flow_type = channel_flow_data; payload = payload; extra = [] })

-- `put_nowait` for a write: a full queue becomes a transport error.
unfoldable pub sent : Link → Result (MultiQueue × Event) → Result (Unit {0}) × Link
unfolding hear
sent l (ok (output, event)) = (ok tt, hear l output event)
sent l (err queue_full) = (err transport_error, l)
sent l (err e) = (err e, l)

send : Link → Result MultiplexerMessage → Result (Unit {0}) × Link
unfolding sent
send l (err e) = (err e, l)
send l (ok message) = sent l (State.put_nowait l.output l.channel.id (some message))

unfoldable pub write_no_wait : Link → Bytes → Result (Unit {0}) × Link
unfolding send make_message_or_raise
write_no_wait l payload = send l (make_message_or_raise l.channel payload)

-- `write`, up to its end or to the wait for room on the output queue, which has a timeout.
pub data WriteState : Type 0 where
  ended : Result (Unit {0}) × Link → WriteState
  suspended : Link → PutTask → WriteState

unfoldable pub await_room : Link → Result PutState → WriteState
unfolding hear
await_room l (ok (finished output event)) = ended (ok tt, hear l output event)
await_room l (ok (waiting output task)) = suspended (record l { output = output }) task
await_room l (err e) = ended (err e, l)

retry_put : Link → MultiplexerMessage → Result (MultiQueue × Event) → WriteState
unfolding hear await_room
retry_put l message (ok (output, event)) = ended (ok tt, hear l output event)
retry_put l message (err queue_full) = await_room l (Tasks.put l.output l.channel.id (some message))
retry_put l message (err e) = ended (err e, l)

write_message : Link → Result MultiplexerMessage → WriteState
unfolding retry_put
write_message l (err e) = ended (err e, l)
write_message l (ok message) =
    retry_put l message (State.put_nowait l.output l.channel.id (some message))

unfoldable pub write : Link → Bytes → WriteState
unfolding write_message make_message_or_raise
write l payload = write_message l (make_message_or_raise l.channel payload)

-- The suspended put goes on, or its five seconds are over.
unfoldable pub resume_write : Link → PutTask → WriteState
unfolding await_room
resume_write l task = await_room l (ok (Tasks.resume_put l.output task))

unfoldable pub timeout_write : Link → PutTask → WriteState
timeout_write l task =
    ended (err transport_error, record l { output = Tasks.cancel_put l.output task })

-- `read` returns the data of a message, raises, or waits on an empty input queue.
pub data ReadState : Type 0 where
  blocked : ReadState
  returned : Result Bytes × Link → ReadState

-- A message, or the end of the channel, behind the callback of the input queue.
deliver : Item → Result (Unit {0}) × Link → Result Bytes × Link
deliver item (err e, l) = (err e, l)
deliver (some message) (ok _, l) = (ok message.payload, l)
deliver none (ok _, l) = (err transport_close, l)

take_input : Link → Result (Item × SingleQueue × Option Bool) → ReadState
unfolding deliver notify
take_input l (ok (item, input, event)) = returned (deliver item (notify (with_input l input) event))
take_input l (err e) = blocked

unfoldable pub read : Link → ReadState
unfolding take_input Single.empty
read l =
    if l.channel.closing && Single.empty l.channel.input
    then returned (err transport_close, l)
    else take_input l (Single.get_nowait l.channel.input)

unfoldable pub init_close : Channel → MultiplexerMessage
init_close c = message_of c.id channel_flow_close

abbrev pub aes_block_size : ℕ
aes_block_size = 16

-- `-n % 16`
unfoldable pub padding : ℕ → ℕ
padding n = (aes_block_size - n % aes_block_size) % aes_block_size

-- `family + ip_address_to_bytes(ip)`
unfoldable pub address_block : IpAddress → Bytes
address_block (v4 n) = b'4' ∷ ip_address_to_bytes (v4 n)
address_block (v6 n) = b'6' ∷ ip_address_to_bytes (v6 n)

-- What a peer of version 0 or 1 can be told.
unfoldable pub legacy_address : IpAddress → IpAddress
legacy_address (v4 n) = v4 n
legacy_address (v6 n) = empty_ip_address

-- `random` stands for `os.urandom`.
unfoldable pub init_new : (ℕ → Bytes) → Channel → MultiplexerMessage
unfolding address_block padding legacy_address
init_new random c =
    let block = address_block c.ip_address in
    if leb min_protocol_version_for_encrypted_new c.peer_protocol_version
    then record {
      id = c.id;
      flow_type = channel_flow_new;
      payload = block ++ random (padding (length block));
      extra = [];
    }
    else record {
      id = c.id;
      flow_type = channel_flow_new;
      payload = [];
      extra = b'4' ∷ ip_address_to_bytes (legacy_address c.ip_address);
    }
