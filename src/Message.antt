-- ===== src/Message.antt =====
-- snitun/multiplexer/message.py: messages and the 32 byte frame header.
pub mod RoundTrip
use snitun.Prelude.{
  ℕ, ◌^◌, Bool, ◌&&◌, ◌||◌, Option, none, some, ◌∷◌, ◌++◌, ltb, ◌==◌, if◌then◌else◌, length, take,
  drop, replicate,
}
use snitun.Bytes.{Bytes, to_bytes, from_bytes}

abbrev pub min_protocol_version_for_pause_resume : ℕ
min_protocol_version_for_pause_resume = 1

abbrev pub min_protocol_version_for_encrypted_new : ℕ
min_protocol_version_for_encrypted_new = 2

abbrev pub channel_flow_new : ℕ
channel_flow_new = 0x01

abbrev pub channel_flow_data : ℕ
channel_flow_data = 0x02

abbrev pub channel_flow_close : ℕ
channel_flow_close = 0x04

abbrev pub channel_flow_ping : ℕ
channel_flow_ping = 0x08

abbrev pub channel_flow_pause : ℕ
channel_flow_pause = 0x16

abbrev pub channel_flow_resume : ℕ
channel_flow_resume = 0x32

abbrev pub header_size : ℕ
header_size = 32

-- A channel id is 16 bytes that the code only compares: it is kept as the number that they spell.
abbrev pub ChannelId : Type 0
ChannelId = ℕ

-- `payload` is the field `data`.
pub record MultiplexerMessage : Type 0 where
  pub id : ChannelId
  pub flow_type : ℕ
  pub payload : Bytes
  pub extra : Bytes

-- The fields of `HEADER_STRUCT`, as `unpack` returns them.
pub record Header : Type 0 where
  pub id : Bytes
  pub flow_type : ℕ
  pub size : ℕ
  pub extra : Bytes

-- The format `Ns`: cut, or padded with zeros.
unfoldable pub fit : ℕ → Bytes → Bytes
fit n bs = take n (bs ++ replicate n 0)

-- `HEADER_STRUCT.pack`, for `>16sBI11s`; `none` is `struct.error`, a number that does not fit.
unfoldable pub pack : Header → Option Bytes
pack h =
    if ltb h.flow_type 256 && ltb h.size (2 ^ 32)
    then some (fit 16 h.id ++ h.flow_type ∷ (to_bytes 4 h.size ++ fit 11 h.extra))
    else none

-- `HEADER_STRUCT.unpack`; `none` is `struct.error`, a wrong length.
unfoldable pub unpack : Bytes → Option Header
unpack bs =
    let flow = drop 16 bs in
    let size = drop 1 flow in
    if length bs == header_size
    then some (record {
      id = take 16 bs;
      flow_type = from_bytes (take 1 flow);
      size = from_bytes (take 4 size);
      extra = drop 4 size;
    })
    else none

-- `FlowType(flow_type)` does not raise.
unfoldable pub is_flow_type : ℕ → Bool
is_flow_type f =
    f == channel_flow_new
    || f == channel_flow_data
    || f == channel_flow_close
    || f == channel_flow_ping
    || f == channel_flow_pause
    || f == channel_flow_resume
