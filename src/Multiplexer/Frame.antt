-- ===== src/Multiplexer/Frame.antt =====
-- The frames of `_write_message` and `_read_message`. A stream is what will still arrive on it.
pub mod RoundTrip
use snitun.Prelude.{
  ℕ, ◌+◌, ◌-◌, Bool, ◌&&◌, Option, none, some, [], ◌++◌, leb, ltb, ◌==◌, if◌then◌else◌, length,
  take, drop,
}
use snitun.Exceptions.{
  ◌>>=◌, Result, ok, err, or_raise, incomplete_read, transport_close, transport_decrypt,
  struct_error, value_error,
}
use snitun.Bytes.{Bytes, to_bytes, from_bytes}
use snitun.Message.{
  Header, MultiplexerMessage, pack, unpack, header_size, channel_flow_new,
  min_protocol_version_for_encrypted_new,
}
use snitun.Crypto.{Primitives, CryptoTransport, encrypt, decrypt, overhead}

-- What `os.urandom` returns while a frame is written.
pub record Entropy : Type 0 where
  pub pad : ℕ → Bytes
  pub header_nonce : Bytes
  pub data_nonce : Bytes

-- The data is encrypted: it is the address of a new channel, and the peer speaks version 2.
unfoldable pub is_encrypted : ℕ → ℕ → Bool
is_encrypted version flow_type =
    flow_type == channel_flow_new && leb min_protocol_version_for_encrypted_new version

-- The header of a message; `os.urandom` raises `ValueError` if `extra` is longer than its field.
unfoldable pub header_of : Entropy → MultiplexerMessage → Result Bytes
header_of e m =
    if ltb 11 (length m.extra)
    then err value_error
    else or_raise
        (pack (record {
          id = to_bytes 16 m.id;
          flow_type = m.flow_type;
          size = length m.payload;
          extra = m.extra ++ e.pad (11 - length m.extra);
        }))
        struct_error

-- A closing stream: `writer.write` raises `RuntimeError`, which becomes a transport close.
module _ (p : Primitives) where
  unfoldable pub body_of :
      Entropy → ℕ → CryptoTransport → MultiplexerMessage → Result (Bytes × CryptoTransport)
  unfolding is_encrypted
  body_of e version t m =
      if is_encrypted version m.flow_type && ltb 0 (length m.payload)
      then encrypt p e.data_nonce t m.payload
      else ok (m.payload, t)

  -- `_write_message`: the bytes that are written, and the transport after it.
  unfoldable pub write_frame :
      Entropy → ℕ → CryptoTransport → MultiplexerMessage → Result (Bytes × CryptoTransport)
  unfolding header_of body_of
  write_frame e version t m = do
    header ← header_of e m
    (head, t') ← encrypt p e.header_nonce t header
    (body, t'') ← body_of e version t' m
    ok (head ++ body, t'')

-- `reader.readexactly`
unfoldable pub readexactly : ℕ → Bytes → Result (Bytes × Bytes)
readexactly n stream =
    if leb n (length stream) then ok (take n stream, drop n stream) else err incomplete_read

-- `except MultiplexerTransportDecrypt: raise MultiplexerTransportClose`
abbrev pub close_on_decrypt {ℓ} : {A : Type ℓ} → Result A → Result A
close_on_decrypt (ok a) = ok a
close_on_decrypt (err transport_decrypt) = err transport_close
close_on_decrypt (err e) = err e

-- `none` for the message is a header that does not unpack, which is only logged.
pub record Received : Type 0 where
  pub message : Option MultiplexerMessage
  pub transport : CryptoTransport
  pub rest : Bytes

module _ (p : Primitives) where
  unfoldable pub read_body :
      ℕ → CryptoTransport → Header → Bytes → Result (Bytes × CryptoTransport × Bytes)
  unfolding is_encrypted readexactly
  read_body version t h stream =
      if h.size == 0
      then ok ([], t, stream)
      else if is_encrypted version h.flow_type
      then (do
        (unit, rest) ← readexactly (h.size + overhead t) stream
        (payload, t') ← close_on_decrypt (decrypt p t unit)
        ok (payload, t', rest))
      else (do (payload, rest) ← readexactly h.size stream; ok (payload, t, rest))

  unfoldable pub read_rest : ℕ → CryptoTransport → Option Header → Bytes → Result Received
  unfolding read_body
  read_rest version t none stream = ok (record { message = none; transport = t; rest = stream })
  read_rest version t (some h) stream = do
    (payload, t', rest) ← read_body version t h stream
    ok (record {
      message = some (record {
        id = from_bytes h.id;
        flow_type = h.flow_type;
        payload = payload;
        extra = h.extra;
      });
      transport = t';
      rest = rest;
    })

  -- `_read_message` up to the message.
  unfoldable pub read_frame : ℕ → CryptoTransport → Bytes → Result Received
  unfolding read_rest readexactly
  read_frame version t stream = do
    (unit, rest) ← readexactly (header_size + overhead t) stream
    (header, t') ← close_on_decrypt (decrypt p t unit)
    read_rest version t' (unpack header) rest
