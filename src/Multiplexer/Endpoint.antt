-- ===== src/Multiplexer/Endpoint.antt =====
-- A multiplexer with its connection (snitun/multiplexer/core.py): its end, what it writes and how it handles
-- a message, and its ping.
use snitun.Prelude.{
  nat_eq, ℕ, Bool, true, false, not, Option, List, [], ◌∷◌, ◌++◌, length, if◌then◌else◌,
}
use snitun.Exceptions.{Result, ok, err, transport_close, transport_error, os_error, timeout_error}
use snitun.Bytes.{Bytes}
use snitun.Message.{ChannelId, MultiplexerMessage, channel_flow_ping}
use snitun.Crypto.{Primitives, CryptoTransport}
use snitun.Queue.Multi.State.{MultiQueue}
use snitun.RangedTimeout
use snitun.RangedTimeout.{RangedTimeout}
use snitun.Multiplexer.Frame.{Entropy, write_frame}
use snitun.Multiplexer.State.{
  Multiplexer, Effect, writes, handle_message, graceful_channel_shutdown,
}

-- The multiplexer with its transport, its timer, the stream that it writes, and its tasks. `log` has
-- what it made others do.
pub record Endpoint : Type 0 where
  pub mux : Multiplexer
  pub crypto : CryptoTransport
  pub timeout : RangedTimeout
  pub throttling : Option ℕ
  -- Whether the transport is closing, and whether `write_eof` was called.
  pub closing : Bool
  pub eof : Bool
  pub written : Bytes
  pub write_cancelled : Bool
  pub write_done : Bool
  pub read_cancelled : Bool
  pub read_done : Bool
  pub log : List Effect

abbrev pub peer_tcp_min_timeout : ℕ
peer_tcp_min_timeout = 90

abbrev pub peer_tcp_max_timeout : ℕ
peer_tcp_max_timeout = 120

-- `__init__`: the limits of the queue are set for the process.
unfoldable pub new : CryptoTransport → ℕ → Bool → Option ℕ → MultiQueue → ℕ → Endpoint
new crypto version accepts throttling queue now = record {
  mux = record {
    peer_protocol_version = version;
    accepts = accepts;
    healthy = true;
    queue = queue;
    channels = [];
  };
  crypto = crypto;
  timeout = RangedTimeout.new peer_tcp_min_timeout peer_tcp_max_timeout now;
  throttling = throttling;
  closing = false;
  eof = false;
  written = [];
  write_cancelled = false;
  write_done = false;
  read_cancelled = false;
  read_done = false;
  log = [];
}

-- What a round of a loop is given.
pub record Round : Type 0 where
  pub now : ℕ
  pub entropy : Entropy
  pub drained : Result (Unit {0})

unfoldable pub is_connected : Endpoint → Bool
is_connected ep = not ep.write_done

-- `_on_timeout`
unfoldable pub on_timeout : Endpoint → Endpoint
on_timeout ep = record ep { write_cancelled = true }

-- `_graceful_channel_shutdown`
unfoldable pub close_channels : Endpoint → Endpoint
close_channels ep =
    let (mux, effects) = graceful_channel_shutdown ep.mux in
    record ep { mux = mux; log = ep.log ++ effects }

unfoldable pub shutdown : Endpoint → Endpoint
unfolding close_channels
shutdown ep = if ep.write_done then ep else close_channels (record ep { write_cancelled = true })

module _ (p : Primitives) where
  -- `write` raises `RuntimeError` behind an end of file.
  unfoldable pub sent :
      MultiplexerMessage → Endpoint → Result (Bytes × CryptoTransport) → Result ℕ × Endpoint
  sent m ep (err e) = (err e, ep)
  sent m ep (ok (bytes, crypto)) =
      if ep.eof
      then (err transport_close, record ep { crypto = crypto })
      else (ok (length m.payload), record ep { crypto = crypto; written = ep.written ++ bytes })

  -- `_write_message`: where the encryption raises, the transport is as before.
  unfoldable pub write_message : Entropy → MultiplexerMessage → Endpoint → Result ℕ × Endpoint
  unfolding sent
  write_message e m ep = sent m ep (write_frame p e ep.mux.peer_protocol_version ep.crypto m)

  -- What `_read_message` makes others do. Where a write raises, the rest is not done.
  unfoldable pub performed :
      (Endpoint → Result (Unit {0}) × Endpoint) → Result ℕ × Endpoint → Result (Unit {0}) × Endpoint
  performed next (err e, ep) = (err e, ep)
  performed next (ok _, ep) = next ep

  unfoldable pub perform : Entropy → List Effect → Endpoint → Result (Unit {0}) × Endpoint
  unfolding performed
  perform e [] ep = (ok tt, ep)
  perform e (writes m ∷ effects) ep = performed (perform e effects) (write_message e m ep)
  perform e (effect ∷ effects) ep = perform e effects (record ep { log = ep.log ++ effect ∷ [] })

  -- After the message was handled: what it raised, or what a write raised.
  unfoldable pub concluded :
      Result (Unit {0}) → Result (Unit {0}) × Endpoint → Result (Unit {0}) × Endpoint
  concluded outcome (err e, ep) = (err e, ep)
  concluded outcome (ok _, ep) = (outcome, ep)

  unfoldable pub receive : Entropy → MultiplexerMessage → Endpoint → Result (Unit {0}) × Endpoint
  unfolding concluded perform
  receive e m ep =
      let turn = handle_message ep.mux m in
      concluded turn.outcome (perform e turn.effects (record ep { mux = turn.mux }))

  -- `ping`, up to its wait for the pong: `id` is what `os.urandom` returns.
  unfoldable pub ping : Entropy → ChannelId → Endpoint → Result ℕ × Endpoint
  ping e id ep =
      write_message e
        (record {
          id = id;
          flow_type = channel_flow_ping;
          payload = [];
          extra = b'p' ∷ b'i' ∷ b'n' ∷ b'g' ∷ [];
        })
        (record ep { mux = record ep.mux { healthy = false } })

  -- What ping raises, and whether a shutdown is scheduled: `waited` is what the write or the wait for
  -- the pong comes to.
  unfoldable pub pinged : Result (Unit {0}) → Result (Unit {0}) × Bool
  pinged (ok _) = (ok tt, false)
  pinged (err timeout_error) = (err transport_error, true)
  pinged (err os_error) = (err transport_error, true)
  pinged (err e) = (err e, false)
