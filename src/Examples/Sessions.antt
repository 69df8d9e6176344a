-- ===== src/Examples/Sessions.antt =====
-- Transports, tokens and the handlers of connections at concrete inputs.
use snitun.Prelude.{
  ◌≡◌, refl, true, false, Option, some, none, List, [], ◌∷◌, ◌++◌, arith, replicate, ◌⊎◌,
}
use snitun.Bytes.{Bytes, Text}
use snitun.Exceptions.{Result, ok}
use snitun.IpAddress.{v4}
use snitun.Queue.Multi.State
use snitun.Channel
use snitun.Transport.{ChannelTransport, Protocol, feed_data_to_buffered_proto}
use snitun.Transport
use snitun.Transport.Feed.{Accepts, feed_data_to_buffered_proto-whole}
use snitun.Transport.Reader.{finished, new_reader}
use snitun.Transport.Reader.Keeps.{kept}
use snitun.Transport.Reader.Delivery.{Event, reader_goes, cancelled, others, run, run-delivers}
use snitun.Crypto.{CryptoTransport, gcm, direction_prefix, create_crypto_transport}
use snitun.Challenge.{Entropy}
use snitun.Token.{TokenData, get, token_payload, generate_client_token}
use snitun.Token.Established.{Opens, Established, start-create_peer}
use snitun.PeerManager.{PeerManager, Store}
use snitun.PeerListener.{Visit, Handled, disconnected, attempt_started, attempt_success}
use snitun.PeerListener.Settled.{Settled}
use snitun.Examples.Wire.{plain, plain_laws}

-- A protocol with a buffer of two bytes.
abbrev small_buffers : Protocol (Unit {0})
small_buffers = record {
  is_buffered = λ proto. true;
  max_size = λ proto. some 3;
  get_buffer = λ proto size t. (ok 2, t);
  buffer_updated = λ proto written t. (ok tt, t);
  pause_writing = λ proto t. (ok tt, t);
  resume_writing = λ proto t. (ok tt, t);
}

small_buffers-Accepts : Accepts small_buffers 0
small_buffers-Accepts = record { room = λ size t. (1, t, refl); takes = λ written t. (t, refl) }

abbrev idle : ChannelTransport (Unit {0})
idle =
    Transport.new
      (record { channel = Channel.new (v4 1) 1 true 7; output = State.new 1000 10 100; calls = [] })
      tt

feed_data_to_buffered_proto-whole_example :
    let fed = feed_data_to_buffered_proto small_buffers 0 (1 ∷ 2 ∷ 3 ∷ 4 ∷ 5 ∷ []) idle in
    (fed.result ≡ ok tt) × (fed.given ≡ 1 ∷ 2 ∷ 3 ∷ 4 ∷ 5 ∷ [])
feed_data_to_buffered_proto-whole_example =
    feed_data_to_buffered_proto-whole small_buffers 0 small_buffers-Accepts (1 ∷ 2 ∷ 3 ∷ 4 ∷ 5 ∷ [])
      idle

-- With a protocol, and with a message in the channel.
abbrev busy : ChannelTransport (Unit {0})
busy = record idle {
  link = record idle.link {
    channel = record idle.link.channel {
      input = record idle.link.channel.input {
        queue =
            some (record { id = 7; flow_type = 2; payload = 1 ∷ 2 ∷ 3 ∷ 4 ∷ []; extra = [] }) ∷ [];
        total_bytes = 36;
      };
    };
  };
  protocol = some 0;
  protocol_ready = true;
  protocol_set = true;
}

abbrev events : List (Event (Unit {0}))
events =
    reader_goes
    ∷ reader_goes
    ∷ reader_goes
    ∷ reader_goes
    ∷ others (λ t. record t { pause_future = some 0 })
    ∷ reader_goes
    ∷ cancelled
    ∷ []

run-delivers_example :
    let moved = run small_buffers events busy new_reader in
    (lost : Bytes) × (moved.given ++ kept moved.reader.place ++ lost ≡ moved.taken)
    × ((lost ≡ []) ⊎ ((result : Result (Unit {0})) × (moved.reader.place ≡ finished result)))
run-delivers_example = run-delivers small_buffers events busy

-- The start of a PROXY header in one chunk, its end and a ClientHello's start in the other.
abbrev proxied : List Bytes
proxied =
    (80 ∷ 82 ∷ 79 ∷ 88 ∷ 89 ∷ 32 ∷ 85 ∷ 78 ∷ 75 ∷ [])
    ∷ (78 ∷ 79 ∷ 87 ∷ 78 ∷ 13 ∷ 10 ∷ 22 ∷ 3 ∷ [])
    ∷ []

abbrev host : Text
host = 97 ∷ 46 ∷ 98 ∷ []

abbrev key : Bytes
key = replicate 32 9

abbrev iv : Bytes
iv = replicate 16 8

abbrev sealed : TokenData → Bytes
sealed token = get [] token.hostname

-- A Fernet that knows one host only.
abbrev opened : Bytes → Option TokenData
opened bytes = some (record (token_payload 100 50 host key iv "aes-gcm") { hostname = some bytes })

opened-Opens : Opens sealed opened 100 50 host key iv "aes-gcm"
unfolding generate_client_token token_payload
opened-Opens = refl

abbrev client : CryptoTransport
client = gcm key (direction_prefix true) 0

abbrev digest : Bytes → Bytes
digest bytes = replicate 32 5

abbrev random : Entropy
random = record { token = replicate 40 3; nonce = replicate 12 4 }

start-create_peer_example :
    Established sealed opened 100 50 host key iv "aes-gcm" plain opened-Opens
      (omega arith)
      (omega arith)
      none
      120
      (omega arith)
      plain_laws
      digest
      random
      (replicate 12 6)
      client
unfolding create_crypto_transport
start-create_peer_example =
    start-create_peer sealed opened 100 50 host key iv "aes-gcm" plain opened-Opens (omega arith)
      (omega arith) none 120 (omega arith) plain_laws digest random (replicate 12 6) client
      (λ bytes. refl) refl refl refl

-- A peer with a good token and the right answer, which leaves at last.
abbrev visit : Visit
visit = record {
  pre_read = some host;
  first_read = ok [];
  now = 120;
  has_metrics = true;
  id = 3;
  entropy = random;
  reply = λ unit n. ok (replicate 12 6 ++ (replicate 32 5 ++ replicate 16 0));
  wakes = disconnected ∷ [];
  others = λ m. m;
}

abbrev no_peers : PeerManager
no_peers = record { peers = []; event_callback = false; effects = [] }

abbrev nobody : Store
nobody id = record { hostname = []; alias_names = []; multiplexer = none }

abbrev goodbye : Handled
goodbye = record {
  raised = ok tt;
  writer_closed = true;
  metrics = attempt_started ∷ attempt_success ∷ [];
  manager = no_peers;
}
