-- ===== src/Challenge.antt =====
-- The challenge and the response at the start of a session: `init_multiplexer_challenge` of
-- snitun/server/peer.py, and `start` and `stop` of snitun/client/client_peer.py. `sha256` stands for
-- `hashlib.sha256(_).digest()`, and what the streams do is an argument.
pub mod Agreement
pub mod Session
use Prim.Native.String.{String}
use snitun.Prelude.{ℕ, ◌+◌, Bool, true, false, not, Option, none, some, if◌then◌else◌}
use snitun.Bytes.{Bytes, bytes_eq}
use snitun.Exceptions.{
  ◌>>=◌, Exception, Result, ok, err, challenge_error, connection_error, timeout_error, os_error,
  incomplete_read, transport_decrypt, assertion_error, runtime_error,
}
use snitun.Crypto.{Primitives, CryptoTransport, overhead, encrypt, decrypt, create_crypto_transport}

-- `assert`
abbrev pub check : Bool → Result (Unit {0})
check true = ok tt
check false = err assertion_error

-- The exceptions of `init_multiplexer_challenge` that become a SniTunChallengeError.
unfoldable pub catches_challenge : Exception → Bool
catches_challenge timeout_error = true
catches_challenge incomplete_read = true
catches_challenge transport_decrypt = true
catches_challenge assertion_error = true
catches_challenge os_error = true
catches_challenge _ = false

unfoldable pub as_challenge_error : {A : Type 0} → Result A → Result A
unfolding catches_challenge
as_challenge_error (ok a) = ok a
as_challenge_error (err e) = if catches_challenge e then err challenge_error else err e

-- The exceptions of a phase of `ClientPeer.start` that become a SniTunConnectionError.
unfoldable pub as_connection_error : {A : Type 0} → (Exception → Bool) → Result A → Result A
as_connection_error catches (ok a) = ok a
as_connection_error catches (err e) = if catches e then err connection_error else err e

-- The connection is opened.
unfoldable pub catches_open : Exception → Bool
catches_open timeout_error = true
catches_open os_error = true
catches_open _ = false

-- The token is written.
unfoldable pub catches_token : Exception → Bool
catches_token timeout_error = true
catches_token _ = false

-- The challenge is answered.
unfoldable pub catches_response : Exception → Bool
catches_response timeout_error = true
catches_response transport_decrypt = true
catches_response incomplete_read = true
catches_response os_error = true
catches_response _ = false

abbrev pub digest_size : ℕ
digest_size = 32

-- What `os.urandom` returns to one end: for the token of the server, and for the nonce of the unit.
pub record Entropy : Type 0 where
  pub token : Bytes
  pub nonce : Bytes

module _ (p : Primitives) (sha256 : Bytes → Bytes) where
  -- `reply` is what `writer.drain` and `reader.readexactly(n)` come to, for what was written.
  verify : Bytes → CryptoTransport → Result Bytes → Result CryptoTransport
  verify token crypto read = do
    unit ← read
    (answer, crypto') ← decrypt p crypto unit
    _ ← check (bytes_eq (sha256 token) answer)
    ok crypto'

  unfoldable pub init_multiplexer_challenge :
      Entropy → (Bytes → ℕ → Result Bytes) → CryptoTransport → Result CryptoTransport
  unfolding verify as_challenge_error
  init_multiplexer_challenge entropy reply crypto =
      let token = sha256 entropy.token in
      as_challenge_error (do
        (unit, crypto') ← encrypt p entropy.nonce crypto token
        verify token crypto' (reply unit (digest_size + overhead crypto')))

  -- The answer of the client to the challenge that it read, and its transport after it.
  unfoldable pub respond : Bytes → CryptoTransport → Bytes → Result (Bytes × CryptoTransport)
  respond nonce crypto challenge = do
    (token, crypto') ← decrypt p crypto challenge
    encrypt p nonce crypto' (sha256 token)

-- How the connection of the client goes: it is opened, the token is written, the challenge is read
-- with `readexactly(n)`, and the answer is written.
pub record Connection : Type 0 where
  pub opened : Result (Unit {0})
  pub token_drained : Result (Unit {0})
  pub challenge : ℕ → Result Bytes
  pub answer_drained : Bytes → Result (Unit {0})

-- `_multiplexer` with its transport, and `_handler_task`: whether it is done.
pub record ClientPeer : Type 0 where
  pub multiplexer : Option CryptoTransport
  pub handler_task : Option Bool

abbrev pub new_client : ClientPeer
new_client = record { multiplexer = none; handler_task = none }

unfoldable pub is_connected : ClientPeer → Bool
is_connected c = elim c.multiplexer [ none ↦ false | some _ ↦ true ]

abbrev pub is_running : Option Bool → Bool
is_running none = false
is_running (some done) = not done

module _ (p : Primitives) (sha256 : Bytes → Bytes) where
  answer_challenge : Bytes → Connection → CryptoTransport → Result CryptoTransport
  unfolding respond
  answer_challenge nonce connection crypto = do
    challenge ← connection.challenge (digest_size + overhead crypto)
    (answer, crypto') ← respond p sha256 nonce crypto challenge
    _ ← connection.answer_drained answer
    ok crypto'

  -- `start` up to the multiplexer.
  unfoldable pub connect : String → Bytes → Bytes → Bytes → Connection → Result CryptoTransport
  unfolding answer_challenge as_connection_error
  connect cipher aes_key aes_iv nonce connection = do
    _ ← as_connection_error catches_open connection.opened
    _ ← as_connection_error catches_token connection.token_drained
    crypto ← create_crypto_transport p cipher aes_key aes_iv true
    as_connection_error catches_response (answer_challenge nonce connection crypto)

  -- The multiplexer stands before the check on the handler's task.
  run_multiplexer : ClientPeer → Result CryptoTransport → Result (Unit {0}) × ClientPeer
  run_multiplexer c (err e) = (err e, c)
  run_multiplexer c (ok crypto) =
      if is_running c.handler_task
      then (err assertion_error, record c { multiplexer = some crypto })
      else (ok tt, record { multiplexer = some crypto; handler_task = some false })

  unfoldable pub start :
      String → Bytes → Bytes → Bytes → Connection → ClientPeer → Result (Unit {0}) × ClientPeer
  unfolding run_multiplexer is_connected
  start cipher aes_key aes_iv nonce connection c =
      if is_connected c
      then (err runtime_error, c)
      else run_multiplexer c (connect cipher aes_key aes_iv nonce connection)
