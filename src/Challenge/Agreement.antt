-- ===== src/Challenge/Agreement.antt =====
-- The two ends of the challenge of snitun/server/peer.py and snitun/client/client_peer.py agree.
use Prim.Native.String.{String}
use snitun.Prelude.{
  ℕ, ◌+◌, ◌%◌, ◌≡◌, sym, ap, ◌∙◌, true, false, leb, if◌then◌else◌, length, take, arith, append-nil,
  [], take-append_length, tests,
}
use snitun.Bytes.{Bytes, bytes_eq_refl}
use snitun.Exceptions.{◌>>=◌, Result, ok, err, incomplete_read}
use snitun.Crypto.{
  Primitives, CryptoTransport, cbc, gcm, gcm_siv, overhead, encrypt, create_crypto_transport,
  gcm_nonce_size, gcm_max_counter,
}
use snitun.Crypto.Directions.{encrypt-InSync, decrypt-InSync}
use snitun.Crypto.Units.{Laws, InSync, HasNonces, decrypt-encrypt, create_crypto_transport-InSync}
use snitun.Challenge.{
  Entropy, Connection, digest_size, init_multiplexer_challenge, respond, connect, verify,
  as_challenge_error, answer_challenge, as_connection_error, start, run_multiplexer, is_connected,
  new_client, some,
}

-- `reader.readexactly(n)` on a stream that holds these bytes and then ends.
abbrev pub read_exactly : ℕ → Bytes → Result Bytes
read_exactly n stream = if leb n (length stream) then ok (take n stream) else err incomplete_read

take-length : (n : ℕ) (xs : Bytes) → length xs ≡ n → take n xs ≡ xs
take-length n xs h = ap (take n) (sym (append-nil xs)) ∙ take-append_length n xs [] h

read_exactly-length :
    (n : ℕ) (stream : Bytes) → length stream ≡ n → read_exactly n stream ≡ ok stream
read_exactly-length n stream h =
    let t : leb n (length stream) ≡ true = omega (tests, h) in rw (t, take-length n stream h)

-- What the server reads where its challenge is written to this client.
abbrev pub client_reply :
    Primitives → (Bytes → Bytes) → Bytes → CryptoTransport → Bytes → ℕ → Result Bytes
client_reply p sha256 nonce client written n = do
  challenge ← read_exactly (digest_size + overhead client) written
  (answer, _) ← respond p sha256 nonce client challenge
  read_exactly n answer

-- How the connection goes of a client that gets this challenge.
abbrev pub calm_connection : Bytes → Connection
calm_connection unit = record {
  opened = ok tt;
  token_drained = ok tt;
  challenge = λ n. read_exactly n unit;
  answer_drained = λ answer. ok tt;
}

module _ {p : Primitives} (l : Laws p) where
  HasNonces-one : (s : CryptoTransport) → HasNonces gcm_max_counter s → HasNonces 1 s
  HasNonces-one (cbc key iv e d) h = tt
  HasNonces-one (gcm key prefix counter) h = omega arith
  HasNonces-one (gcm_siv key) h = tt

  module _ (sha256 : Bytes → Bytes)
      (digests : (plain : Bytes) → length (sha256 plain) ≡ digest_size) (entropy : Entropy)
      (nonce : Bytes) (fresh : length entropy.nonce ≡ gcm_nonce_size)
      (fresh' : length nonce ≡ gcm_nonce_size) where
    whole_blocks : (plain : Bytes) → length (sha256 plain) % 16 ≡ 0
    whole_blocks plain = omega (arith, digests plain)

    agreed :
        (client server : CryptoTransport)
        → InSync l client server
        → InSync l server client
        → HasNonces gcm_max_counter client
        → HasNonces gcm_max_counter server
        → (unit : Bytes) × (waiting : CryptoTransport) × (client' : CryptoTransport)
          × (server' : CryptoTransport) × (encrypt p entropy.nonce server (sha256 entropy.token)
              ≡ ok (unit, waiting))
          × (init_multiplexer_challenge p sha256 entropy (client_reply p sha256 nonce client) server
              ≡ ok server')
          × (answer_challenge p sha256 nonce (calm_connection unit) client ≡ ok client')
          × InSync l client' server'
          × InSync l server' client'
    unfolding init_multiplexer_challenge verify as_challenge_error respond answer_challenge
    agreed client server cs sc nc ns =
        let token = sha256 entropy.token in
        let (w, s, sends, (c, opens, ahead, len), _) =
          decrypt-encrypt l server client entropy.nonce token sc (HasNonces-one server ns) fresh
            (whole_blocks entropy.token) in
        let (back, keeps) =
          decrypt-InSync l client s c w token
            (encrypt-InSync l client server s entropy.nonce token w cs sends) opens in
        let (w', c', sends', (s', opens', ahead', len'), _) =
          decrypt-encrypt l c s nonce (sha256 token) back (keeps 1 (HasNonces-one client nc)) fresh'
            (whole_blocks token) in
        let read : read_exactly (digest_size + overhead client) w ≡ ok w =
          read_exactly-length _ w (omega (arith, len, digests entropy.token)) in
        let read' : read_exactly (digest_size + overhead s) w' ≡ ok w' =
          read_exactly-length _ w' (omega (arith, len', digests token)) in
        (
          w,
          s,
          c',
          s',
          sends,
          rw (sends, read, opens, sends', read', opens', bytes_eq_refl (sha256 token)),
          rw (read, opens, sends'),
          ahead',
          (decrypt-InSync l s c' s' w' (sha256 token)
              (encrypt-InSync l s c c' nonce (sha256 token) w' ahead sends') opens').0,
        )

    -- Where a token made the transports of a client and of a server, the server's challenge and the
    -- client's `start` both come to their end: the client answers what the server wrote, the server
    -- accepts what the client answers, the client has its multiplexer and its handler, and the two
    -- transports are in step, both ways. The package has its laws, SHA-256 gives 32 bytes, `os.urandom`
    -- gives as many bytes as it is asked for, and the connection neither fails nor times out.
    pub start-init_multiplexer_challenge :
        (cipher : String) (aes_key aes_iv : Bytes) (client server : CryptoTransport)
        → create_crypto_transport p cipher aes_key aes_iv true ≡ ok client
        → create_crypto_transport p cipher aes_key aes_iv false ≡ ok server
        → (unit : Bytes) × (waiting : CryptoTransport) × (client' : CryptoTransport)
          × (server' : CryptoTransport) × (encrypt p entropy.nonce server (sha256 entropy.token)
              ≡ ok (unit, waiting))
          × (init_multiplexer_challenge p sha256 entropy (client_reply p sha256 nonce client) server
              ≡ ok server')
          × (start p sha256 cipher aes_key aes_iv nonce (calm_connection unit) new_client
              ≡ (ok tt, record { multiplexer = some client'; handler_task = some false }))
          × InSync l client' server'
          × InSync l server' client'
    unfolding start run_multiplexer connect as_connection_error is_connected
    start-init_multiplexer_challenge cipher aes_key aes_iv client server hc hs =
        let (cs, sc, nc, ns) =
          create_crypto_transport-InSync l cipher aes_key aes_iv client server hc hs in
        let (unit, waiting, client', server', sent, challenged, answered, ahead, back) =
          agreed client server cs sc nc ns in
        (unit, waiting, client', server', sent, challenged, rw (hc, answered), ahead, back)
