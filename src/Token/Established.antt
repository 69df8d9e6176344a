-- ===== src/Token/Established.antt =====
-- A session from its token on: snitun/utils/server.py, snitun/server/peer_manager.py, and the two ends
-- of the challenge.
use Prim.Native.String.{String}
use text.Mathlib.Text.{◌==◌ as str_eq}
use text.Mathlib.TextEquality.{eq_iff}
use snitun.Prelude.{
  ℕ, ◌+◌, ◌≤◌, ◌<◌, ◌≡◌, refl, sym, Bool, true, false, Option, none, some, [], All, arith, length,
  Bool-cases, inl, inr, if◌then◌else◌,
}
use snitun.Bytes.{Bytes, Text}
use snitun.Exceptions.{Result, ok, err, transport_error}
use snitun.Crypto.{
  Primitives, CryptoTransport, gcm, gcm_siv, cbc, encrypt, create_crypto_transport, gcm_nonce_size,
  direction_prefix,
}
use snitun.Crypto.Units.{Laws, InSync}
use snitun.Challenge.{Entropy, digest_size, init_multiplexer_challenge, start, new_client}
use snitun.Challenge.Agreement.{client_reply, calm_connection, start-init_multiplexer_challenge}
use snitun.Token.{
  TokenData, Session, default_cipher, protocol_version, generate_client_token, create_peer, get,
  check_valid, unsupported, token_payload,
}
use snitun.Token.Hex.{from_hex-hex}

-- A cipher that the client can use, the server can use.
create_crypto_transport-responder :
    (p : Primitives) (cipher : String) (key iv : Bytes) (client : CryptoTransport)
    → create_crypto_transport p cipher key iv true ≡ ok client
    → (server : CryptoTransport) × (create_crypto_transport p cipher key iv false ≡ ok server)
unfolding create_crypto_transport
create_crypto_transport-responder p cipher key iv client h =
    go (str_eq cipher "aes-gcm-siv") (str_eq cipher "aes-gcm") p.siv_supported h
  where
    made : Bool → Bool → Bool → Bool → Result CryptoTransport
    made initiator siv aead supported =
        if siv
        then (if supported then ok (gcm_siv key) else err transport_error)
        else if aead
        then ok (gcm key (direction_prefix initiator) 0)
        else ok (cbc key iv [] [])

    go :
        (siv aead supported : Bool)
        → made true siv aead supported ≡ ok client
        → (server : CryptoTransport) × (made false siv aead supported ≡ ok server)
    go true aead true h = (gcm_siv key, refl)
    go true aead false h = cc
    go false true supported h = (gcm key (direction_prefix false) 0, refl)
    go false false supported h = (cbc key iv [] [], refl)

get-cipher :
    (cipher : String)
    → get default_cipher (if str_eq cipher default_cipher then none else some cipher) ≡ cipher
get-cipher cipher = elim (Bool-cases (str_eq cipher default_cipher)) [
  | inl e ↦ rw e (sym ((eq_iff cipher default_cipher).0 e))
  | inr e ↦ rw e refl
]

check_valid-le : (now valid : ℕ) → now ≤ valid → check_valid now valid ≡ ok tt
unfolding check_valid
check_valid-le now valid h = ground arith

module _ (seal : TokenData → Bytes) (open_token : Bytes → Option TokenData) (now valid_delta : ℕ)
    (hostname : Text) (aes_key aes_iv : Bytes) (cipher : String) where
  -- The server's Fernet opens the token of the client.
  abbrev pub Opens : Type 0
  Opens =
      open_token (generate_client_token seal now valid_delta hostname aes_key aes_iv cipher)
      ≡ some (token_payload now valid_delta hostname aes_key aes_iv cipher)

  module _ (p : Primitives) (opens : Opens) (bytes : All (λ b. b < 256) aes_key)
      (bytes' : All (λ b. b < 256) aes_iv) (throttling : Option ℕ) (now' : ℕ)
      (good : now' ≤ now + valid_delta) where
    -- A token is good for its keys until it expires.
    create_peer-generate_client_token :
        (server : CryptoTransport)
        → create_crypto_transport p cipher aes_key aes_iv false ≡ ok server
        → create_peer p open_token throttling now'
            (generate_client_token seal now valid_delta hostname aes_key aes_iv cipher)
          ≡ ok (record {
            hostname = hostname;
            valid = now + valid_delta;
            crypto = server;
            protocol_version = protocol_version;
            throttling = throttling;
            alias_names = [];
          })
    unfolding create_peer token_payload unsupported
    create_peer-generate_client_token server made = rw (
      opens,
      check_valid-le now' (now + valid_delta) good,
      from_hex-hex aes_key bytes,
      from_hex-hex aes_iv bytes',
      get-cipher cipher,
      made,
    )

    -- The session of a client: its token's peer, what the server wrote, and the two transports at the end.
    abbrev pub Established : Laws p → (Bytes → Bytes) → Entropy → Bytes → CryptoTransport → Type 0
    Established l sha256 entropy nonce client =
        (peer : Session) × (unit : Bytes) × (waiting : CryptoTransport)
        × (client' : CryptoTransport) × (server' : CryptoTransport) × (create_peer p open_token
              throttling now'
              (generate_client_token seal now valid_delta hostname aes_key aes_iv cipher)
            ≡ ok peer)
        × (peer.hostname ≡ hostname)
        × (encrypt p entropy.nonce peer.crypto (sha256 entropy.token) ≡ ok (unit, waiting))
        × (init_multiplexer_challenge p sha256 entropy (client_reply p sha256 nonce client)
              peer.crypto
            ≡ ok server')
        × (start p sha256 cipher aes_key aes_iv nonce (calm_connection unit) new_client
            ≡ (ok tt, record { multiplexer = some client'; handler_task = some false }))
        × InSync l client' server'
        × InSync l server' client'

    -- A client that has the keys, and a token for them that has not expired, gets its session: the server
    -- takes the token, for a peer of this host name, the client answers the challenge that the server
    -- wrote, the server accepts the answer, and the client has its multiplexer, with transports that are
    -- in step, both ways. The client can use the cipher, the keys are bytes, Fernet opens the token, the
    -- package has its laws, SHA-256 gives 32 bytes, `os.urandom` gives as many bytes as it is asked for,
    -- and the connection neither fails nor times out.
    pub start-create_peer :
        (l : Laws p) (sha256 : Bytes → Bytes) (entropy : Entropy) (nonce : Bytes)
        (client : CryptoTransport)
        → ((plain : Bytes) → length (sha256 plain) ≡ digest_size)
        → length entropy.nonce ≡ gcm_nonce_size
        → length nonce ≡ gcm_nonce_size
        → create_crypto_transport p cipher aes_key aes_iv true ≡ ok client
        → Established l sha256 entropy nonce client
    start-create_peer l sha256 entropy nonce client digests fresh fresh' hc =
        let (server, hs) = create_crypto_transport-responder p cipher aes_key aes_iv client hc in
        let (unit, waiting, client', server', sent, challenged, answered, ahead, back) =
          start-init_multiplexer_challenge l sha256 digests entropy nonce fresh fresh' cipher
            aes_key aes_iv client server hc hs in
        (
          _,
          unit,
          waiting,
          client',
          server',
          create_peer-generate_client_token server hs,
          refl,
          sent,
          challenged,
          answered,
          ahead,
          back,
        )
