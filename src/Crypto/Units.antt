-- ===== src/Crypto/Units.antt =====
-- The round trip of an encrypted unit.
use snitun.Prelude.{
  ℕ, suc, ◌+◌, ◌%◌, ◌≤◌, ◌≡◌, refl, sym, inl, inr, Bool, true, false, [], ◌++◌, arith,
  if◌then◌else◌, length, take-append_length, drop-append_length, some, length-append, Bool-cases,
}
use snitun.Bytes.{Bytes, to_bytes, length-to_bytes}
use snitun.Exceptions.{Result, ok, err, transport_error}
use Prim.Native.String.{String}
use text.Mathlib.Text.{◌==◌ as str_eq}
use snitun.Crypto.Nonces.{length-direction_prefix, next_nonce-eq}
use snitun.Crypto.{
  create_crypto_transport, Primitives, CryptoTransport, cbc, gcm, gcm_siv, encrypt, decrypt,
  overhead, direction_prefix, gcm_max_counter, gcm_prefix_size, gcm_counter_size, gcm_nonce_size,
  gcm_tag_size,
}

-- What the code relies on of the package. An AEAD opens what it sealed under the same key and nonce
-- and adds a tag; CBC is a cipher stream over whole blocks, that keeps the length.
pub record Laws (p : Primitives) : Type 0 where
  pub gcm_opens :
      (key nonce unit : Bytes) → p.gcm_decrypt key nonce (p.gcm_encrypt key nonce unit) ≡ some unit
  pub gcm_length :
      (key nonce unit : Bytes) → length (p.gcm_encrypt key nonce unit) ≡ length unit + gcm_tag_size
  pub siv_opens :
      (key nonce unit : Bytes) → p.siv_decrypt key nonce (p.siv_encrypt key nonce unit) ≡ some unit
  pub siv_length :
      (key nonce unit : Bytes) → length (p.siv_encrypt key nonce unit) ≡ length unit + gcm_tag_size
  -- The ciphertext of everything that was fed.
  pub cbc_total : Bytes → Bytes → Bytes → Bytes
  pub cbc_total-nil : (key iv : Bytes) → cbc_total key iv [] ≡ []
  pub cbc_stream :
      (key iv before unit : Bytes)
      → length before % 16 ≡ 0
      → length unit % 16 ≡ 0
      → cbc_total key iv (before ++ unit)
        ≡ cbc_total key iv before ++ p.cbc_encrypt key iv before unit
  pub cbc_opens :
      (key iv before unit : Bytes)
      → length before % 16 ≡ 0
      → length unit % 16 ≡ 0
      → p.cbc_decrypt key iv (cbc_total key iv before) (p.cbc_encrypt key iv before unit) ≡ unit
  pub cbc_length :
      (key iv before unit : Bytes) → length (p.cbc_encrypt key iv before unit) ≡ length unit

-- The transport can send so many units more.
abbrev pub HasNonces : ℕ → CryptoTransport → Type 0
HasNonces k (gcm key prefix counter) = counter + k ≤ gcm_max_counter + 1
HasNonces k _ = Unit

fresh_bound : 0 + gcm_max_counter ≤ gcm_max_counter + 1
fresh_bound = omega arith

module _ {p : Primitives} (l : Laws p) where
  -- The second transport can open what the first one sends next.
  abbrev pub InSync : CryptoTransport → CryptoTransport → Type 0
  InSync (cbc key iv e d) (cbc key' iv' e' d') =
      (key ≡ key') × (iv ≡ iv') × (length e % 16 ≡ 0) × (d' ≡ l.cbc_total key iv e)
  InSync (gcm key prefix counter) (gcm key' prefix' counter') =
      (key ≡ key') × (length prefix ≡ gcm_prefix_size)
  InSync (gcm_siv key) (gcm_siv key') = key ≡ key'
  InSync _ _ = ⊥

  -- What `r` does with the wire form `w` of a unit.
  abbrev pub Opens : CryptoTransport → CryptoTransport → Bytes → Bytes → Type 0
  Opens s' r unit w =
      (r' : CryptoTransport) × (decrypt p r w ≡ ok (unit, r'))
      × InSync s' r'
      × (length w ≡ length unit + overhead r)

  sealed_lengths :
      (nonce box unit : Bytes)
      → length nonce ≡ gcm_nonce_size
      → length box ≡ length unit + gcm_tag_size
      → length (nonce ++ box) ≡ length unit + (gcm_nonce_size + gcm_tag_size)
  sealed_lengths nonce box unit hn hb = omega (arith, length-append nonce box)

  Opens-cbc :
      (key iv e d e' unit : Bytes)
      → length e % 16 ≡ 0
      → length unit % 16 ≡ 0
      → Opens
          (cbc key iv (e ++ unit) d)
          (cbc key iv e' (l.cbc_total key iv e))
          unit
          (p.cbc_encrypt key iv e unit)
  unfolding decrypt overhead
  Opens-cbc key iv e d e' unit he hu = (
    cbc key iv e' (l.cbc_total key iv e ++ p.cbc_encrypt key iv e unit),
    rw (l.cbc_opens key iv e unit he hu),
    (refl, refl, omega (arith, length-append e unit), sym (l.cbc_stream key iv e unit he hu)),
    omega (arith, l.cbc_length key iv e unit),
  )

  Opens-gcm :
      (key nonce prefix prefix' unit : Bytes) (c c' : ℕ)
      → length nonce ≡ gcm_nonce_size
      → length prefix ≡ gcm_prefix_size
      → Opens (gcm key prefix c) (gcm key prefix' c') unit (nonce ++ p.gcm_encrypt key nonce unit)
  unfolding decrypt overhead
  Opens-gcm key nonce prefix prefix' unit c c' hn hp = (
    gcm key prefix' c',
    rw (
      take-append_length gcm_nonce_size nonce (p.gcm_encrypt key nonce unit) hn,
      drop-append_length gcm_nonce_size nonce (p.gcm_encrypt key nonce unit) hn,
      l.gcm_opens key nonce unit,
    ),
    (refl, hp),
    sealed_lengths nonce (p.gcm_encrypt key nonce unit) unit hn (l.gcm_length key nonce unit),
  )

  Opens-siv :
      (key nonce unit : Bytes)
      → length nonce ≡ gcm_nonce_size
      → Opens (gcm_siv key) (gcm_siv key) unit (nonce ++ p.siv_encrypt key nonce unit)
  unfolding decrypt overhead
  Opens-siv key nonce unit hn = (
    gcm_siv key,
    rw (
      take-append_length gcm_nonce_size nonce (p.siv_encrypt key nonce unit) hn,
      drop-append_length gcm_nonce_size nonce (p.siv_encrypt key nonce unit) hn,
      l.siv_opens key nonce unit,
    ),
    refl,
    sealed_lengths nonce (p.siv_encrypt key nonce unit) unit hn (l.siv_length key nonce unit),
  )

  -- The sender encrypts the unit, to a wire form that the receiver opens.
  abbrev pub Delivers : Bytes → CryptoTransport → CryptoTransport → Bytes → Type 0
  Delivers random s r unit =
      (w : Bytes) × (s' : CryptoTransport) × (encrypt p random s unit ≡ ok (w, s'))
      × Opens s' r unit w
      × ((k : ℕ) → HasNonces (suc k) s → HasNonces k s')

  -- Whatever the cipher, the sender encrypts the unit, the receiver in step opens it, the two stay
  -- in step, and the unit is longer on the wire by `overhead`. Units are whole blocks, random
  -- nonces have 12 bytes, and an AES-GCM sender's counter is not exhausted.
  pub decrypt-encrypt :
      (s r : CryptoTransport) (random unit : Bytes)
      → InSync s r
      → HasNonces 1 s
      → length random ≡ gcm_nonce_size
      → length unit % 16 ≡ 0
      → Delivers random s r unit
  unfolding encrypt
  decrypt-encrypt (cbc key iv e d) (cbc key' iv' e' d') random unit h hn hr hu =
      rw (← h.0, ← h.1, h.3) (_, _, refl, Opens-cbc key iv e d e' unit h.2 hu, λ k n. tt)
  decrypt-encrypt (gcm key prefix c) (gcm key' prefix' c') random unit h hn hr hu =
      let nonce = prefix ++ to_bytes gcm_counter_size c in
      rw (← h.0) (
        nonce ++ p.gcm_encrypt key nonce unit,
        gcm key prefix (c + 1),
        rw (next_nonce-eq prefix c (omega arith)),
        Opens-gcm key nonce prefix prefix' unit (c + 1) c'
            (omega (
              arith,
              length-append prefix (to_bytes gcm_counter_size c),
              length-to_bytes gcm_counter_size c,
              h.1,
            ))
            h.1,
        λ k n. omega arith,
      )
  decrypt-encrypt (gcm_siv key) (gcm_siv key') random unit h hn hr hu =
      rw (← h) (_, _, refl, Opens-siv key random unit hr, λ k n. tt)
  decrypt-encrypt (cbc _ _ _ _) (gcm _ _ _) random unit h hn hr hu = elim h [ ]
  decrypt-encrypt (cbc _ _ _ _) (gcm_siv _) random unit h hn hr hu = elim h [ ]
  decrypt-encrypt (gcm _ _ _) (cbc _ _ _ _) random unit h hn hr hu = elim h [ ]
  decrypt-encrypt (gcm _ _ _) (gcm_siv _) random unit h hn hr hu = elim h [ ]
  decrypt-encrypt (gcm_siv _) (cbc _ _ _ _) random unit h hn hr hu = elim h [ ]
  decrypt-encrypt (gcm_siv _) (gcm _ _ _) random unit h hn hr hu = elim h [ ]

  -- The transports that the two ends of a session create from one token.
  abbrev pub Created : CryptoTransport → CryptoTransport → Type 0
  Created client server =
      InSync client server
      × InSync server client
      × HasNonces gcm_max_counter client
      × HasNonces gcm_max_counter server

  abbrev outcome : Bool → Bool → Bytes → Bytes → Bool → Result CryptoTransport
  outcome siv aead key iv initiator =
      if siv
      then (if p.siv_supported then ok (gcm_siv key) else err transport_error)
      else if aead
      then ok (gcm key (direction_prefix initiator) 0)
      else ok (cbc key iv [] [])

  ok-injective : {a b : CryptoTransport} → ok a ≡ ok b → a ≡ b
  ok-injective e = cc

  created :
      (siv aead : Bool) (key iv : Bytes) (client server : CryptoTransport)
      → outcome siv aead key iv true ≡ ok client
      → outcome siv aead key iv false ≡ ok server
      → Created client server
  created true aead key iv client server hc hs = elim (Bool-cases p.siv_supported) [
    | inl have ↦
        rw (← ok-injective (rw have at hc), ← ok-injective (rw have at hs)) (refl, refl, tt, tt)
    | inr lack ↦ absurd (let e : err transport_error ≡ ok client = rw lack at hc in cc)
  ]
  created false true key iv client server hc hs =
      rw (← ok-injective hc, ← ok-injective hs)
        (
          (refl, length-direction_prefix true),
          (refl, length-direction_prefix false),
          fresh_bound,
          fresh_bound,
        )
  created false false key iv client server hc hs =
      let z = sym (l.cbc_total-nil key iv) in
      rw (← ok-injective hc, ← ok-injective hs)
        ((refl, refl, refl, z), (refl, refl, refl, z), tt, tt)

  -- The transports that the two ends of a session create from one token are in step, both ways,
  -- and have `gcm_max_counter` nonces left at least.
  pub create_crypto_transport-InSync :
      (cipher : String) (key iv : Bytes) (client server : CryptoTransport)
      → create_crypto_transport p cipher key iv true ≡ ok client
      → create_crypto_transport p cipher key iv false ≡ ok server
      → Created client server
  unfolding create_crypto_transport
  create_crypto_transport-InSync cipher key iv client server hc hs =
      created (str_eq cipher "aes-gcm-siv") (str_eq cipher "aes-gcm") key iv client server hc hs
