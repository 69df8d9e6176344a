-- ===== src/Crypto.antt =====
-- snitun/multiplexer/crypto.py: the encryption of frame headers. The `cryptography` package and
-- `os.urandom` are parameters.
pub mod Nonces
pub mod Units
pub mod Directions
use Prim.Native.String.{String}
use text.Mathlib.Text.{◌==◌ as str_eq}
use snitun.Prelude.{ℕ, ◌+◌, ◌-◌, ◌*◌, ◌^◌, Bool, Option, [], ◌++◌, ltb, if◌then◌else◌, take, drop}
use snitun.Bytes.{Bytes, to_bytes}
use snitun.Exceptions.{◌>>=◌, Result, ok, err, or_raise, transport_error, transport_decrypt}

abbrev pub gcm_nonce_size : ℕ
gcm_nonce_size = 12

abbrev pub gcm_tag_size : ℕ
gcm_tag_size = 16

abbrev pub gcm_prefix_size : ℕ
gcm_prefix_size = 4

abbrev pub gcm_counter_size : ℕ
gcm_counter_size = gcm_nonce_size - gcm_prefix_size

abbrev pub gcm_max_counter : ℕ
gcm_max_counter = 2 ^ (gcm_counter_size * 8) - 1

-- The package: an AEAD takes a key, a nonce and data, and its decryption fails by `none`
-- (`InvalidTag`, or `ValueError` for a short unit). A CBC stream also depends on what it was fed.
pub record Primitives : Type 0 where
  pub gcm_encrypt : Bytes → Bytes → Bytes → Bytes
  pub gcm_decrypt : Bytes → Bytes → Bytes → Option Bytes
  pub siv_encrypt : Bytes → Bytes → Bytes → Bytes
  pub siv_decrypt : Bytes → Bytes → Bytes → Option Bytes
  pub siv_supported : Bool
  pub cbc_encrypt : Bytes → Bytes → Bytes → Bytes → Bytes
  pub cbc_decrypt : Bytes → Bytes → Bytes → Bytes → Bytes

-- The subclasses of `CryptoTransport` with their state. `encrypted` and `decrypted` are all that
-- the two CBC contexts were fed.
pub data CryptoTransport : Type 0 where
  cbc : (key iv encrypted decrypted : Bytes) → CryptoTransport
  gcm : (key prefix : Bytes) (counter : ℕ) → CryptoTransport
  gcm_siv : (key : Bytes) → CryptoTransport

unfoldable pub overhead : CryptoTransport → ℕ
overhead (cbc key iv e d) = 0
overhead (gcm key prefix counter) = gcm_nonce_size + gcm_tag_size
overhead (gcm_siv key) = gcm_nonce_size + gcm_tag_size

-- `GCMCryptoTransport._next_nonce`: the nonce, and the counter after it.
unfoldable pub next_nonce : Bytes → ℕ → Result (Bytes × ℕ)
next_nonce prefix counter =
    if ltb gcm_max_counter counter
    then err transport_error
    else ok (prefix ++ to_bytes gcm_counter_size counter, counter + 1)

unfoldable pub direction_prefix : Bool → Bytes
direction_prefix is_initiator = to_bytes gcm_prefix_size (if is_initiator then 0 else 1)

module _ (p : Primitives) where
  -- `random` is what `os.urandom` returns to `GCMSIVCryptoTransport._next_nonce`.
  unfoldable pub encrypt : Bytes → CryptoTransport → Bytes → Result (Bytes × CryptoTransport)
  encrypt random (cbc key iv e d) unit = ok (p.cbc_encrypt key iv e unit, cbc key iv (e ++ unit) d)
  encrypt random (gcm key prefix counter) unit = do
    (nonce, after) ← next_nonce prefix counter
    ok (nonce ++ p.gcm_encrypt key nonce unit, gcm key prefix after)
  encrypt random (gcm_siv key) unit = ok (random ++ p.siv_encrypt key random unit, gcm_siv key)

  unfoldable pub decrypt : CryptoTransport → Bytes → Result (Bytes × CryptoTransport)
  decrypt (cbc key iv e d) unit = ok (p.cbc_decrypt key iv d unit, cbc key iv e (d ++ unit))
  decrypt (gcm key prefix counter) unit = do
    plain ←
        or_raise (p.gcm_decrypt key (take gcm_nonce_size unit) (drop gcm_nonce_size unit))
          transport_decrypt
    ok (plain, gcm key prefix counter)
  decrypt (gcm_siv key) unit = do
    plain ←
        or_raise (p.siv_decrypt key (take gcm_nonce_size unit) (drop gcm_nonce_size unit))
          transport_decrypt
    ok (plain, gcm_siv key)

  unfoldable pub create_crypto_transport : String → Bytes → Bytes → Bool → Result CryptoTransport
  unfolding direction_prefix
  create_crypto_transport cipher key iv is_initiator =
      if str_eq cipher "aes-gcm-siv"
      then (if p.siv_supported then ok (gcm_siv key) else err transport_error)
      else if str_eq cipher "aes-gcm"
      then ok (gcm key (direction_prefix is_initiator) 0)
      else ok (cbc key iv [] [])
