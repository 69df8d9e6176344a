-- ===== src/Token.antt =====
-- The token of a client: `TokenData` and `generate_client_token` of snitun/utils/server.py, and
-- `create_peer` of snitun/server/peer_manager.py, with `bytes.hex` and `bytes.fromhex`. Fernet over the
-- JSON text of a token is a parameter.
pub mod Hex
pub mod Established
use Prim.Native.String.{String}
use text.Mathlib.Text.{◌==◌ as str_eq}
use snitun.Prelude.{
  ℕ, ◌+◌, ◌-◌, ◌*◌, ◌/◌, ◌%◌, Bool, false, ◌&&◌, ◌||◌, Option, none, some, List, [], ◌∷◌, leb, ltb,
  ◌==◌, if◌then◌else◌,
}
use snitun.Bytes.{Bytes, Text}
use snitun.Exceptions.{
  ◌>>=◌, Result, ok, err, or_raise, invalid_peer, key_error, value_error, transport_error,
}
use snitun.Crypto.{Primitives, CryptoTransport, create_crypto_transport}

abbrev pub default_cipher : String
default_cipher = "aes-cbc"

abbrev pub protocol_version : ℕ
protocol_version = 2

abbrev pub default_protocol_version : ℕ
default_protocol_version = 0

-- The keys of the JSON object, each of which may be missing; `alias` may also be null. Times are in
-- microseconds, as a `datetime` has them.
pub record TokenData : Type 0 where
  pub valid : Option ℕ
  pub hostname : Option Text
  pub aes_key : Option Text
  pub aes_iv : Option Text
  pub protocol_version : Option ℕ
  pub cipher : Option String
  pub alias_names : Option (Option (List Text))

-- A hexadecimal digit, in lower case.
abbrev pub hex_digit : ℕ → ℕ
hex_digit n = if ltb n 10 then b'0' + n else b'a' + (n - 10)

-- `bytes.hex`
unfoldable pub hex : Bytes → Text
hex [] = []
hex (b ∷ bs) = hex_digit (b / 16) ∷ hex_digit (b % 16) ∷ hex bs

unfoldable pub digit_value : ℕ → Option ℕ
digit_value c =
    if leb b'0' c && leb c b'9'
    then some (c - b'0')
    else if leb b'a' c && leb c b'f'
    then some (c - b'a' + 10)
    else if leb b'A' c && leb c b'F'
    then some (c - b'A' + 10)
    else none

-- ASCII white space, which `bytes.fromhex` skips between bytes.
unfoldable pub is_space : ℕ → Bool
is_space c = c == 32 || (leb 9 c && leb c 13)

byte_of : Option ℕ → Option ℕ → Result Bytes → Result Bytes
byte_of (some high) (some low) (ok bs) = ok ((high * 16 + low) ∷ bs)
byte_of (some high) (some low) (err e) = err e
byte_of (some high) none rest = err value_error
byte_of none low rest = err value_error

-- `bytes.fromhex`
unfoldable pub from_hex : Text → Result Bytes
unfolding digit_value is_space byte_of
from_hex [] = ok []
from_hex (a ∷ []) = if is_space a then ok [] else err value_error
from_hex (a ∷ b ∷ cs) =
    let skipped = from_hex (b ∷ cs) in
    let pair = byte_of (digit_value a) (digit_value b) (from_hex cs) in
    if is_space a then skipped else pair

-- The payload of a token for these keys.
unfoldable pub token_payload : ℕ → ℕ → Text → Bytes → Bytes → String → TokenData
unfolding hex
token_payload now valid_delta hostname aes_key aes_iv cipher = record {
  valid = some (now + valid_delta);
  hostname = some hostname;
  aes_key = some (hex aes_key);
  aes_iv = some (hex aes_iv);
  protocol_version = some protocol_version;
  cipher = if str_eq cipher default_cipher then none else some cipher;
  alias_names = none;
}

-- `generate_client_token`: `seal` stands for Fernet over the JSON text.
unfoldable pub generate_client_token :
    (TokenData → Bytes) → ℕ → ℕ → Text → Bytes → Bytes → String → Bytes
unfolding token_payload
generate_client_token seal now valid_delta hostname aes_key aes_iv cipher =
    seal (token_payload now valid_delta hostname aes_key aes_iv cipher)

-- The new `Peer`, which has no multiplexer yet.
pub record Session : Type 0 where
  pub hostname : Text
  pub valid : ℕ
  pub crypto : CryptoTransport
  pub protocol_version : ℕ
  pub throttling : Option ℕ
  pub alias_names : List Text

-- `config.get(key, default)`
abbrev pub get {ℓ} : {A : Type ℓ} → A → Option A → A
get default none = default
get default (some a) = a

-- `except MultiplexerTransportError: raise SniTunInvalidPeer`
unfoldable pub unsupported : {A : Type 0} → Result A → Result A
unsupported (ok a) = ok a
unsupported (err transport_error) = err invalid_peer
unsupported (err e) = err e

-- `is_valid`
unfoldable pub is_valid : ℕ → Session → Bool
is_valid now peer = ltb now peer.valid

check_valid : ℕ → ℕ → Result (Unit {0})
check_valid now valid = if ltb valid now then err invalid_peer else ok tt

-- `create_peer`: `open_token` stands for Fernet, the decoding and the JSON parser, and gives none where
-- one of them fails.
unfoldable pub create_peer :
    Primitives → (Bytes → Option TokenData) → Option ℕ → ℕ → Bytes → Result Session
unfolding check_valid unsupported
create_peer p open_token throttling now fernet_data = do
  config ← or_raise (open_token fernet_data) invalid_peer
  valid ← or_raise config.valid key_error
  _ ← check_valid now valid
  hostname ← or_raise config.hostname key_error
  hex_key ← or_raise config.aes_key key_error
  aes_key ← from_hex hex_key
  hex_iv ← or_raise config.aes_iv key_error
  aes_iv ← from_hex hex_iv
  crypto ←
      unsupported
        (create_crypto_transport p (get default_cipher config.cipher) aes_key aes_iv false)
  ok (record {
    hostname = hostname;
    valid = valid;
    crypto = crypto;
    protocol_version = get default_protocol_version config.protocol_version;
    throttling = throttling;
    alias_names = get [] (get none config.alias_names);
  })
