-- ===== src/Examples/Wire.antt =====
-- Messages, addresses and ciphers at concrete inputs.
use snitun.Prelude.{
  ℕ, ◌-◌, ◌≡◌, refl, true, Option, some, [], ◌∷◌, ◌++◌, arith, length, take, replicate,
  length-append, length-replicate, take-append_length, ap, ◌+◌, none, List,
}
use snitun.Bytes.{Bytes}
use snitun.IpAddress.{v6}
use snitun.Message.{Header, MultiplexerMessage, pack, unpack}
use snitun.Message.RoundTrip.{IsHeader, unpack-pack, pack-unpack}
use snitun.Crypto.{Primitives, CryptoTransport, gcm}
use snitun.Crypto.Units.{Laws, Delivers, decrypt-encrypt}
use snitun.Channel
use snitun.Channel.{Channel, init_new}
use snitun.Multiplexer.Addresses.{new_address, told_address, new_address-init_new}
use snitun.Queue.Multi.State
use snitun.Exceptions.{ok}
use snitun.Multiplexer.Endpoint
use snitun.Multiplexer.Endpoint.{Endpoint, Round}
use snitun.Multiplexer.Frame.{Entropy, is_encrypted}
use snitun.Multiplexer.Frame.RoundTrip.{IsEntropy, Fits, FrameRead, read_frame-write_frame}

-- A cipher that adds an empty tag, and one that adds nothing.
abbrev seal : Bytes → Bytes → Bytes → Bytes
seal key nonce unit = unit ++ replicate 16 0

abbrev unseal : Bytes → Bytes → Bytes → Option Bytes
unseal key nonce box = some (take (length box - 16) box)

abbrev pub plain : Primitives
plain = record {
  gcm_encrypt = seal;
  gcm_decrypt = unseal;
  siv_encrypt = seal;
  siv_decrypt = unseal;
  siv_supported = true;
  cbc_encrypt = λ key iv before unit. unit;
  cbc_decrypt = λ key iv before unit. unit;
}

pub seal_lem : (unit : Bytes) → length (unit ++ replicate 16 0) ≡ (length unit) + 16
seal_lem unit = omega (arith, length-append unit (replicate 16 0), length-replicate {A = ℕ} 16 0)

pub unseal_lem :
    (unit : Bytes) → take (length (unit ++ replicate 16 0) - 16) (unit ++ replicate 16 0) ≡ unit
unseal_lem unit =
    take-append_length (length (unit ++ replicate 16 0) - 16) unit (replicate 16 0)
      (omega (arith, seal_lem unit))

abbrev pub plain_laws : Laws plain
plain_laws = record {
  gcm_opens = λ key nonce unit. ap some (unseal_lem unit);
  gcm_length = λ key nonce unit. seal_lem unit;
  siv_opens = λ key nonce unit. ap some (unseal_lem unit);
  siv_length = λ key nonce unit. seal_lem unit;
  cbc_total = λ key iv total. total;
  cbc_total-nil = λ key iv. refl;
  cbc_stream = λ key iv before unit h h'. refl;
  cbc_opens = λ key iv before unit h h'. refl;
  cbc_length = λ key iv before unit. refl;
}

abbrev entropy : Entropy
entropy = record {
  pad = λ n. replicate n 7;
  header_nonce = replicate 12 1;
  data_nonce = replicate 12 2;
}

entropy-IsEntropy : IsEntropy entropy
entropy-IsEntropy = record {
  pad = λ n. length-replicate n 7;
  header_nonce = refl;
  data_nonce = refl;
}

abbrev hello : MultiplexerMessage
hello = record { id = 5; flow_type = 2; payload = 104 ∷ 105 ∷ []; extra = [] }

hello-Fits : Fits 2 hello
unfolding is_encrypted
hello-Fits = record {
  id = omega arith;
  flow_type = omega arith;
  size = omega arith;
  extra = omega arith;
  blocks = λ e. cc;
}

abbrev client : CryptoTransport
client = gcm (9 ∷ []) (0 ∷ 0 ∷ 0 ∷ 0 ∷ []) 0

abbrev server : CryptoTransport
server = gcm (9 ∷ []) (0 ∷ 0 ∷ 0 ∷ 1 ∷ []) 0

read_frame-write_frame_example : FrameRead plain_laws entropy 2 client server hello
read_frame-write_frame_example =
    read_frame-write_frame plain_laws entropy 2 client server hello entropy-IsEntropy hello-Fits
      (refl, refl) (omega arith)

decrypt-encrypt_example : Delivers plain_laws (replicate 12 1) client server (replicate 32 3)
decrypt-encrypt_example =
    decrypt-encrypt plain_laws client server (replicate 12 1) (replicate 32 3) (refl, refl)
      (omega arith) refl refl

abbrev third : ℕ
third = 2

abbrev nonce : Bytes
nonce = 0 ∷ 0 ∷ 0 ∷ 0 ∷ 0 ∷ 0 ∷ 0 ∷ 0 ∷ 0 ∷ 0 ∷ 0 ∷ 2 ∷ []

abbrev header : Header
header = record { id = replicate 16 5; flow_type = 2; size = 300; extra = replicate 11 0 }

unpack-pack_example :
    (bs : Bytes) × (pack header ≡ some bs) × (length bs ≡ 32) × (unpack bs ≡ some header)
unpack-pack_example =
    unpack-pack header
      (record { id = refl; flow_type = omega arith; size = omega arith; extra = refl })

pack-unpack_example :
    (h : Header) × (unpack (replicate 32 1) ≡ some h)
    × IsHeader h
    × (pack h ≡ some (replicate 32 1))
pack-unpack_example = pack-unpack (replicate 32 1) (omega arith) refl

abbrev caller : Channel
caller = Channel.new (v6 5) 2 true 7

new_address-init_new_example :
    new_address 2 (record (init_new (λ n. replicate n 0) caller) {
      extra = (init_new (λ n. replicate n 0) caller).extra ++ [];
    })
    ≡ some (told_address 2 (v6 5))
new_address-init_new_example = new_address-init_new (λ n. replicate n 0) caller [] (omega arith)

-- A server's end and a client's, in step, and two messages.
abbrev end_of : CryptoTransport → Endpoint
end_of crypto = Endpoint.new crypto 2 true none (State.new 1000 10 100) 50

abbrev said : List (Entropy × MultiplexerMessage)
said = (entropy, hello) ∷ (entropy, record hello { payload = 1 ∷ [] }) ∷ []

abbrev rounds : List Round
rounds =
    record { now = 60; entropy = entropy; drained = ok tt }
    ∷ record { now = 70; entropy = entropy; drained = ok tt }
    ∷ []
