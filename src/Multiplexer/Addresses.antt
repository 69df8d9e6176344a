-- ===== src/Multiplexer/Addresses.antt =====
-- The address in a NEW message, as `_read_message` takes it from the message of `init_new`.
use snitun.Prelude.{
  ℕ, ◌-◌, ◌%◌, ◌≡◌, ap, Option, none, some, [], ◌∷◌, ◌++◌, arith, leb, ltb, if◌then◌else◌, length,
  take, drop, length-append, take-append_length, le→ltb_not, Bool-cases, inl, inr, ◌∙◌,
}
use snitun.Bytes.{Bytes, bytes_eq, length-to_bytes}
use snitun.IpAddress.{
  IpAddress, v4, v6, IsAddress, empty_ip_address, ip_address_to_bytes, bytes_to_ip_address,
  bytes_to_ip_address-ip_address_to_bytes,
}
use snitun.Message.{min_protocol_version_for_encrypted_new, MultiplexerMessage}
use snitun.Channel.{Channel, init_new, address_block, padding, legacy_address}

-- The branch of `_read_message` for a new channel: `none` is a malformed address, which is logged.
unfoldable pub new_address : ℕ → MultiplexerMessage → Option IpAddress
new_address version m =
    let packed = drop 1 m.payload in
    let expected = if bytes_eq (take 1 m.payload) (b'6' ∷ []) then 16 else 4 in
    if leb min_protocol_version_for_encrypted_new version
    then (if ltb (length packed) expected
        then none
        else some (bytes_to_ip_address (take expected packed)))
    else some (bytes_to_ip_address (take 4 (drop 1 m.extra)))

-- The address that arrives: the caller's from version 2 on; before that its IPv4 address, and the
-- empty address in place of an IPv6 one.
abbrev pub told_address : ℕ → IpAddress → IpAddress
told_address version ip =
    if leb min_protocol_version_for_encrypted_new version then ip else legacy_address ip

packed_read :
    (k : ℕ) (packed pad : Bytes)
    → length packed ≡ k
    → (if ltb (length (packed ++ pad)) k
        then none
        else some (bytes_to_ip_address (take k (packed ++ pad))))
      ≡ some (bytes_to_ip_address packed)
packed_read k packed pad h = rw (
  le→ltb_not (length (packed ++ pad)) k (omega (arith, length-append packed pad)),
  take-append_length k packed pad h,
)

read_new :
    (random : ℕ → Bytes) (ip : IpAddress)
    → IsAddress ip
    → let payload = address_block ip ++ random (padding (length (address_block ip))) in
      let expected : ℕ = if bytes_eq (take 1 payload) (b'6' ∷ []) then 16 else 4 in
      (if ltb (length (drop 1 payload)) expected
        then none
        else some (bytes_to_ip_address (take expected (drop 1 payload))))
      ≡ some ip
unfolding address_block bytes_eq ip_address_to_bytes
read_new random (v4 n) h =
    packed_read 4 (ip_address_to_bytes (v4 n)) _ (length-to_bytes 4 n)
    ∙ ap some (bytes_to_ip_address-ip_address_to_bytes (v4 n) h)
read_new random (v6 n) h =
    packed_read 16 (ip_address_to_bytes (v6 n)) _ (length-to_bytes 16 n)
    ∙ ap some (bytes_to_ip_address-ip_address_to_bytes (v6 n) h)

read_legacy :
    (ip : IpAddress) (pad : Bytes)
    → IsAddress ip
    → bytes_to_ip_address (take 4 (ip_address_to_bytes (legacy_address ip) ++ pad))
      ≡ legacy_address ip
unfolding legacy_address ip_address_to_bytes
read_legacy (v4 n) pad h =
    ap bytes_to_ip_address (take-append_length 4 _ pad (length-to_bytes 4 n))
    ∙ bytes_to_ip_address-ip_address_to_bytes (v4 n) h
read_legacy (v6 n) pad h =
    ap bytes_to_ip_address (take-append_length 4 _ pad (length-to_bytes 4 0))
    ∙ bytes_to_ip_address-ip_address_to_bytes empty_ip_address (omega arith)

-- The address in a message of init_new is read back as the caller's from version 2 on, and before
-- that as its IPv4 address or, for IPv6, as the empty one; the padding of the data does not matter,
-- nor that of the header field. The caller's address is in the range of its version.
pub new_address-init_new :
    (random : ℕ → Bytes) (c : Channel) (pad : Bytes)
    → IsAddress c.ip_address
    → let m = init_new random c in
      new_address c.peer_protocol_version (record m { extra = m.extra ++ pad })
      ≡ some (told_address c.peer_protocol_version c.ip_address)
unfolding new_address init_new
new_address-init_new random c pad h = elim (Bool-cases (leb 2 c.peer_protocol_version)) [
  | inl e ↦ rw e (read_new random c.ip_address h)
  | inr e ↦ rw e (ap some (read_legacy c.ip_address pad h))
]

-- The data of the message is whole AES blocks, if `os.urandom` returns as many bytes as it is asked for.
pub init_new_aligned :
    (random : ℕ → Bytes) (c : Channel)
    → ((n : ℕ) → length (random n) ≡ n)
    → length (init_new random c).payload % 16 ≡ 0
unfolding init_new padding
init_new_aligned random c h = elim (Bool-cases (leb 2 c.peer_protocol_version)) [
  | inl e ↦ rw e (aligned (address_block c.ip_address))
  | inr e ↦ rw e
]
  where
    aligned : (block : Bytes) → length (block ++ random ((16 - length block % 16) % 16)) % 16 ≡ 0
    aligned block = omega (
      arith,
      length-append block (random ((16 - length block % 16) % 16)),
      h ((16 - length block % 16) % 16),
    )
