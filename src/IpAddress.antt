-- ===== src/IpAddress.antt =====
-- snitun/utils/ipaddress.py: packed addresses.
pub mod Parse
use snitun.Prelude.{ℕ, ◌^◌, ◌<◌, ◌≡◌, ap, ◌==◌, if◌then◌else◌, length, ◌⊎◌, inl, inr}
use snitun.Bytes.{
  Bytes, IsBytes, to_bytes, from_bytes, from_bytes-to_bytes, to_bytes-from_bytes, length-to_bytes,
  from_bytes-lt,
}

-- `IPv4Address | IPv6Address`, each as its integer.
pub data IpAddress : Type 0 where
  v4 : ℕ → IpAddress
  v6 : ℕ → IpAddress

abbrev pub IsAddress : IpAddress → Type 0
IsAddress (v4 n) = n < 256 ^ 4
IsAddress (v6 n) = n < 256 ^ 16

abbrev pub empty_ip_address : IpAddress
empty_ip_address = v4 0

-- `ip_address.packed`
unfoldable pub ip_address_to_bytes : IpAddress → Bytes
ip_address_to_bytes (v4 n) = to_bytes 4 n
ip_address_to_bytes (v6 n) = to_bytes 16 n

-- `ipaddress.ip_address(data)`, with the empty address for a wrong length.
unfoldable pub bytes_to_ip_address : Bytes → IpAddress
bytes_to_ip_address packed =
    if length packed == 4
    then v4 (from_bytes packed)
    else if length packed == 16
    then v6 (from_bytes packed)
    else empty_ip_address

-- An address in the range of its version comes back from its packed bytes.
pub bytes_to_ip_address-ip_address_to_bytes :
    (ip : IpAddress) → IsAddress ip → bytes_to_ip_address (ip_address_to_bytes ip) ≡ ip
unfolding bytes_to_ip_address ip_address_to_bytes
bytes_to_ip_address-ip_address_to_bytes (v4 n) h =
    rw (length-to_bytes 4 n) (ap v4 (from_bytes-to_bytes 4 n h))
bytes_to_ip_address-ip_address_to_bytes (v6 n) h =
    rw (length-to_bytes 16 n) (ap v6 (from_bytes-to_bytes 16 n h))

-- Four or sixteen bytes come back from the address that they are read as, and that address is in
-- the range of its version.
ip_address_to_bytes-bytes_to_ip_address :
    (packed : Bytes)
    → IsBytes packed
    → (length packed ≡ 4) ⊎ (length packed ≡ 16)
    → (ip_address_to_bytes (bytes_to_ip_address packed) ≡ packed)
      × IsAddress (bytes_to_ip_address packed)
unfolding bytes_to_ip_address ip_address_to_bytes
ip_address_to_bytes-bytes_to_ip_address packed b (inl e) =
    rw e (to_bytes-from_bytes 4 packed e b, from_bytes-lt 4 packed e b)
ip_address_to_bytes-bytes_to_ip_address packed b (inr e) =
    rw e (to_bytes-from_bytes 16 packed e b, from_bytes-lt 16 packed e b)
