-- ===== src/ProxyProtocol.antt =====
-- snitun/server/proxy_protocol.py: the header that a proxy puts before a connection.
pub mod Stable
pub mod Verdict
pub mod Stream
use snitun.Prelude.{
  ℕ, zero, suc, ◌+◌, ◌-◌, ◌*◌, ◌/◌, ◌%◌, Bool, true, false, not, ◌&&◌, ◌||◌, Option, none, some,
  List, [], ◌∷◌, ◌++◌, leb, ltb, ◌==◌, if◌then◌else◌, length, get_elem?, take, drop,
}
use snitun.Exceptions.{
  ◌>>=◌, Exception, Result, ok, err, or_raise, parse_proxy_protocol_error,
  parse_proxy_protocol_incomplete_error, index_error,
}
use snitun.Bytes.{Bytes, from_bytes, bytes_eq, starts_with}
use snitun.IpAddress.{IpAddress, v4, v6}
use snitun.IpAddress.Parse.{ip_address, split}

abbrev pub max_header_size : ℕ
max_header_size = 1500

abbrev pub v1_prefix : Bytes
v1_prefix = 80 ∷ 82 ∷ 79 ∷ 88 ∷ 89 ∷ 32 ∷ []

abbrev pub v1_max_len : ℕ
v1_max_len = 108

abbrev pub v2_signature : Bytes
v2_signature = 13 ∷ 10 ∷ 13 ∷ 10 ∷ 0 ∷ 13 ∷ 10 ∷ 81 ∷ 85 ∷ 73 ∷ 84 ∷ 10 ∷ []

abbrev pub v2_header_len : ℕ
v2_header_len = 16

abbrev pub unknown : Bytes
unknown = 85 ∷ 78 ∷ 75 ∷ 78 ∷ 79 ∷ 87 ∷ 78 ∷ []

abbrev pub tcp4 : Bytes
tcp4 = 84 ∷ 67 ∷ 80 ∷ 52 ∷ []

abbrev pub tcp6 : Bytes
tcp6 = 84 ∷ 67 ∷ 80 ∷ 54 ∷ []

pub record ProxyProtocolHeader : Type 0 where
  pub source : Option IpAddress
  pub size : ℕ

abbrev pub header : Option IpAddress → ℕ → ProxyProtocolHeader
header source size = record { source = source; size = size }

unfoldable pub later_by_one : Option ℕ → Option ℕ
later_by_one none = none
later_by_one (some n) = some (suc n)

-- `data.find(b"\r\n")`
unfoldable pub find_crlf : Bytes → Option ℕ
unfolding later_by_one
find_crlf [] = none
find_crlf (x ∷ xs) =
    let later = later_by_one (find_crlf xs) in
    if x == 13 && starts_with xs (10 ∷ []) then some 0 else later

-- `fields[i]`, and no bytes where there is none.
abbrev pub field : List Bytes → ℕ → Bytes
field fields i = elim (get_elem? fields i) [ none ↦ [] | some f ↦ f ]

abbrev pub is_v4 : IpAddress → Bool
is_v4 (v4 _) = true
is_v4 (v6 _) = false

-- The source address against the protocol that is declared.
unfoldable pub v1_source : Bytes → ℕ → Option IpAddress → Result ProxyProtocolHeader
v1_source protocol size none = err parse_proxy_protocol_error
v1_source protocol size (some source) =
    if (bytes_eq protocol tcp4 && not (is_v4 source))
      || (not (bytes_eq protocol tcp4) && is_v4 source)
    then err parse_proxy_protocol_error
    else ok (header (some source) size)

-- The fields of a v1 line.
unfoldable pub v1_fields : ℕ → List Bytes → Result ProxyProtocolHeader
v1_fields size fields =
    if bytes_eq (field fields 1) unknown
    then ok (header none size)
    else if not (bytes_eq (field fields 1) tcp4 || bytes_eq (field fields 1) tcp6)
    then err parse_proxy_protocol_error
    else if not (length fields == 6)
    then err parse_proxy_protocol_error
    else v1_source (field fields 1) size (ip_address (field fields 2))

-- The line that ends at the CRLF found, if one was.
unfoldable pub v1_line : Bytes → Option ℕ → Result ProxyProtocolHeader
v1_line bs none =
    if leb v1_max_len (length bs)
    then err parse_proxy_protocol_error
    else err parse_proxy_protocol_incomplete_error
v1_line bs (some end) =
    if ltb v1_max_len (end + 2)
    then err parse_proxy_protocol_error
    else v1_fields (end + 2) (split 32 (take end bs))

unfoldable pub parse_v1 : Bytes → Result ProxyProtocolHeader
parse_v1 bs = v1_line bs (find_crlf bs)

-- The address block, by the family.
unfoldable pub v2_block : ℕ → ℕ → Bytes → Result ProxyProtocolHeader
v2_block family address_len block =
    if family == 0x10
    then (if ltb address_len 12
        then err parse_proxy_protocol_error
        else ok (header (some (v4 (from_bytes (take 4 block)))) (v2_header_len + address_len)))
    else if family == 0x20
    then (if ltb address_len 36
        then err parse_proxy_protocol_error
        else ok (header (some (v6 (from_bytes (take 16 block)))) (v2_header_len + address_len)))
    else ok (header none (v2_header_len + address_len))

-- Behind the size's check; `b & 0xF0` is `b / 16 * 16`, and `b & 0x0F` is `b % 16`.
unfoldable pub v2_command : Bytes → ℕ → ℕ → ℕ → Result ProxyProtocolHeader
v2_command bs version_command family_protocol address_len =
    if version_command % 16 == 0
    then ok (header none (v2_header_len + address_len))
    else if not (version_command % 16 == 1)
    then err parse_proxy_protocol_error
    else v2_block (family_protocol / 16 * 16) address_len (take address_len (drop v2_header_len bs))

-- `data[i]`
unfoldable pub byte : Bytes → ℕ → Result ℕ
byte bs i = or_raise (get_elem? bs i) index_error

unfoldable pub v2_version : Bytes → Result ProxyProtocolHeader
unfolding byte
v2_version bs = do
  version_command ← byte bs 12
  family_protocol ← byte bs 13
  high ← byte bs 14
  low ← byte bs 15
  if not (version_command / 16 * 16 == 0x20)
      then err parse_proxy_protocol_error
      else if ltb (length bs) (v2_header_len + (high * 256 + low))
      then err parse_proxy_protocol_incomplete_error
      else v2_command bs version_command family_protocol (high * 256 + low)

unfoldable pub parse_v2 : Bytes → Result ProxyProtocolHeader
parse_v2 bs =
    if ltb (length bs) v2_header_len
    then err parse_proxy_protocol_incomplete_error
    else v2_version bs

abbrev pub found : Result ProxyProtocolHeader → Result (Option ProxyProtocolHeader)
found (ok h) = ok (some h)
found (err e) = err e

unfoldable pub parse_proxy_protocol_header : Bytes → Result (Option ProxyProtocolHeader)
parse_proxy_protocol_header bs =
    if starts_with bs v2_signature
    then found (parse_v2 bs)
    else if starts_with bs v1_prefix
    then found (parse_v1 bs)
    else if starts_with v2_signature bs || starts_with v1_prefix bs
    then err parse_proxy_protocol_incomplete_error
    else ok none

-- What a round of `read_proxy_protocol_header` does with the buffer.
pub data Round : Type 0 where
  done : Option ProxyProtocolHeader → Bytes → Round
  failed : Exception → Round
  more : Round

unfoldable pub round_of : Bytes → Result (Option ProxyProtocolHeader) → Round
round_of buffer (ok none) = done none buffer
round_of buffer (ok (some h)) = done (some h) (drop h.size buffer)
round_of buffer (err parse_proxy_protocol_incomplete_error) =
    if leb max_header_size (length buffer) then failed parse_proxy_protocol_error else more
round_of buffer (err e) = failed e

-- `reader.read(n)` gives what has arrived, but `n` bytes at most, and no bytes at the end.
unfoldable pub read : ℕ → List Bytes → Bytes × List Bytes
read n [] = ([], [])
read n (chunk ∷ chunks) =
    if leb (length chunk) n then (chunk, chunks) else (take n chunk, drop n chunk ∷ chunks)

-- The header, the payload that was read behind it, and what the stream still holds.
abbrev pub Answer : Type 0
Answer = Result (Option ProxyProtocolHeader × Bytes × List Bytes)

-- The loop of `read_proxy_protocol_header`.
unfoldable pub read_loop : ℕ → Bytes → List Bytes → Option Answer
unfolding round_of read
read_loop zero buffer chunks = none
read_loop (suc fuel) buffer chunks =
    let (chunk, rest) = read (max_header_size - length buffer) chunks in
    let again = read_loop fuel (buffer ++ chunk) rest in
    go (round_of buffer (parse_proxy_protocol_header buffer)) chunk again
  where
    go : Round → Bytes → Option Answer → Option Answer
    go (done h left) chunk again = some (ok (h, left, chunks))
    go (failed e) chunk again = some (err e)
    go more [] again = some (err parse_proxy_protocol_error)
    go more (_ ∷ _) again = again

-- A round that goes on reads a byte, and there are 1500 of them at most.
unfoldable pub read_proxy_protocol_header : List Bytes → Option Answer
read_proxy_protocol_header chunks = read_loop (suc max_header_size) [] chunks
