-- ===== src/ProxyProtocol/Verdict.antt =====
-- What the header's parser (snitun/server/proxy_protocol.py) says: which headers, and which exceptions.
use snitun.Prelude.{
  ℕ, ◌+◌, ◌*◌, ◌/◌, ◌≤◌, ◌≡◌, refl, Bool, true, false, ◌||◌, Option, none, some, List, arith, ltb,
  ◌==◌, if◌then◌else◌, length, take, drop, Bool-cases, inl, inr, get_elem?-lt,
}
use snitun.Exceptions.{
  Result, ok, err, parse_proxy_protocol_error, parse_proxy_protocol_incomplete_error,
}
use snitun.Bytes.{Bytes, starts_with, from_bytes}
use snitun.IpAddress.{IpAddress, v4, v6}
use snitun.IpAddress.Parse.{split, ip_address}
use snitun.ProxyProtocol.{
  v1_prefix, v2_signature, ProxyProtocolHeader, header, field, find_crlf, v1_source, v1_fields,
  v1_line, parse_v1, v2_block, v2_command, v2_version, parse_v2, found, parse_proxy_protocol_header,
}
use snitun.ProxyProtocol.Stable.{sized, find_crlf-lt, byte-some}

-- A header within `n` bytes, or one of the parser's two exceptions.
data Headed (n : ℕ) : Result ProxyProtocolHeader → Type 0 where
  headed : (h : ProxyProtocolHeader) → h.size ≤ n → Headed n (ok h)
  wrong : Headed n (err parse_proxy_protocol_error)
  partial : Headed n (err parse_proxy_protocol_incomplete_error)

-- The same of the parser's whole result: no header, or one that ends within the data.
pub data Verdict (bs : Bytes) : Result (Option ProxyProtocolHeader) → Type 0 where
  absent : Verdict bs (ok none)
  present : (h : ProxyProtocolHeader) → h.size ≤ length bs → Verdict bs (ok (some h))
  malformed : Verdict bs (err parse_proxy_protocol_error)
  unfinished : Verdict bs (err parse_proxy_protocol_incomplete_error)

module _ (n : ℕ) where
  if-Headed :
      (b : Bool) (r s : Result ProxyProtocolHeader)
      → Headed n r
      → Headed n s
      → Headed n (if b then r else s)
  if-Headed true r s p q = p
  if-Headed false r s p q = q

  v1_source-Headed :
      (protocol : Bytes) (size : ℕ) (source : Option IpAddress)
      → size ≤ n
      → Headed n (v1_source protocol size source)
  unfolding v1_source
  v1_source-Headed protocol size none l = wrong
  v1_source-Headed protocol size (some source) l =
      if-Headed _ _ _ wrong (headed (header (some source) size) l)

  v1_fields-Headed : (size : ℕ) (fields : List Bytes) → size ≤ n → Headed n (v1_fields size fields)
  unfolding v1_fields
  v1_fields-Headed size fields l = if-Headed _ _ _ (headed (header none size) l) (
      if-Headed _ _ _ wrong (
        if-Headed _ _ _ wrong
          (v1_source-Headed (field fields 1) size (ip_address (field fields 2)) l)))

  v2_block-Headed :
      (family address_len : ℕ) (block : Bytes)
      → 16 + address_len ≤ n
      → Headed n (v2_block family address_len block)
  unfolding v2_block
  v2_block-Headed family address_len block l =
      if-Headed (family == 0x10) _ _
        (if-Headed (ltb address_len 12) _ _ wrong
          (headed (header (some (v4 (from_bytes (take 4 block)))) (16 + address_len)) l))
        (if-Headed (family == 0x20) _ _
          (if-Headed (ltb address_len 36) _ _ wrong
            (headed (header (some (v6 (from_bytes (take 16 block)))) (16 + address_len)) l))
          (headed (header none (16 + address_len)) l))

  v2_command-Headed :
      (bs : Bytes) (v f address_len : ℕ)
      → 16 + address_len ≤ n
      → Headed n (v2_command bs v f address_len)
  unfolding v2_command
  v2_command-Headed bs v f address_len l =
      if-Headed _ _ _ (headed (header none (16 + address_len)) l) (
        if-Headed _ _ _ wrong
          (v2_block-Headed (f / 16 * 16) address_len (take address_len (drop 16 bs)) l))

parse_v1-Headed : (bs : Bytes) → Headed (length bs) (parse_v1 bs)
unfolding parse_v1 v1_line
parse_v1-Headed bs = go (find_crlf bs) (find_crlf-lt bs)
  where
    go :
        (m : Option ℕ)
        → ((n : ℕ) → m ≡ some n → n + 2 ≤ length bs)
        → Headed (length bs) (v1_line bs m)
    go none f = if-Headed (length bs) _ _ _ wrong partial
    go (some n) f =
        if-Headed (length bs) _ _ _ wrong
          (v1_fields-Headed (length bs) (n + 2) (split 32 (take n bs)) (f n refl))

sized-Headed : (bs : Bytes) (v f n : ℕ) → Headed (length bs) (sized bs v f n)
sized-Headed bs v f n = elim (Bool-cases (ltb (length bs) (16 + n))) [
  | inl short ↦ rw short (if-Headed (length bs) _ _ _ wrong partial)
  | inr whole ↦
      rw whole
        (if-Headed (length bs) _ _ _ wrong (v2_command-Headed (length bs) bs v f n (ground arith)))
]

parse_v2-Headed : (bs : Bytes) → Headed (length bs) (parse_v2 bs)
unfolding parse_v2 v2_version
parse_v2-Headed bs = elim (Bool-cases (ltb (length bs) 16)) [
  | inl e ↦ rw e partial
  | inr e ↦
      let (b12, e12) = get_elem?-lt bs 12 (ground arith) in
      let (b13, e13) = get_elem?-lt bs 13 (ground arith) in
      let (b14, e14) = get_elem?-lt bs 14 (ground arith) in
      let (b15, e15) = get_elem?-lt bs 15 (ground arith) in
      rw e (
        rw
          (
            byte-some bs 12 b12 e12,
            byte-some bs 13 b13 e13,
            byte-some bs 14 b14 e14,
            byte-some bs 15 b15 e15,
          )
          (sized-Headed bs b12 b13 (b14 * 256 + b15)))
]

found-Verdict :
    (bs : Bytes) (r : Result ProxyProtocolHeader) → Headed (length bs) r → Verdict bs (found r)
found-Verdict bs r (headed h l) = present h l
found-Verdict bs r wrong = malformed
found-Verdict bs r partial = unfinished

-- The parser says that there is no header, or gives one that ends within the data, or raises one of
-- its two exceptions: it raises nothing else, whatever the data.
pub parse_proxy_protocol_header-Verdict : (bs : Bytes) → Verdict bs (parse_proxy_protocol_header bs)
unfolding parse_proxy_protocol_header
parse_proxy_protocol_header-Verdict bs = elim (Bool-cases (starts_with bs v2_signature)) [
  | inl e ↦ rw e (found-Verdict bs _ (parse_v2-Headed bs))
  | inr e ↦ elim (Bool-cases (starts_with bs v1_prefix)) [
    | inl e1 ↦ rw e (rw e1 (found-Verdict bs _ (parse_v1-Headed bs)))
    | inr e1 ↦ rw e (
        rw e1 (elim (Bool-cases (starts_with v2_signature bs || starts_with v1_prefix bs)) [
          | inl part ↦ rw part unfinished
          | inr part ↦ rw part absent
        ]))
  ]
]
