-- ===== src/Sni.antt =====
-- snitun/server/sni.py: the server name in a TLS ClientHello. A loop takes fuel, and `none` means that it ran out.
pub mod Cursor
pub mod Total
pub mod Hello
pub mod Reader
use snitun.Prelude.{
  ℕ, zero, suc, ◌+◌, ◌*◌, Bool, false, not, ◌&&◌, ◌||◌, Option, none, some, List, [], ◌∷◌, ◌++◌,
  leb, ltb, ◌==◌, if◌then◌else◌, length, get_elem?, take, drop,
}
use snitun.Exceptions.{
  ◌>>=◌, Result, ok, err, or_raise, parse_sni_error, parse_sni_incomplete_error, index_error,
  runtime_error,
}
use snitun.Bytes.{Bytes, Text, decode_utf8}

abbrev pub tls_header_len : ℕ
tls_header_len = 5

abbrev pub tls_handshake_content_type : ℕ
tls_handshake_content_type = 0x16

abbrev pub tls_handshake_type_client_hello : ℕ
tls_handshake_type_client_hello = 0x01

abbrev pub max_read_size : ℕ
max_read_size = 4096

abbrev pub max_buffer_size : ℕ
max_buffer_size = 1024000

-- `data[i]`
unfoldable pub at : Bytes → ℕ → Result ℕ
at bs i = or_raise (get_elem? bs i) index_error

-- `(data[i] << 8) + data[i + 1]`
unfoldable pub word : Bytes → ℕ → Result ℕ
unfolding at
word bs i = do hi ← at bs i; lo ← at bs (i + 1); ok (hi * 256 + lo)

-- `except IndexError: raise ParseSNIError`
abbrev pub no_index {ℓ} : {A : Type ℓ} → Result A → Result A
no_index (ok a) = ok a
no_index (err index_error) = err parse_sni_error
no_index (err e) = err e

-- One entry of the server name list: the name, or the position of the next entry.
pub data HostEntry : Type 0 where
  host : Text → HostEntry
  skip : ℕ → HostEntry

unfoldable pub host_entry : Bytes → ℕ → Result HostEntry
unfolding word at
host_entry bs pos = do
  size ← word bs (pos + 1)
  kind ← at bs pos
  if kind == 0
      then (do
        name ← or_raise (decode_utf8 (take size (drop (pos + 3) bs))) parse_sni_error
        ok (host name))
      else ok (skip (pos + 3 + size))

go_host : Result HostEntry → (ℕ → Option (Result Text)) → Option (Result Text)
go_host (ok (host name)) next = some (ok name)
go_host (ok (skip pos)) next = next pos
go_host (err e) next = some (err e)

-- The loop of `_parse_host_name`.
unfoldable pub host_loop : ℕ → Bytes → ℕ → Option (Result Text)
unfolding go_host
host_loop zero bs pos = none
host_loop (suc fuel) bs pos =
    let round = go_host (host_entry bs pos) (host_loop fuel bs) in
    if ltb (pos + 3) (length bs) then round else some (err parse_sni_error)

-- Each round of a loop moves the position, which is below the length, by three or four at least.
abbrev pub fuel : Bytes → ℕ
fuel bs = suc (length bs)

unfoldable pub parse_host_name : Bytes → ℕ → Option (Result Text)
parse_host_name bs pos = host_loop (fuel bs) bs (pos + 2)

-- One extension: the server name, or the position of the next one.
pub data Extension : Type 0 where
  server_name : Extension
  other : ℕ → Extension

unfoldable pub extension : Bytes → ℕ → Result Extension
unfolding word at
extension bs pos = do
  hi ← at bs pos
  lo ← at bs (pos + 1)
  if hi == 0 && lo == 0
      then ok server_name
      else (do size ← word bs (pos + 2); ok (other (pos + 4 + size)))

go_extension :
    Result Extension → Option (Result Text) → (ℕ → Option (Result Text)) → Option (Result Text)
go_extension (ok server_name) name next = name
go_extension (ok (other pos)) name next = next pos
go_extension (err e) name next = some (err e)

-- The loop of `_parse_extension`.
unfoldable pub extension_loop : ℕ → Bytes → ℕ → Option (Result Text)
unfolding go_extension
extension_loop zero bs pos = none
extension_loop (suc fuel) bs pos =
    let round =
      go_extension (extension bs pos) (parse_host_name bs (pos + 4)) (extension_loop fuel bs) in
    if leb (pos + 4) (length bs) then round else some (err parse_sni_error)

-- A loop's result, where running out of fuel does not happen.
abbrev pub finish : Option (Result Text) → Result Text
finish none = err runtime_error
finish (some r) = r

unfoldable pub parse_extension : Bytes → ℕ → Result Text
parse_extension bs pos = do
  size ← no_index (word bs pos)
  if ltb (length bs) (pos + 2 + size)
      then err parse_sni_error
      else finish (extension_loop (fuel bs) bs (pos + 2))

-- From behind the checks of the record: the variable parts of the ClientHello.
unfoldable pub parse_client_hello : Bytes → Result Text
parse_client_hello bs = do
  session ← no_index (at bs (tls_header_len + 38))
  suites ← no_index (word bs (44 + session))
  methods ← no_index (at bs (46 + session + suites))
  if ltb (length bs) (47 + session + suites + methods + 2)
      then err parse_sni_error
      else parse_extension bs (47 + session + suites + methods)

-- The handshake's type, which is read behind the record's header.
unfoldable pub parse_handshake : Bytes → Result Text
parse_handshake bs = do
  handshake_type ← at bs tls_header_len
  if handshake_type == tls_handshake_type_client_hello
      then parse_client_hello bs
      else err parse_sni_error

-- The checks of the record's header, on the fields that they read.
unfoldable pub parse_record : Bytes → ℕ → ℕ → ℕ → Result Text
parse_record bs content_type version record_size =
    if not (content_type == tls_handshake_content_type)
    then err parse_sni_error
    else if ltb version 3
    then err parse_sni_error
    else if ltb (length bs) (record_size + tls_header_len)
    then err parse_sni_incomplete_error
    else parse_handshake bs

unfoldable pub parse_tls_sni : Bytes → Result Text
parse_tls_sni bs =
    let fields = (do
      content_type ← at bs 0
      version ← at bs 1
      record_size ← word bs 3
      parse_record bs content_type version record_size) in
    if ltb (length bs) tls_header_len then err parse_sni_error else fields

-- What `payload_reader` is told to read next, one chunk for each call of `read`: none when the peer is done.
unfoldable pub read_until : (Bytes → Bool) → Bytes → List Bytes → Option Bytes
read_until enough bs [] = if enough bs then some bs else none
read_until enough bs (chunk ∷ chunks) =
    let rest = read_until enough (bs ++ chunk) chunks in
    if enough bs then some bs else if ltb 0 (length chunk) then rest else none

-- The chunks that a `read_until` leaves to the next one.
unfoldable pub left_over : (Bytes → Bool) → Bytes → List Bytes → List Bytes
left_over enough bs [] = []
left_over enough bs (chunk ∷ chunks) =
    let rest = left_over enough (bs ++ chunk) chunks in if enough bs then chunk ∷ chunks else rest

-- The first six bytes hold the record's header and the type of the handshake.
abbrev pub six : Bytes → Bool
six bs = leb 6 (length bs)

-- `not (data_size < tls_size and data_size <= MAX_BUFFER_SIZE)`
abbrev pub complete : ℕ → Bytes → Bool
complete tls_size bs = leb tls_size (length bs) || ltb max_buffer_size (length bs)

-- `or` tests the second byte only where the first one fits.
unfoldable pub is_client_hello : Bytes → Result Bool
unfolding at
is_client_hello bs = do
  content_type ← at bs 0
  let handshake = (do
    handshake_type ← at bs 5
    ok (handshake_type == tls_handshake_type_client_hello))
  if content_type == tls_handshake_content_type then handshake else ok false

unfoldable pub read_record : Bytes → List Bytes → Result (Option Bytes)
unfolding word at is_client_hello
read_record bs chunks = do
  fits ← is_client_hello bs
  let rest = (do
    record_size ← word bs 3
    ok (read_until (complete (record_size + tls_header_len)) bs chunks))
  if fits then rest else ok none

read_checked : Option Bytes → List Bytes → Result (Option Bytes)
read_checked none chunks = ok none
read_checked (some bs) chunks = read_record bs chunks

unfoldable pub payload_reader : Bytes → List Bytes → Result (Option Bytes)
unfolding read_checked
payload_reader initial chunks =
    read_checked (read_until six initial chunks) (left_over six initial chunks)
