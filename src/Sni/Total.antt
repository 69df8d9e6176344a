-- ===== src/Sni/Total.antt =====
-- What `parse_tls_sni` (snitun/server/sni.py) can raise, and that its loops end.
use snitun.Prelude.{
  ◌≢◌, ℕ, zero, suc, ◌+◌, ◌-◌, ◌*◌, ◌≤◌, ◌<◌, ◌≡◌, refl, sym, subst, Bool, true, false, not, ◌&&◌,
  Option, none, some, [], ◌∷◌, arith, leb, ltb, ◌==◌, if◌then◌else◌, length, get_elem?,
  get_elem?-lt, Bool-cases, inl, inr, take, drop, get_elem?-ge, leb→le, le→ltb_not, ◌⊎◌,
}
use snitun.Exceptions.{
  Result, ok, err, ◌>>=◌, or_raise, parse_sni_error, parse_sni_incomplete_error, index_error,
}
use snitun.Bytes.{Bytes, Text, decode_utf8}
use snitun.Sni.{
  tls_header_len, at, word, no_index, HostEntry, host, skip, host_entry, go_host, host_loop, fuel,
  parse_host_name, Extension, server_name, other, extension, go_extension, extension_loop, finish,
  parse_extension, parse_client_hello, parse_handshake, parse_record, parse_tls_sni,
}

-- A result that is a name or one of the two errors of the parser, the second one under a condition.
pub data Parsed (S : Type 0) : Result Text → Type 0 where
  parsed : (name : Text) → Parsed S (ok name)
  refused : Parsed S (err parse_sni_error)
  incomplete : S → Parsed S (err parse_sni_incomplete_error)

-- Data that ends before its record does.
abbrev pub IsShort : Bytes → Type 0
IsShort bs = (size : ℕ) × (word bs 3 ≡ ok size) × (length bs < size + tls_header_len)

-- A loop that ends, with a result of that kind.
abbrev Ends : Type 0 → Option (Result Text) → Type 0
Ends S m = (r : Result Text) × (m ≡ some r) × Parsed S r

-- The same for what a step reads: a value with a property, or an error of the parser.
data Step {A : Type 0} (P : A → Type 0) : Result A → Type 0 where
  step : (a : A) → P a → Step P (ok a)
  stop : Step P (err parse_sni_error)

pub at-lt : (bs : Bytes) (i : ℕ) → i < length bs → (b : ℕ) × (at bs i ≡ ok b)
unfolding at
at-lt bs i h = let (b, e) = get_elem?-lt bs i h in (b, rw e refl)

pub word-lt : (bs : Bytes) (i : ℕ) → i + 1 < length bs → (n : ℕ) × (word bs i ≡ ok n)
unfolding word
word-lt bs i h =
    let (hi, eh) = at-lt bs i (omega arith) in
    let (lo, el) = at-lt bs (i + 1) h in (hi * 256 + lo, rw eh (rw el refl))

no_index-at : (bs : Bytes) (i : ℕ) → Step (λ b. Unit) (no_index (at bs i))
unfolding at
no_index-at bs i = go (get_elem? bs i)
  where
    go : (m : Option ℕ) → Step (λ b. Unit) (no_index (or_raise m index_error))
    go none = stop
    go (some b) = step b tt

no_index-word : (bs : Bytes) (i : ℕ) → Step (λ b. Unit) (no_index (word bs i))
unfolding word at
no_index-word bs i = go (get_elem? bs i) (get_elem? bs (i + 1))
  where
    go :
        (m m' : Option ℕ)
        → Step
            (λ b. Unit)
            (no_index (
              or_raise m index_error >>= λ hi.
              or_raise m' index_error >>= λ lo. ok (hi * 256 + lo)))
    go none m' = stop
    go (some hi) none = stop
    go (some hi) (some lo) = step (hi * 256 + lo) tt

-- A step that goes on does so behind its position.
abbrev Onward : ℕ → HostEntry → Type 0
Onward pos (host name) = Unit
Onward pos (skip next) = pos < next

host_entry-Step :
    (bs : Bytes) (pos : ℕ) → pos + 3 < length bs → Step (Onward pos) (host_entry bs pos)
unfolding host_entry
host_entry-Step bs pos h =
    let (size, es) = word-lt bs (pos + 1) (omega arith) in
    let (kind, ek) = at-lt bs pos (omega arith) in
    rw es (rw ek (go (kind == 0) (decode_utf8 (take size (drop (pos + 3) bs))) size))
  where
    go :
        (b : Bool) (name : Option Text) (size : ℕ)
        → Step (Onward pos) (
            if b
            then (or_raise name parse_sni_error >>= λ name. ok (host name))
            else ok (skip (pos + 3 + size)))
    go true none size = stop
    go true (some name) size = step (host name) tt
    go false name size = step (skip (pos + 3 + size)) (omega arith)

go_host-Ends :
    {S : Type 0} (pos : ℕ) (r : Result HostEntry) (next : ℕ → Option (Result Text))
    → Step (Onward pos) r
    → ((next_pos : ℕ) → pos < next_pos → Ends S (next next_pos))
    → Ends S (go_host r next)
unfolding go_host
go_host-Ends pos r next (step (host name) p) h = (ok name, refl, parsed name)
go_host-Ends pos r next (step (skip next_pos) p) h = h next_pos p
go_host-Ends pos r next stop h = (err parse_sni_error, refl, refused)

-- Fuel that exceeds what is left of the data is enough.
host_loop-Ends :
    {S : Type 0} (n : ℕ) (bs : Bytes) (pos : ℕ) → length bs - pos < n → Ends S (host_loop n bs pos)
unfolding host_loop
host_loop-Ends zero bs pos h = absurd (omega arith)
host_loop-Ends (suc n) bs pos h = elim (Bool-cases (ltb (pos + 3) (length bs))) [
  | inl e ↦
      let inside : pos + 3 < length bs = ground arith in
      rw e (
        go_host-Ends pos (host_entry bs pos) (host_loop n bs) (host_entry-Step bs pos inside)
          (λ next p. host_loop-Ends n bs next (omega arith)))
  | inr e ↦ rw e (err parse_sni_error, refl, refused)
]

abbrev Beyond : ℕ → Extension → Type 0
Beyond pos server_name = Unit
Beyond pos (other next) = pos < next

extension-Step : (bs : Bytes) (pos : ℕ) → pos + 4 ≤ length bs → Step (Beyond pos) (extension bs pos)
unfolding extension
extension-Step bs pos h =
    let (hi, eh) = at-lt bs pos (omega arith) in
    let (lo, el) = at-lt bs (pos + 1) (omega arith) in
    let (size, es) = word-lt bs (pos + 2) (omega arith) in
    rw eh (rw el (rw es (go (hi == 0 && lo == 0) size)))
  where
    go :
        (b : Bool) (size : ℕ)
        → Step (Beyond pos) (if b then ok server_name else ok (other (pos + 4 + size)))
    go true size = step server_name tt
    go false size = step (other (pos + 4 + size)) (omega arith)

go_extension-Ends :
    {S : Type 0} (pos : ℕ) (r : Result Extension) (name : Option (Result Text))
    (next : ℕ → Option (Result Text))
    → Step (Beyond pos) r
    → Ends S name
    → ((next_pos : ℕ) → pos < next_pos → Ends S (next next_pos))
    → Ends S (go_extension r name next)
unfolding go_extension
go_extension-Ends pos r name next (step server_name p) hn h = hn
go_extension-Ends pos r name next (step (other next_pos) p) hn h = h next_pos p
go_extension-Ends pos r name next stop hn h = (err parse_sni_error, refl, refused)

extension_loop-Ends :
    {S : Type 0} (n : ℕ) (bs : Bytes) (pos : ℕ)
    → length bs - pos < n
    → Ends S (extension_loop n bs pos)
unfolding extension_loop parse_host_name
extension_loop-Ends zero bs pos h = absurd (omega arith)
extension_loop-Ends (suc n) bs pos h = elim (Bool-cases (leb (pos + 4) (length bs))) [
  | inl e ↦
      let inside = leb→le (pos + 4) (length bs) e in
      rw e (
        go_extension-Ends pos (extension bs pos) _ (extension_loop n bs)
          (extension-Step bs pos inside) (host_loop-Ends (fuel bs) bs (pos + 4 + 2) (omega arith))
          (λ next p. extension_loop-Ends n bs next (omega arith)))
  | inr e ↦ rw e (err parse_sni_error, refl, refused)
]

finish-Parsed : {S : Type 0} (m : Option (Result Text)) → Ends S m → Parsed S (finish m)
finish-Parsed m (r, e, p) = rw e p

if-Parsed :
    {S : Type 0} (b : Bool) (r s : Result Text)
    → Parsed S r
    → Parsed S s
    → Parsed S (if b then r else s)
if-Parsed true r s p q = p
if-Parsed false r s p q = q

bind-Parsed :
    {S : Type 0} {A : Type 0} (m : Result A) (f : A → Result Text)
    → Step (λ (a : A). Unit) m
    → ((a : A) → Parsed S (f a))
    → Parsed S (m >>= f)
bind-Parsed m f (step a p) h = h a
bind-Parsed m f stop h = refused

parse_extension-Parsed : {S : Type 0} (bs : Bytes) (pos : ℕ) → Parsed S (parse_extension bs pos)
unfolding parse_extension
parse_extension-Parsed bs pos = bind-Parsed _ _ (no_index-word bs pos) (λ size.
    if-Parsed (ltb (length bs) (pos + 2 + size)) _ _ refused
      (finish-Parsed _ (extension_loop-Ends (fuel bs) bs (pos + 2) (omega arith))))

parse_client_hello-Parsed : {S : Type 0} (bs : Bytes) → Parsed S (parse_client_hello bs)
unfolding parse_client_hello
parse_client_hello-Parsed bs = bind-Parsed _ _ (no_index-at bs _) (λ session.
    bind-Parsed _ _ (no_index-word bs _) (λ suites. bind-Parsed _ _ (no_index-at bs _) (λ methods.
      if-Parsed (ltb (length bs) (47 + session + suites + methods + 2)) _ _ refused
        (parse_extension-Parsed bs _))))

parse_handshake-Parsed : {S : Type 0} (bs : Bytes) → 5 < length bs → Parsed S (parse_handshake bs)
unfolding parse_handshake
parse_handshake-Parsed bs h =
    let (kind, e) = at-lt bs 5 h in
    rw e (if-Parsed (kind == 1) _ _ (parse_client_hello-Parsed bs) refused)

parse_record-Parsed :
    (bs : Bytes) (content_type version record_size : ℕ)
    → word bs 3 ≡ ok record_size
    → 5 < length bs
    → Parsed (IsShort bs) (parse_record bs content_type version record_size)
unfolding parse_record
parse_record-Parsed bs content_type version record_size e h =
    if-Parsed (not (content_type == 0x16)) _ _ refused (
      if-Parsed (ltb version 3) _ _ refused (elim (Bool-cases (ltb (length bs) (record_size + 5))) [
        | inl short ↦ rw short (incomplete (record_size, e, ground arith))
        | inr whole ↦ rw whole (parse_handshake-Parsed bs h)
      ]))

record_fields :
    (bs : Bytes)
    → 4 < length bs
    → (content_type version size : ℕ) × (word bs 3 ≡ ok size)
      × (parse_tls_sni bs ≡ parse_record bs content_type version size)
unfolding parse_tls_sni
record_fields bs h =
    let (content_type, e0) = at-lt bs 0 (omega arith) in
    let (version, e1) = at-lt bs 1 (omega arith) in
    let (size, e3) = word-lt bs 3 (omega arith) in
    (
      content_type,
      version,
      size,
      e3,
      rw (le→ltb_not (length bs) 5 (omega arith)) (rw e0 (rw e1 (rw e3 refl))),
    )

-- Except on exactly five bytes, `parse_tls_sni` returns a name or raises ParseSNIError, or raises
-- ParseSNIIncompleteError where the data ends before its record does: it raises nothing else, no
-- IndexError among it, and its loops end.
pub parse_tls_sni-Parsed : (bs : Bytes) → length bs ≢ 5 → Parsed (IsShort bs) (parse_tls_sni bs)
unfolding parse_tls_sni
parse_tls_sni-Parsed bs h = elim (Bool-cases (ltb (length bs) 5)) [
  | inl e ↦ rw e refused
  | inr e ↦
      let long : 5 < length bs = ground arith in
      let (content_type, version, size, e3, e) = record_fields bs (omega arith) in
      subst (Parsed (IsShort bs)) (sym e) (parse_record-Parsed bs content_type version size e3 long)
]

parse_handshake-five : (bs : Bytes) → length bs ≡ 5 → parse_handshake bs ≡ err index_error
unfolding parse_handshake at
parse_handshake-five bs h = rw (get_elem?-ge bs 5 (omega arith)) refl

-- The same on five bytes, with IndexError besides.
pub parse_tls_sni-five :
    (bs : Bytes)
    → length bs ≡ 5
    → Parsed Unit (parse_tls_sni bs) ⊎ (parse_tls_sni bs ≡ err index_error)
unfolding parse_record
parse_tls_sni-five bs h =
    let (content_type, version, size, e3, e) = record_fields bs (omega arith) in
    rw e (elim (Bool-cases (not (content_type == 0x16))) [
      | inl b ↦ rw b (inl refused)
      | inr b ↦ elim (Bool-cases (ltb version 3)) [
        | inl v ↦ rw b (rw v (inl refused))
        | inr v ↦ elim (Bool-cases (ltb (length bs) (size + 5))) [
          | inl short ↦ rw b (rw v (rw short (inl (incomplete tt))))
          | inr whole ↦ rw b (rw v (rw whole (inr (parse_handshake-five bs h))))
        ]
      ]
    ])

-- A record of handshake type that holds no byte raises IndexError, for every version from 3 on:
-- the type of the handshake is read without a check that there is one.
pub parse_tls_sni-empty_record :
    (major minor : ℕ) → parse_tls_sni (0x16 ∷ (3 + major) ∷ minor ∷ 0 ∷ 0 ∷ []) ≡ err index_error
unfolding parse_tls_sni parse_record parse_handshake word at
parse_tls_sni-empty_record major minor = rw (le→ltb_not (3 + major) 3 (omega arith)) refl
