-- ===== src/Sni/Reader.antt =====
-- What `payload_reader` (snitun/server/sni.py) gives, for the chunks that the peer sends.
use snitun.Prelude.{
  join, ℕ, zero, suc, ◌+◌, ◌*◌, ◌≤◌, ◌<◌, ◌≡◌, refl, sym, ap, ◌∙◌, subst, Bool, true, false, Option,
  some, none, List, [], ◌∷◌, ◌++◌, arith, leb, ◌==◌, if◌then◌else◌, length, append_assoc,
  append-nil, Bool-cases, inl, inr, leb→le, get_elem?-append, length-append,
}
use snitun.Exceptions.{Result, ok, err, >>=-eq-ok}
use snitun.Bytes.{Bytes, Text, IsBytes, IsByte}
use snitun.Sni.{
  at, word, max_buffer_size, read_until, left_over, six, complete, is_client_hello, read_record,
  read_checked, payload_reader, parse_tls_sni,
}
use snitun.Sni.Total.{parsed, refused, incomplete, Parsed, parse_tls_sni-Parsed, at-lt, word-lt}

-- Everything that was read, and everything that is left, is the initial data and the chunks in their order.
abbrev Split : Bytes → List Bytes → Bytes → List Bytes → Type 0
Split bs chunks given rest =
    (read : List Bytes) × (bs ++ join read ≡ given) × (join read ++ join rest ≡ join chunks)

-- What a loop of reads gives: enough data, and no byte of what the peer sent is lost.
abbrev Reads : (Bytes → Bool) → Bytes → List Bytes → Option Bytes → List Bytes → Type 0
Reads enough bs chunks none rest = Unit
Reads enough bs chunks (some given) rest = (enough given ≡ true) × Split bs chunks given rest

Reads-cons :
    (enough : Bytes → Bool) (bs chunk : Bytes) (chunks : List Bytes) (m : Option Bytes)
    (rest : List Bytes)
    → Reads enough (bs ++ chunk) chunks m rest
    → Reads enough bs (chunk ∷ chunks) m rest
Reads-cons enough bs chunk chunks none rest h = tt
Reads-cons enough bs chunk chunks (some given) rest (e, (read, whole, kept)) = (
  e,
  (
    chunk ∷ read,
    sym (append_assoc bs chunk (join read)) ∙ whole,
    append_assoc chunk (join read) (join rest) ∙ ap (◌++◌ chunk) kept,
  ),
)

Reads-if :
    (enough : Bytes → Bool) (bs : Bytes) (chunks : List Bytes) (b : Bool) (m : Option Bytes)
    (rest : List Bytes)
    → Reads enough bs chunks m rest
    → Reads enough bs chunks (if b then m else none) rest
Reads-if enough bs chunks true m rest h = h
Reads-if enough bs chunks false m rest h = tt

read_until-Reads :
    (enough : Bytes → Bool) (bs : Bytes) (chunks : List Bytes)
    → Reads enough bs chunks (read_until enough bs chunks) (left_over enough bs chunks)
unfolding read_until left_over
read_until-Reads enough bs [] = elim (Bool-cases (enough bs)) [
  | inl e ↦ rw e (e, ([], append-nil bs, refl))
  | inr e ↦ rw e tt
]
read_until-Reads enough bs (chunk ∷ chunks) = elim (Bool-cases (enough bs)) [
  | inl e ↦ rw e (e, ([], append-nil bs, refl))
  | inr e ↦ rw e (
      Reads-if enough bs (chunk ∷ chunks) _ _ _
        (Reads-cons enough bs chunk chunks _ _ (read_until-Reads enough (bs ++ chunk) chunks)))
]

-- What the reader hands over: whole, from the start, and fit for the parser.
pub record Payload (initial : Bytes) (chunks : List Bytes) (given : Bytes) : Type 0 where
  pub size : 6 ≤ length given
  pub start : (rest : Bytes) × (given ++ rest ≡ initial ++ join chunks)
  pub hello : is_client_hello given ≡ ok true
  pub fit : Parsed ⊥ (parse_tls_sni given)

at-append : (bs xs : Bytes) (i : ℕ) → i < length bs → at (bs ++ xs) i ≡ at bs i
unfolding at
at-append bs xs i h = rw (get_elem?-append bs xs i h) refl

word-append : (bs xs : Bytes) (i : ℕ) → i + 1 < length bs → word (bs ++ xs) i ≡ word bs i
unfolding word
word-append bs xs i h = rw (at-append bs xs i (omega arith), at-append bs xs (i + 1) h) refl

is_client_hello-append :
    (bs xs : Bytes) → 5 < length bs → is_client_hello (bs ++ xs) ≡ is_client_hello bs
unfolding is_client_hello
is_client_hello-append bs xs h = rw (at-append bs xs 0 (omega arith), at-append bs xs 5 h) refl

is_client_hello-total : (bs : Bytes) → 6 ≤ length bs → (b : Bool) × (is_client_hello bs ≡ ok b)
unfolding is_client_hello
is_client_hello-total bs h =
    let (content_type, e0) = at-lt bs 0 (omega arith) in
    let (handshake_type, e5) = at-lt bs 5 (omega arith) in
    elim (Bool-cases (content_type == 0x16)) [
      | inl e ↦ (handshake_type == 1, rw (e0, e5) (rw e refl))
      | inr e ↦ (false, rw (e0, e5) (rw e refl))
    ]

byte-at : (bs : Bytes) (i b : ℕ) → IsBytes bs → at bs i ≡ ok b → b < 256
unfolding at
byte-at [] i b h e = cc
byte-at (x ∷ xs) zero b h e = let same : x ≡ b = cc in subst IsByte same h.0
byte-at (x ∷ xs) (suc i) b h e = byte-at xs i b h.1 e

word-at : (bs : Bytes) (i n : ℕ) → IsBytes bs → word bs i ≡ ok n → n < 256 * 256
unfolding word
word-at bs i n h e =
    let (hi, eh, e') = >>=-eq-ok (at bs i) _ e in
    let (lo, el, e'') = >>=-eq-ok (at bs (i + 1)) _ e' in
    let sum : hi * 256 + lo ≡ n = cc in
    let high = byte-at bs i hi h eh in let low = byte-at bs (i + 1) lo h el in omega arith

All-before : (xs ys : Bytes) → IsBytes (xs ++ ys) → IsBytes xs
All-before [] ys h = tt
All-before (x ∷ xs) ys h = (h.0, All-before xs ys h.1)

Parsed-map : {S T : Type 0} (r : Result Text) → (S → T) → Parsed S r → Parsed T r
Parsed-map r f (parsed name) = parsed name
Parsed-map r f refused = refused
Parsed-map r f (incomplete s) = incomplete (f s)

complete-long :
    (size : ℕ) (bs : Bytes) → complete size bs ≡ true → size ≤ max_buffer_size → size ≤ length bs
complete-long size bs h l = elim (Bool-cases (leb size (length bs))) [
  | inl e ↦ leb→le size (length bs) e
  | inr e ↦ ground arith
]

-- What the reader gives: nothing, or a payload.
abbrev pub Given : Bytes → List Bytes → Result (Option Bytes) → Type 0
Given initial chunks (err e) = ⊥
Given initial chunks (ok none) = Unit
Given initial chunks (ok (some given)) = Payload initial chunks given

module _ (initial : Bytes) (chunks : List Bytes) (bytes : IsBytes (initial ++ join chunks)) where
  later-Payload :
      (bs : Bytes) (rest : List Bytes) (given : Bytes) (last : List Bytes) (size : ℕ)
      → 6 ≤ length bs
      → Split initial chunks bs rest
      → is_client_hello bs ≡ ok true
      → word bs 3 ≡ ok size
      → Reads (complete (size + 5)) bs rest (some given) last
      → Payload initial chunks given
  later-Payload bs rest given last size long (read, whole, kept) hello sized
        (enough, (read', whole', kept')) =
      let later : bs ++ join read' ≡ given = whole' in
      let all : given ++ join last ≡ initial ++ join chunks =
        ap (λ given. given ++ join last) (sym later)
        ∙ append_assoc bs (join read') (join last)
        ∙ ap (◌++◌ bs) kept'
        ∙ ap (λ bs. bs ++ join rest) (sym whole)
        ∙ append_assoc initial (join read) (join rest)
        ∙ ap (◌++◌ initial) kept in
      let grown : length given ≡ length bs + length (join read') =
        sym (ap length later) ∙ length-append bs (join read') in
      let sized' : word given 3 ≡ ok size =
        sym (ap (λ given. word given 3) later)
        ∙ word-append bs (join read') 3 (omega arith)
        ∙ sized in
      let limit =
        word-at given 3 size (All-before given (join last) (subst IsBytes (sym all) bytes))
          sized' in
      let fits = complete-long (size + 5) given enough (omega arith) in
      record {
        size = omega arith;
        start = (join last, all);
        hello =
            sym (ap is_client_hello later)
            ∙ is_client_hello-append bs (join read') (omega arith)
            ∙ hello;
        fit =
            Parsed-map _ (λ (n, e, l). let same : n ≡ size = cc in absurd (omega arith))
              (parse_tls_sni-Parsed given (omega arith));
      }

  read_record-Given :
      (bs : Bytes) (rest : List Bytes)
      → 6 ≤ length bs
      → Split initial chunks bs rest
      → Given initial chunks (read_record bs rest)
  unfolding read_record
  read_record-Given bs rest long split =
      let (fits, hello) = is_client_hello-total bs long in
      let (size, sized) = word-lt bs 3 (omega arith) in
      rw hello
        (rw sized (go fits hello size sized _ _ (read_until-Reads (complete (size + 5)) bs rest)))
    where
      go :
          (fits : Bool)
          → is_client_hello bs ≡ ok fits
          → (size : ℕ) → word bs 3 ≡ ok size
          → (m : Option Bytes) (last : List Bytes) → Reads (complete (size + 5)) bs rest m last
          → Given initial chunks (if fits then ok m else ok none)
      go false hello size sized m last h = tt
      go true hello size sized none last h = tt
      go true hello size sized (some given) last h =
          later-Payload bs rest given last size long split hello sized h

  -- Whatever the chunks in which the peer sends its bytes, `payload_reader` raises nothing of its own,
  -- and what it hands over is an initial part of all those bytes, with the first six of a ClientHello
  -- at least, on which `parse_tls_sni` raises neither IndexError nor ParseSNIIncompleteError.
  pub payload_reader-Given : Given initial chunks (payload_reader initial chunks)
  unfolding payload_reader read_checked
  payload_reader-Given =
      go (read_until six initial chunks) (left_over six initial chunks)
        (read_until-Reads six initial chunks)
    where
      go :
          (m : Option Bytes) (rest : List Bytes)
          → Reads six initial chunks m rest
          → Given initial chunks (read_checked m rest)
      go none rest h = tt
      go (some bs) rest (enough, split) =
          read_record-Given bs rest (leb→le 6 (length bs) enough) split
