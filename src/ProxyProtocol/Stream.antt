-- ===== src/ProxyProtocol/Stream.antt =====
-- The loop that reads the header (snitun/server/proxy_protocol.py), for every way in which the data arrives.
use snitun.Prelude.{
  join, ℕ, zero, suc, ◌-◌, ◌≤◌, ◌<◌, ◌≡◌, ◌≢◌, refl, sym, ap, ◌∙◌, subst, Option, none, some, List,
  [], ◌∷◌, ◌++◌, arith, leb, length, take, drop, All, Bool-cases, inl, inr, append_assoc,
  append-nil, length-append, length-drop, take-append-drop, leb→le, length-take, ◌⊎◌,
}
use snitun.Exceptions.{
  Result, ok, err, parse_proxy_protocol_error, parse_proxy_protocol_incomplete_error,
}
use snitun.Bytes.{Bytes}
use snitun.ProxyProtocol.{
  ProxyProtocolHeader, parse_proxy_protocol_header, round_of, read, Answer, read_loop,
  read_proxy_protocol_header,
}
use snitun.ProxyProtocol.Stable.{parse_proxy_protocol_header-append}
use snitun.ProxyProtocol.Verdict.{
  Verdict, absent, present, malformed, unfinished, parse_proxy_protocol_header-Verdict,
}

-- A chunk that is empty says that the peer is done.
abbrev pub IsChunk : Bytes → Type 0
IsChunk chunk = 0 < length chunk

abbrev pub size_of : Option ProxyProtocolHeader → ℕ
size_of none = 0
size_of (some h) = h.size

-- What the loop gives, by what the parser says of the data's first 1500 bytes.
abbrev pub Outcome : Bytes → Result (Option ProxyProtocolHeader) → Option Answer → Type 0
Outcome sent (ok h) answer =
    (left : Bytes) × (rest : List Bytes) × (answer ≡ some (ok (h, left, rest)))
    × (left ++ join rest ≡ drop (size_of h) sent)
Outcome sent (err e) answer = answer ≡ some (err parse_proxy_protocol_error)

take-front :
    (n : ℕ) (xs ys : Bytes) → length xs ≤ n → take n (xs ++ ys) ≡ xs ++ take (n - length xs) ys
take-front n [] ys h = ap (λ k. take k ys) (omega arith)
take-front zero (x ∷ xs) ys h = absurd (omega arith)
take-front (suc n) (x ∷ xs) ys h =
    let e : suc n - suc (length xs) ≡ n - length xs = omega arith in
    ap (◌∷◌ x) (take-front n xs ys (omega arith) ∙ rw e refl)

take-short : (n : ℕ) (xs : Bytes) → length xs ≤ n → take n xs ≡ xs
take-short zero [] h = refl
take-short zero (x ∷ xs) h = absurd (omega arith)
take-short (suc n) [] h = refl
take-short (suc n) (x ∷ xs) h = ap (◌∷◌ x) (take-short n xs (omega arith))

pub drop-front : (n : ℕ) (xs ys : Bytes) → n ≤ length xs → drop n xs ++ ys ≡ drop n (xs ++ ys)
drop-front zero xs ys h = refl
drop-front (suc n) [] ys h = absurd (omega arith)
drop-front (suc n) (x ∷ xs) ys h = drop-front n xs ys (omega arith)

-- A read gives bytes and leaves the rest, in order, or says that there are none.
pub data Read (n : ℕ) (chunks : List Bytes) : Bytes × List Bytes → Type 0 where
  end : chunks ≡ [] → Read n chunks ([], [])
  some_bytes :
      (b : ℕ) (bs : Bytes) (rest : List Bytes)
      → length (b ∷ bs) ≤ n
      → (b ∷ bs) ++ join rest ≡ join chunks
      → All IsChunk rest
      → Read n chunks (b ∷ bs, rest)

pub read-Read :
    (n : ℕ) (chunks : List Bytes) → 0 < n → All IsChunk chunks → Read n chunks (read n chunks)
unfolding read
read-Read n [] l cs = end refl
read-Read n ([] ∷ chunks) l cs = absurd (omega (arith, cs.0))
read-Read zero ((b ∷ bs) ∷ chunks) l cs = absurd (omega arith)
read-Read (suc m) ((b ∷ bs) ∷ chunks) l cs = elim (Bool-cases (leb (length (b ∷ bs)) (suc m))) [
  | inl e ↦ rw e (some_bytes b bs chunks (leb→le (length (b ∷ bs)) (suc m) e) refl cs.1)
  | inr e ↦
      let long : suc m < length (b ∷ bs) = ground arith in
      rw e (
        some_bytes b (take m bs) (drop m bs ∷ chunks) (omega (arith, length-take m bs))
          (ap (◌∷◌ b) (
            sym (append_assoc (take m bs) (drop m bs) (join chunks))
            ∙ ap (λ bs. bs ++ join chunks) (take-append-drop m bs)))
          (omega (arith, length-drop m bs), cs.1))
]

pub Read-cases :
    (n : ℕ) (chunks : List Bytes) (p : Bytes × List Bytes)
    → Read n chunks p
    → ((chunks ≡ []) × (p ≡ ([], [])))
      ⊎ ((b : ℕ) × (bs : Bytes) × (rest : List Bytes) × (p ≡ (b ∷ bs, rest))
          × (length (b ∷ bs) ≤ n)
          × ((b ∷ bs) ++ join rest ≡ join chunks)
          × All IsChunk rest)
Read-cases n chunks p (end e) = inl (e, refl)
Read-cases n chunks p (some_bytes b bs rest l e cs) = inr (b, bs, rest, refl, l, e, cs)

-- More data does not change what the parser says of the buffer, other than that it is unfinished.
parse-front :
    (buffer rest : Bytes) (r : Result (Option ProxyProtocolHeader))
    → length buffer ≤ 1500
    → parse_proxy_protocol_header buffer ≡ r
    → r ≢ err parse_proxy_protocol_incomplete_error
    → parse_proxy_protocol_header (take 1500 (buffer ++ rest)) ≡ r
parse-front buffer rest r l e n =
    ap parse_proxy_protocol_header (take-front 1500 buffer rest l)
    ∙ parse_proxy_protocol_header-append buffer (take (1500 - length buffer) rest)
        (λ u. n (sym e ∙ u))
    ∙ e

parse-full :
    (buffer rest : Bytes)
    → length buffer ≤ 1500
    → (1500 ≤ length buffer) ⊎ (rest ≡ [])
    → take 1500 (buffer ++ rest) ≡ buffer
parse-full buffer rest l (inl full) =
    let none_left : 1500 - length buffer ≡ 0 = omega arith in
    take-front 1500 buffer rest l ∙ rw none_left (append-nil buffer)
parse-full buffer rest l (inr none_left) =
    rw none_left (rw (append-nil buffer) (take-short 1500 buffer l))

module _ (k : ℕ) (buffer : Bytes) (chunks : List Bytes) (l : length buffer ≤ 1500)
    (cs : All IsChunk chunks) where
  -- What is to be shown of the next round.
  abbrev Next : Type 0
  Next =
      (chunk : Bytes) (rest : List Bytes)
      → chunk ++ join rest ≡ join chunks
      → 0 < length chunk
      → length chunk ≤ 1500 - length buffer
      → All IsChunk rest
      → Outcome (buffer ++ join chunks)
          (parse_proxy_protocol_header (take 1500 (buffer ++ join chunks)))
          (read_loop k (buffer ++ chunk) rest)

  read_loop-unfinished :
      parse_proxy_protocol_header buffer ≡ err parse_proxy_protocol_incomplete_error
      → Next
      → Outcome
          (buffer ++ join chunks)
          (parse_proxy_protocol_header (take 1500 (buffer ++ join chunks)))
          (read_loop (suc k) buffer chunks)
  unfolding read_loop round_of
  read_loop-unfinished e next = elim (Bool-cases (leb 1500 (length buffer))) [
    | inl full ↦
        rw (parse-full buffer (join chunks) l (inl (leb→le 1500 (length buffer) full)))
          (rw e (rw full refl))
    | inr room ↦
        elim (Read-cases (1500 - length buffer) chunks _
          (read-Read (1500 - length buffer) chunks (ground arith) cs)) [
            | inl (none_left, nothing) ↦
                rw (parse-full buffer (join chunks) l (inr (ap join none_left)))
                  (rw e (rw room (rw nothing refl)))
            | inr (b, bs, rest, something, fits, same, cs') ↦
                rw e (rw room (rw something (next (b ∷ bs) rest same (omega arith) fits cs')))
          ]
  ]

  read_loop-round :
      (r : Result (Option ProxyProtocolHeader))
      → Verdict buffer r
      → parse_proxy_protocol_header buffer ≡ r
      → Next
      → Outcome
          (buffer ++ join chunks)
          (parse_proxy_protocol_header (take 1500 (buffer ++ join chunks)))
          (read_loop (suc k) buffer chunks)
  unfolding read_loop round_of
  read_loop-round r absent e next =
      rw (parse-front buffer (join chunks) r l e (λ u. cc)) (rw e (buffer, chunks, refl, refl))
  read_loop-round r (present h s) e next =
      rw (parse-front buffer (join chunks) r l e (λ u. cc))
        (rw e (drop h.size buffer, chunks, refl, drop-front h.size buffer (join chunks) s))
  read_loop-round r malformed e next =
      rw (parse-front buffer (join chunks) r l e (λ u. cc)) (rw e refl)
  read_loop-round r unfinished e next = read_loop-unfinished e next

read_loop-Outcome :
    (k : ℕ) (buffer : Bytes) (chunks : List Bytes)
    → length buffer ≤ 1500
    → All IsChunk chunks
    → 1500 - length buffer < k
    → Outcome
        (buffer ++ join chunks)
        (parse_proxy_protocol_header (take 1500 (buffer ++ join chunks)))
        (read_loop k buffer chunks)
read_loop-Outcome zero buffer chunks l cs f = absurd (omega arith)
read_loop-Outcome (suc k) buffer chunks l cs f =
    read_loop-round k buffer chunks l cs _ (parse_proxy_protocol_header-Verdict buffer) refl
      (λ chunk rest same some_read fits cs'.
        let grown : (buffer ++ chunk) ++ join rest ≡ buffer ++ join chunks =
          append_assoc buffer chunk (join rest) ∙ ap (◌++◌ buffer) same in
        let bound = length-append buffer chunk in
        subst
          (λ sent.
            Outcome sent (parse_proxy_protocol_header (take 1500 sent))
              (read_loop k (buffer ++ chunk) rest))
          grown (read_loop-Outcome k (buffer ++ chunk) rest (omega arith) cs' (omega arith)))

-- Whatever the chunks in which the data arrives, none of them empty, the loop ends. It gives the header that the parser
-- finds in the first 1500 bytes, and what it leaves in the buffer and on the stream is the data
-- behind that header, all of it; where the parser refuses these bytes, or they are not enough,
-- ParseProxyProtocolError is raised.
pub read_proxy_protocol_header-Outcome :
    (chunks : List Bytes)
    → All IsChunk chunks
    → Outcome
        (join chunks)
        (parse_proxy_protocol_header (take 1500 (join chunks)))
        (read_proxy_protocol_header chunks)
unfolding read_proxy_protocol_header
read_proxy_protocol_header-Outcome chunks cs =
    read_loop-Outcome 1501 [] chunks (omega arith) cs (omega arith)
