-- ===== src/ProxyProtocol/Stable.antt =====
-- What the header's parser (snitun/server/proxy_protocol.py) decides does not change with more data.
use snitun.Prelude.{
  ℕ, zero, suc, ◌+◌, ◌*◌, ◌/◌, ◌≤◌, ◌<◌, ◌≡◌, ◌≢◌, refl, ap, ◌∙◌, Bool, true, false, not, ◌&&◌,
  ◌||◌, Option, none, some, [], ◌∷◌, ◌++◌, arith, leb, ltb, ◌==◌, if◌then◌else◌, length, get_elem?,
  take, drop, Bool-cases, Option-cases, inl, inr, get_elem?-append, length-append, lt→ltb, le→leb,
  le→ltb_not, leb→le, get_elem?-lt, length-drop,
}
use snitun.Exceptions.{
  Result, ok, err, parse_proxy_protocol_error, parse_proxy_protocol_incomplete_error,
}
use snitun.Bytes.{Bytes, starts_with}
use snitun.ProxyProtocol.{
  v1_prefix, v2_signature, ProxyProtocolHeader, find_crlf, later_by_one, v1_line, parse_v1,
  v2_command, byte, v2_version, parse_v2, found, parse_proxy_protocol_header,
}

starts_with-more : (bs xs ps : Bytes) → starts_with bs ps ≡ true → starts_with (bs ++ xs) ps ≡ true
unfolding starts_with
starts_with-more [] [] [] h = refl
starts_with-more [] (x ∷ xs) [] h = refl
starts_with-more [] xs (p ∷ ps) h = cc
starts_with-more (b ∷ bs) xs [] h = refl
starts_with-more (b ∷ bs) xs (p ∷ ps) h = ground (arith, starts_with-more bs xs ps)

starts_with_not :
    (bs xs ps : Bytes)
    → starts_with bs ps ≡ false
    → starts_with ps bs ≡ false
    → starts_with (bs ++ xs) ps ≡ false
unfolding starts_with
starts_with_not [] xs [] h h' = cc
starts_with_not [] xs (p ∷ ps) h h' = cc
starts_with_not (b ∷ bs) xs [] h h' = cc
starts_with_not (b ∷ bs) xs (p ∷ ps) h h' = ground (arith, starts_with_not bs xs ps)

starts_with-shorter :
    (ps bs xs : Bytes) → starts_with ps bs ≡ false → starts_with ps (bs ++ xs) ≡ false
unfolding starts_with
starts_with-shorter [] [] xs h = cc
starts_with-shorter (p ∷ ps) [] xs h = cc
starts_with-shorter [] (b ∷ bs) xs h = refl
starts_with-shorter (p ∷ ps) (b ∷ bs) xs h = ground (arith, starts_with-shorter ps bs xs)

part_not :
    (bs xs : Bytes)
    → (starts_with v2_signature bs || starts_with v1_prefix bs) ≡ false
    → (starts_with v2_signature (bs ++ xs) || starts_with v1_prefix (bs ++ xs)) ≡ false
part_not bs xs h =
    rw
      (
        starts_with-shorter v2_signature bs xs (ground arith),
        starts_with-shorter v1_prefix bs xs (ground arith),
      )
      refl

v1-not_v2 : (bs : Bytes) → starts_with bs v1_prefix ≡ true → starts_with bs v2_signature ≡ false
unfolding starts_with
v1-not_v2 [] h = refl
v1-not_v2 (b ∷ bs) h = ground arith

pub find_crlf-lt : (bs : Bytes) (n : ℕ) → find_crlf bs ≡ some n → n + 2 ≤ length bs
unfolding find_crlf starts_with later_by_one
find_crlf-lt [] n h = cc
find_crlf-lt (x ∷ xs) n h =
    go (x == 13 && starts_with xs (10 ∷ [])) (find_crlf xs) refl (find_crlf-lt xs) h
  where
    one_more : (xs : Bytes) → starts_with xs (10 ∷ []) ≡ true → 1 ≤ length xs
    one_more [] e = cc
    one_more (y ∷ ys) e = omega arith

    go :
        (b : Bool) (m : Option ℕ)
        → (x == 13 && starts_with xs (10 ∷ [])) ≡ b
        → ((n : ℕ) → m ≡ some n → n + 2 ≤ length xs)
        → (if b then some 0 else later_by_one m) ≡ some n
        → n + 2 ≤ suc (length xs)
    go true m e f h =
        let zero_at : 0 ≡ n = cc in
        let crlf : starts_with xs (10 ∷ []) ≡ true = ground arith in omega (arith, one_more xs crlf)
    go false none e f h = cc
    go false (some k) e f h = let suc_at : suc k ≡ n = cc in omega (arith, f k refl)

starts_with_long :
    (bs xs : Bytes) → 0 < length bs → starts_with (bs ++ xs) (10 ∷ []) ≡ starts_with bs (10 ∷ [])
unfolding starts_with
starts_with_long [] xs h = elim h [ ]
starts_with_long (b ∷ []) [] h = refl
starts_with_long (b ∷ []) (x ∷ xs) h = refl
starts_with_long (b ∷ c ∷ bs) xs h = refl

find_crlf-some : (bs xs : Bytes) (n : ℕ) → find_crlf bs ≡ some n → find_crlf (bs ++ xs) ≡ some n
unfolding find_crlf starts_with later_by_one
find_crlf-some [] xs n h = cc
find_crlf-some (b ∷ bs) xs n h = elim (Bool-cases (b == 13 && starts_with bs (10 ∷ []))) [
  | inl e ↦ ground (arith, starts_with-more bs xs (10 ∷ []))
  | inr e ↦ elim (Option-cases (find_crlf bs)) [
    | inl e' ↦ absurd (ground arith)
    | inr (k, e') ↦
        let found = find_crlf-some bs xs k e' in
        let same : starts_with (bs ++ xs) (10 ∷ []) ≡ starts_with bs (10 ∷ []) =
          starts_with_long bs xs (omega (arith, find_crlf-lt bs k e')) in
        rw same (rw found (rw e' at h))
  ]
]

find_crlf-none :
    (bs xs : Bytes) (n : ℕ)
    → find_crlf bs ≡ none
    → find_crlf (bs ++ xs) ≡ some n
    → length bs ≤ n + 1
unfolding find_crlf starts_with later_by_one
find_crlf-none [] xs n h h' = omega arith
find_crlf-none (b ∷ []) xs n h h' = omega arith
find_crlf-none (b ∷ c ∷ bs) xs n h h' =
    go (b == 13 && starts_with (c ∷ bs) (10 ∷ [])) (find_crlf (c ∷ bs)) (find_crlf ((c ∷ bs) ++ xs))
      h h' (λ e k. find_crlf-none (c ∷ bs) xs k e)
  where
    go :
        (t : Bool) (m m' : Option ℕ)
        → (if t then some 0 else later_by_one m) ≡ none
        → (if t then some 0 else later_by_one m') ≡ some n
        → (m ≡ none → (k : ℕ) → m' ≡ some k → suc (length bs) ≤ k + 1)
        → suc (suc (length bs)) ≤ n + 1
    go true m m' h h' f = cc
    go false none none h h' f = cc
    go false none (some k) h h' f = let next : suc k ≡ n = cc in omega (arith, f refl k refl)
    go false (some j) m' h h' f = cc

take-append_le : (n : ℕ) (xs ys : Bytes) → n ≤ length xs → take n (xs ++ ys) ≡ take n xs
take-append_le zero xs ys h = refl
take-append_le (suc n) [] ys h = absurd (omega arith)
take-append_le (suc n) (x ∷ xs) ys h = ap (◌∷◌ x) (take-append_le n xs ys (omega arith))

drop-append_le : (n : ℕ) (xs ys : Bytes) → n ≤ length xs → drop n (xs ++ ys) ≡ drop n xs ++ ys
drop-append_le zero xs ys h = refl
drop-append_le (suc n) [] ys h = absurd (omega arith)
drop-append_le (suc n) (x ∷ xs) ys h = drop-append_le n xs ys (omega arith)

module _ (bs xs : Bytes) (long : 108 ≤ length bs) where
  v1_line_long :
      (m : Option ℕ)
      → ((n : ℕ) → m ≡ some n → length bs ≤ n + 1)
      → v1_line (bs ++ xs) m ≡ err parse_proxy_protocol_error
  unfolding v1_line
  v1_line_long none f =
      rw (le→leb 108 (length (bs ++ xs)) (omega (arith, length-append bs xs))) refl
  v1_line_long (some n) f = rw (lt→ltb 108 (n + 2) (omega (arith, f n refl))) refl

parse_v1-append :
    (bs xs : Bytes)
    → parse_v1 bs ≢ err parse_proxy_protocol_incomplete_error
    → parse_v1 (bs ++ xs) ≡ parse_v1 bs
unfolding parse_v1 v1_line
parse_v1-append bs xs h = elim (Option-cases (find_crlf bs)) [
  | inl e ↦ elim (Bool-cases (leb 108 (length bs))) [
    | inl long ↦
        rw (e, long)
          (v1_line_long bs xs (leb→le 108 (length bs) long) (find_crlf (bs ++ xs))
            (λ n. find_crlf-none bs xs n e))
    | inr short ↦ absurd (h (rw e (rw short refl)))
  ]
  | inr (n, e) ↦
      let inside = find_crlf-lt bs n e in
      rw (find_crlf-some bs xs n e) (rw e (rw (take-append_le n bs xs (omega arith)) refl))
]

pub byte-some : (bs : Bytes) (i b : ℕ) → get_elem? bs i ≡ some b → byte bs i ≡ ok b
unfolding byte
byte-some bs i b e = rw e refl

byte-append :
    (bs xs : Bytes) (i b : ℕ) → i < length bs → get_elem? bs i ≡ some b → byte (bs ++ xs) i ≡ ok b
unfolding byte
byte-append bs xs i b l e = rw (get_elem?-append bs xs i l ∙ e) refl

-- The checks of `v2_version`, on the bytes that it reads.
abbrev pub sized : Bytes → ℕ → ℕ → ℕ → Result ProxyProtocolHeader
sized bs version_command family_protocol address_len =
    if not (version_command / 16 * 16 == 0x20)
    then err parse_proxy_protocol_error
    else if ltb (length bs) (16 + address_len)
    then err parse_proxy_protocol_incomplete_error
    else v2_command bs version_command family_protocol address_len

sized-append :
    (bs xs : Bytes) (v f n : ℕ)
    → 16 ≤ length bs
    → sized bs v f n ≢ err parse_proxy_protocol_incomplete_error
    → sized (bs ++ xs) v f n ≡ sized bs v f n
unfolding v2_command
sized-append bs xs v f n l h = elim (Bool-cases (not (v / 16 * 16 == 0x20))) [
  | inl e ↦ rw e refl
  | inr e ↦ elim (Bool-cases (ltb (length bs) (16 + n))) [
    | inl short ↦ absurd (h (rw e (rw short refl)))
    | inr long ↦
        let inside : 16 + n ≤ length bs = ground arith in
        let block : take n (drop 16 (bs ++ xs)) ≡ take n (drop 16 bs) =
          ap (take n) (drop-append_le 16 bs xs l)
          ∙ take-append_le n (drop 16 bs) xs (omega (arith, length-drop 16 bs)) in
        rw e (
          rw (long, le→ltb_not (length (bs ++ xs)) (16 + n) (omega (arith, length-append bs xs)))
            (rw block refl))
  ]
]

v2_version-append :
    (bs xs : Bytes)
    → 16 ≤ length bs
    → v2_version bs ≢ err parse_proxy_protocol_incomplete_error
    → v2_version (bs ++ xs) ≡ v2_version bs
unfolding v2_version
v2_version-append bs xs l h =
    let (b12, e12) = get_elem?-lt bs 12 (omega arith) in
    let (b13, e13) = get_elem?-lt bs 13 (omega arith) in
    let (b14, e14) = get_elem?-lt bs 14 (omega arith) in
    let (b15, e15) = get_elem?-lt bs 15 (omega arith) in
    rw
      (
        byte-append bs xs 12 b12 (omega arith) e12,
        byte-append bs xs 13 b13 (omega arith) e13,
        byte-append bs xs 14 b14 (omega arith) e14,
        byte-append bs xs 15 b15 (omega arith) e15,
      )
      (rw
        (
          byte-some bs 12 b12 e12,
          byte-some bs 13 b13 e13,
          byte-some bs 14 b14 e14,
          byte-some bs 15 b15 e15,
        )
        (sized-append bs xs b12 b13 (b14 * 256 + b15) l (λ u. h (
          rw
            (
              byte-some bs 12 b12 e12,
              byte-some bs 13 b13 e13,
              byte-some bs 14 b14 e14,
              byte-some bs 15 b15 e15,
            )
            u))))

parse_v2-append :
    (bs xs : Bytes)
    → parse_v2 bs ≢ err parse_proxy_protocol_incomplete_error
    → parse_v2 (bs ++ xs) ≡ parse_v2 bs
unfolding parse_v2
parse_v2-append bs xs h = elim (Bool-cases (ltb (length bs) 16)) [
  | inl e ↦ absurd (h (rw e refl))
  | inr e ↦
      let long : 16 ≤ length bs = ground arith in
      rw (le→ltb_not (length (bs ++ xs)) 16 (omega (arith, length-append bs xs)))
        (rw e (v2_version-append bs xs long (λ u. h (rw e u))))
]

-- Once the parser does not ask for more data, what it says is the same whatever data follows.
pub parse_proxy_protocol_header-append :
    (bs xs : Bytes)
    → parse_proxy_protocol_header bs ≢ err parse_proxy_protocol_incomplete_error
    → parse_proxy_protocol_header (bs ++ xs) ≡ parse_proxy_protocol_header bs
unfolding parse_proxy_protocol_header
parse_proxy_protocol_header-append bs xs h = elim (Bool-cases (starts_with bs v2_signature)) [
  | inl e ↦
      rw (starts_with-more bs xs v2_signature e)
        (rw e (ap found (parse_v2-append bs xs (λ u. h (rw e (ap found u))))))
  | inr e ↦ elim (Bool-cases (starts_with bs v1_prefix)) [
    | inl e1 ↦
        let not_v2 = v1-not_v2 (bs ++ xs) (starts_with-more bs xs v1_prefix e1) in
        rw not_v2 (
          rw (starts_with-more bs xs v1_prefix e1)
            (rw e (rw e1 (ap found (parse_v1-append bs xs (λ u. h (rw e (rw e1 (ap found u)))))))))
    | inr e1 ↦ elim (Bool-cases (starts_with v2_signature bs || starts_with v1_prefix bs)) [
      | inl part ↦ absurd (h (rw (e, e1) (rw part refl)))
      | inr part ↦
          let not_v2 = starts_with_not bs xs v2_signature e (ground arith) in
          let not_v1 = starts_with_not bs xs v1_prefix e1 (ground arith) in
          rw (not_v2, not_v1) (rw (e, e1) (rw (part, part_not bs xs part) refl))
    ]
  ]
]
