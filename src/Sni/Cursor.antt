-- ===== src/Sni/Cursor.antt =====
-- A position in data (snitun/server/sni.py), as what stands from there on.
use snitun.Prelude.{
  ℕ, ◌+◌, ◌/◌, ◌%◌, ◌≡◌, refl, sym, ap, ◌∙◌, [], ◌∷◌, ◌++◌, arith, length, get_elem?, take, drop,
  length-append, get_elem?-append_right, append_assoc, take-append_length, drop-append_length, some,
  subst,
}
use snitun.Exceptions.{ok}
use snitun.Bytes.{Bytes}
use snitun.Sni.{at, word}

-- `rest` is what `bs` holds from `pos` on.
abbrev pub At : Bytes → ℕ → Bytes → Type 0
At bs pos rest = (before : Bytes) × (length before ≡ pos) × (before ++ rest ≡ bs)

pub At-moved :
    (bs : Bytes) (pos pos' : ℕ) (rest : Bytes) → At bs pos rest → pos ≡ pos' → At bs pos' rest
At-moved bs pos pos' rest (before, n, e) h = (before, n ∙ h, e)

pub At-skip :
    (bs : Bytes) (pos : ℕ) (xs ys : Bytes) → At bs pos (xs ++ ys) → At bs (pos + length xs) ys
At-skip bs pos xs ys (before, n, e) =
    (before ++ xs, omega (arith, length-append before xs), append_assoc before xs ys ∙ e)

pub At-length :
    (bs : Bytes) (pos : ℕ) (rest : Bytes) → At bs pos rest → length bs ≡ pos + length rest
At-length bs pos rest (before, n, e) = sym (ap length e) ∙ omega (arith, length-append before rest)

get-At :
    (bs : Bytes) (pos i : ℕ) (rest : Bytes)
    → At bs pos rest
    → get_elem? bs (pos + i) ≡ get_elem? rest i
get-At bs pos i rest (before, n, e) =
    subst (λ bs. get_elem? bs (pos + i) ≡ get_elem? rest i) e
      (subst (λ pos. get_elem? (before ++ rest) (pos + i) ≡ get_elem? rest i) n
        (get_elem?-append_right before rest i))

pub at-At :
    (bs : Bytes) (pos i b : ℕ) (rest : Bytes)
    → At bs pos rest
    → get_elem? rest i ≡ some b
    → at bs (pos + i) ≡ ok b
unfolding at
at-At bs pos i b rest h e = rw (get-At bs pos i rest h ∙ e) refl

-- A number on two bytes.
abbrev pub word_bytes : ℕ → Bytes
word_bytes n = n / 256 ∷ n % 256 ∷ []

pub word-At :
    (bs : Bytes) (pos i n : ℕ) (rest : Bytes)
    → At bs pos rest
    → get_elem? rest i ≡ some (n / 256)
    → get_elem? rest (i + 1) ≡ some (n % 256)
    → word bs (pos + i) ≡ ok n
unfolding word
word-At bs pos i n rest h hi lo =
    let next : pos + i + 1 ≡ pos + (i + 1) = omega arith in
    rw (at-At bs pos i _ rest h hi)
      (rw next (rw (at-At bs pos (i + 1) _ rest h lo) (ap ok (omega arith))))

pub take-At :
    (bs : Bytes) (pos n : ℕ) (xs ys : Bytes)
    → At bs pos (xs ++ ys)
    → length xs ≡ n
    → take n (drop pos bs) ≡ xs
take-At bs pos n xs ys (before, m, e) h =
    subst (λ bs. take n (drop pos bs) ≡ xs) e
      (rw (drop-append_length pos before (xs ++ ys) m) (take-append_length n xs ys h))
