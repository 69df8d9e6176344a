-- ===== src/Bytes/BigEndian.antt =====
-- `int.to_bytes(n, "big")` and `int.from_bytes(b, "big")`, at every width.
use snitun.Prelude.{
  ℕ, zero, suc, ◌+◌, ◌*◌, ◌/◌, ◌%◌, ◌^◌, ◌<◌, ◌≡◌, refl, ap, sym, ◌∙◌, List, [], ◌∷◌, ◌++◌, arith,
  length, length-append, All,
}
use native.Mathlib.Nat.{pow-suc}

abbrev pub IsByte : ℕ → Type 0
IsByte b = b < 256

abbrev pub Bytes : Type 0
Bytes = List ℕ

abbrev pub IsBytes : Bytes → Type 0
IsBytes = All IsByte

-- `n.to_bytes(k, "big")` of a number that fits.
unfoldable pub to_bytes : ℕ → ℕ → Bytes
to_bytes zero n = []
to_bytes (suc k) n = to_bytes k (n / 256) ++ n % 256 ∷ []

from_bytes_acc : ℕ → Bytes → ℕ
from_bytes_acc acc [] = acc
from_bytes_acc acc (b ∷ bs) = from_bytes_acc (acc * 256 + b) bs

unfoldable pub from_bytes : Bytes → ℕ
unfolding from_bytes_acc
from_bytes bs = from_bytes_acc 0 bs

from_bytes_acc-append :
    (acc : ℕ) (bs : Bytes) (b : ℕ)
    → from_bytes_acc acc (bs ++ b ∷ []) ≡ from_bytes_acc acc bs * 256 + b
unfolding from_bytes_acc
from_bytes_acc-append acc [] b = refl
from_bytes_acc-append acc (c ∷ bs) b = from_bytes_acc-append (acc * 256 + c) bs b

pub from_bytes-append : (bs : Bytes) (b : ℕ) → from_bytes (bs ++ b ∷ []) ≡ from_bytes bs * 256 + b
unfolding from_bytes
from_bytes-append bs b = from_bytes_acc-append 0 bs b

pub length-to_bytes : (k n : ℕ) → length (to_bytes k n) ≡ k
unfolding to_bytes
length-to_bytes zero n = refl
length-to_bytes (suc k) n =
    omega (arith, length-to_bytes k (n / 256), length-append (to_bytes k (n / 256)) (n % 256 ∷ []))

All-snoc : (bs : Bytes) (b : ℕ) → IsBytes bs → b < 256 → IsBytes (bs ++ b ∷ [])
All-snoc [] b h l = (l, tt)
All-snoc (c ∷ bs) b h l = (h.0, All-snoc bs b h.1 l)

pub to_bytes-IsBytes : (k n : ℕ) → IsBytes (to_bytes k n)
unfolding to_bytes
to_bytes-IsBytes zero n = tt
to_bytes-IsBytes (suc k) n =
    All-snoc (to_bytes k (n / 256)) (n % 256) (to_bytes-IsBytes k (n / 256)) (omega arith)

div_bound : (k n : ℕ) → n < 256 ^ suc k → n / 256 < 256 ^ k
div_bound k n h = omega (arith, pow-suc 256 k)

-- A number that fits comes back from its digits.
pub from_bytes-to_bytes : (k n : ℕ) → n < 256 ^ k → from_bytes (to_bytes k n) ≡ n
unfolding to_bytes from_bytes
from_bytes-to_bytes zero n h = omega arith
from_bytes-to_bytes (suc k) n h = omega (
  arith,
  from_bytes_acc-append 0 (to_bytes k (n / 256)) (n % 256),
  from_bytes-to_bytes k (n / 256) (div_bound k n h),
)

pub to_bytes-injective :
    (k m n : ℕ) → m < 256 ^ k → n < 256 ^ k → to_bytes k m ≡ to_bytes k n → m ≡ n
to_bytes-injective k m n hm hn e =
    sym (from_bytes-to_bytes k m hm) ∙ ap from_bytes e ∙ from_bytes-to_bytes k n hn

-- The list as its front and its last entry.
data Snoc : Bytes → Type 0 where
  nil : Snoc []
  last : (bs : Bytes) (b : ℕ) → Snoc (bs ++ b ∷ [])

snoc : (bs : Bytes) → Snoc bs
snoc [] = nil
snoc (b ∷ bs) = push b (snoc bs)
  where
    push : (b : ℕ) {cs : Bytes} → Snoc cs → Snoc (b ∷ cs)
    push b nil = last [] b
    push b (last cs c) = last (b ∷ cs) c

All-front : (bs : Bytes) (b : ℕ) → IsBytes (bs ++ b ∷ []) → IsBytes bs × (b < 256)
All-front [] b h = (tt, h.0)
All-front (c ∷ bs) b h = ((h.0, (All-front bs b h.1).0), (All-front bs b h.1).1)

pub to_bytes-from_bytes :
    (k : ℕ) (bs : Bytes) → length bs ≡ k → IsBytes bs → to_bytes k (from_bytes bs) ≡ bs
unfolding to_bytes
to_bytes-from_bytes zero [] l h = refl
to_bytes-from_bytes zero (b ∷ bs) l h = absurd (omega arith)
to_bytes-from_bytes (suc k) bs l h = go bs (snoc bs) l h (λ cs. to_bytes-from_bytes k cs)
  where
    go :
        (bs : Bytes)
        → Snoc bs
        → length bs ≡ suc k
        → IsBytes bs
        → ((cs : Bytes) → length cs ≡ k → IsBytes cs → to_bytes k (from_bytes cs) ≡ cs)
        → to_bytes k (from_bytes bs / 256) ++ from_bytes bs % 256 ∷ [] ≡ bs
    go bs nil l h ih = absurd (omega arith)
    go bs (last cs c) l h ih =
        let f = All-front cs c h in
        let e : from_bytes (cs ++ c ∷ []) / 256 ≡ from_bytes cs =
          omega (arith, from_bytes-append cs c, f.1) in
        let m : from_bytes (cs ++ c ∷ []) % 256 ≡ c = omega (arith, from_bytes-append cs c, f.1) in
        rw (e, m)
          (ap (λ (t : Bytes). t ++ c ∷ []) (ih cs (omega (arith, length-append cs (c ∷ []))) f.0))

pub from_bytes-lt : (k : ℕ) (bs : Bytes) → length bs ≡ k → IsBytes bs → from_bytes bs < 256 ^ k
from_bytes-lt zero [] l h = unfold from_bytes from_bytes_acc in (omega arith)
from_bytes-lt zero (b ∷ bs) l h = absurd (omega arith)
from_bytes-lt (suc k) bs l h = go bs (snoc bs) l h (λ cs. from_bytes-lt k cs)
  where
    go :
        (bs : Bytes)
        → Snoc bs
        → length bs ≡ suc k
        → IsBytes bs
        → ((cs : Bytes) → length cs ≡ k → IsBytes cs → from_bytes cs < 256 ^ k)
        → from_bytes bs < 256 ^ suc k
    go bs nil l h ih = absurd (omega arith)
    go bs (last cs c) l h ih =
        let f = All-front cs c h in
        omega (
          arith,
          from_bytes-append cs c,
          f.1,
          pow-suc 256 k,
          ih cs (omega (arith, length-append cs (c ∷ []))) f.0,
        )

pub ruleset bytes_laws = (length-to_bytes, from_bytes-to_bytes, to_bytes-from_bytes)
