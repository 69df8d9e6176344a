-- ===== src/IpAddress/Parse.antt =====
-- `ipaddress.ip_address(text)` of Python's standard library, on ASCII text.
use snitun.Prelude.{
  ℕ, ◌+◌, ◌-◌, ◌*◌, Bool, true, false, not, ◌&&◌, ◌||◌, Option, none, some, List, [], ◌∷◌, ◌++◌,
  leb, ltb, ◌==◌, if◌then◌else◌, length, replicate, ◌/◌, ◌%◌,
}
use snitun.Bytes.{Bytes}
use snitun.IpAddress.{IpAddress, v4, v6}

infixl 5 ◌>>=◌
abbrev ◌>>=◌ : {A B : Type 0} → Option A → (A → Option B) → Option B
none >>= f = none
some a >>= f = f a

cons_field : Bool → ℕ → List Bytes → List Bytes
cons_field true x fields = [] ∷ fields
cons_field false x [] = (x ∷ []) ∷ []
cons_field false x (field ∷ fields) = (x ∷ field) ∷ fields

-- `text.split(separator)`, for one character.
unfoldable pub split : ℕ → Bytes → List Bytes
unfolding cons_field
split separator [] = [] ∷ []
split separator (x ∷ xs) = cons_field (x == separator) x (split separator xs)

all : (ℕ → Bool) → Bytes → Bool
all f [] = true
all f (x ∷ xs) = f x && all f xs

-- `value`, for every element or for none.
traverse : {A B : Type 0} → (A → Option B) → List A → Option (List B)
traverse f [] = some []
traverse f (x ∷ xs) = do y ← f x; ys ← traverse f xs; some (y ∷ ys)

is_digit : ℕ → Bool
is_digit c = leb 48 c && leb c 57

-- The value of a hexadecimal digit.
hex_digit : ℕ → Option ℕ
unfolding is_digit
hex_digit c =
    if is_digit c
    then some (c - 48)
    else if leb 65 c && leb c 70
    then some (c - 55)
    else if leb 97 c && leb c 102
    then some (c - 87)
    else none

-- The value of digits to a base, from the most significant one on.
from_digits : ℕ → ℕ → List ℕ → ℕ
from_digits base n [] = n
from_digits base n (d ∷ ds) = from_digits base (n * base + d) ds

leading_zero : Bytes → Bool
leading_zero (c ∷ _ ∷ _) = c == 48
leading_zero _ = false

-- Decimal, without leading zeros, of three digits at most and below 256.
parse_octet : Bytes → Option ℕ
unfolding is_digit leading_zero all
parse_octet octet =
    let n = from_digits 10 0 (digits octet) in
    if ltb 0 (length octet)
      && all is_digit octet
      && leb (length octet) 3
      && not (leading_zero octet)
      && leb n 255
    then some n
    else none
  where
    digits : Bytes → List ℕ
    digits [] = []
    digits (c ∷ cs) = (c - 48) ∷ digits cs

-- The integer of a dotted quad.
parse_v4 : Bytes → Option ℕ
parse_v4 text = do
  octets ← traverse parse_octet (split 46 text)
  if length octets == 4 then some (from_digits 256 0 octets) else none

parse_hextet : Bytes → Option ℕ
parse_hextet text =
    let digits = (do ds ← traverse hex_digit text; some (from_digits 16 0 ds)) in
    if ltb 0 (length text) && leb (length text) 4 then digits else none

-- A part between colons, as text or as the number that it stands for.
pub data Part : Type 0 where
  text : Bytes → Part
  number : ℕ → Part

part_value : Part → Option ℕ
part_value (text t) = parse_hextet t
part_value (number n) = some n

is_gap : Part → Bool
is_gap (text []) = true
is_gap _ = false

last : {A : Type 0} → A → List A → A
last x [] = x
last _ (x ∷ xs) = last x xs

but_last : {A : Type 0} → List A → List A
but_last [] = []
but_last (_ ∷ []) = []
but_last (x ∷ xs) = x ∷ but_last xs

member : ℕ → Bytes → Bool
member c [] = false
member c (x ∷ xs) = x == c || member c xs

texts : List Bytes → List Part
texts [] = []
texts (t ∷ ts) = text t ∷ texts ts

-- A dotted quad at the end stands for two parts.
expand : List Bytes → Option (List Part)
unfolding last but_last member texts
expand parts =
    let quad = last [] parts in
    let mixed = (do
      n ← parse_v4 quad
      some (texts (but_last parts) ++ (number (n / 65536) ∷ number (n % 65536) ∷ []))) in
    if member 46 quad then mixed else some (texts parts)

-- The parts before the first gap, and those behind it.
gap : List Part → Option (List Part × List Part)
unfolding is_gap
gap [] = none
gap (part ∷ parts) =
    let rest = (do (high, low) ← gap parts; some (part ∷ high, low)) in
    if is_gap part then some ([], parts) else rest

-- One side of the gap: the outermost part may be empty where it is the only one.
side : Part → List Part → List Part → Option (List ℕ)
unfolding is_gap part_value
side outer [] parts = if is_gap outer then some [] else traverse part_value parts
side outer (_ ∷ _) parts = if is_gap outer then none else traverse part_value parts

-- The words around the gap, which is one word wide at least.
around : Part → Part → List Part × List Part → Option (List ℕ)
unfolding gap is_gap side
around first final (high, low) = second (gap low)
  where
    fill : List ℕ → List ℕ → Option (List ℕ)
    fill hi lo =
        if leb (length hi + length lo) 7
        then some (hi ++ (replicate (8 - (length hi + length lo)) 0 ++ lo))
        else none

    second : Option (List Part × List Part) → Option (List ℕ)
    second (some _) = none
    second none = do
      hi ← side first high (first ∷ high)
      lo ← side final low (low ++ (final ∷ []))
      fill hi lo

-- The eight words of the parts.
words : List Part → Option (List ℕ)
unfolding gap is_gap part_value last but_last around
words [] = none
words (first ∷ rest) = go (gap (but_last rest))
  where
    final : Part
    final = last first rest

    go : Option (List Part × List Part) → Option (List ℕ)
    go (some sides) = around first final sides
    go none =
        if length rest == 7 && not (is_gap first) && not (is_gap final)
        then traverse part_value (first ∷ rest)
        else none

-- What stands before the scope, where the scope is neither empty nor holds another sign.
without_scope : List Bytes → Option Bytes
without_scope (address ∷ []) = some address
without_scope (address ∷ (_ ∷ _) ∷ []) = some address
without_scope _ = none

-- The integer of an IPv6 address, its scope dropped.
parse_v6 : Bytes → Option ℕ
unfolding words
parse_v6 string = do
  address ← (if member 47 string then none else without_scope (split 37 string))
  parts ← (if leb 3 (length (split 58 address)) then expand (split 58 address) else none)
  ws ← (if leb (length parts) 9 then words parts else none)
  some (from_digits 65536 0 ws)

either : Option ℕ → Option ℕ → Option IpAddress
either (some n) _ = some (v4 n)
either none (some n) = some (v6 n)
either none none = none

-- `ipaddress.ip_address(data.decode("ascii"))`: none for either error.
unfoldable pub ip_address : Bytes → Option IpAddress
unfolding either parse_v4 parse_v6 parse_octet parse_hextet words expand around side gap is_gap
    part_value last but_last texts member all is_digit hex_digit traverse from_digits without_scope
    leading_zero split cons_field
ip_address string =
    if all (λ c. ltb c 128) string then either (parse_v4 string) (parse_v6 string) else none
