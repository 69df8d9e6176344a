-- ===== src/Bytes/Utf8.antt =====
-- `bytes.decode("utf-8")`, strict: the code points of a text, or nothing for an invalid encoding.
use snitun.Prelude.{
  ℕ, ◌+◌, ◌-◌, ◌*◌, ◌<◌, ◌≡◌, refl, ap, Bool, ◌&&◌, Option, none, some, List, [], ◌∷◌, leb, ltb,
  ◌==◌, if◌then◌else◌, All, lt→ltb,
}

-- The code points of a `str`.
abbrev pub Text : Type 0
Text = List ℕ

abbrev between : ℕ → ℕ → ℕ → Bool
between lo hi b = leb lo b && leb b hi

abbrev is_continuation : ℕ → Bool
is_continuation b = between 0x80 0xbf b

-- The second byte of a sequence of three or four: no overlong form, no surrogate, none too large.
second_of_three : ℕ → ℕ → Bool
second_of_three a b =
    if a == 0xe0
    then between 0xa0 0xbf b
    else if a == 0xed
    then between 0x80 0x9f b
    else between 0xe1 0xef a && is_continuation b

second_of_four : ℕ → ℕ → Bool
second_of_four a b =
    if a == 0xf0
    then between 0x90 0xbf b
    else if a == 0xf4
    then between 0x80 0x8f b
    else between 0xf1 0xf3 a && is_continuation b

push : ℕ → Option Text → Option Text
push point none = none
push point (some text) = some (point ∷ text)

two : ℕ → ℕ → ℕ
two a b = (a - 0xc0) * 64 + (b - 0x80)

three : ℕ → ℕ → ℕ → ℕ
three a b c = (a - 0xe0) * 4096 + (b - 0x80) * 64 + (c - 0x80)

four : ℕ → ℕ → ℕ → ℕ → ℕ
four a b c d = (a - 0xf0) * 262144 + (b - 0x80) * 4096 + (c - 0x80) * 64 + (d - 0x80)

unfoldable pub decode_utf8 : List ℕ → Option Text
unfolding push second_of_three second_of_four two three four
decode_utf8 [] = some []
decode_utf8 (a ∷ []) = if ltb a 0x80 then some (a ∷ []) else none
decode_utf8 (a ∷ b ∷ []) =
    let after_one = push a (decode_utf8 (b ∷ [])) in
    if ltb a 0x80
    then after_one
    else if between 0xc2 0xdf a && is_continuation b
    then some (two a b ∷ [])
    else none
decode_utf8 (a ∷ b ∷ c ∷ []) =
    let after_one = push a (decode_utf8 (b ∷ c ∷ [])) in
    let after_two = push (two a b) (decode_utf8 (c ∷ [])) in
    if ltb a 0x80
    then after_one
    else if between 0xc2 0xdf a && is_continuation b
    then after_two
    else if second_of_three a b && is_continuation c
    then some (three a b c ∷ [])
    else none
decode_utf8 (a ∷ b ∷ c ∷ d ∷ rest) =
    let after_one = push a (decode_utf8 (b ∷ c ∷ d ∷ rest)) in
    let after_two = push (two a b) (decode_utf8 (c ∷ d ∷ rest)) in
    let after_three = push (three a b c) (decode_utf8 (d ∷ rest)) in
    let after_four = push (four a b c d) (decode_utf8 rest) in
    if ltb a 0x80
    then after_one
    else if between 0xc2 0xdf a && is_continuation b
    then after_two
    else if second_of_three a b && is_continuation c
    then after_three
    else if second_of_four a b && is_continuation c && is_continuation d
    then after_four
    else none

-- ASCII text is its own encoding.
pub decode_utf8-ascii : (bs : List ℕ) → All (λ b. b < 0x80) bs → decode_utf8 bs ≡ some bs
unfolding decode_utf8
decode_utf8-ascii [] h = refl
decode_utf8-ascii (a ∷ []) h = rw (lt→ltb a 0x80 h.0)
decode_utf8-ascii (a ∷ b ∷ []) h =
    rw (lt→ltb a 0x80 h.0) (ap (push a) (decode_utf8-ascii (b ∷ []) h.1))
decode_utf8-ascii (a ∷ b ∷ c ∷ []) h =
    rw (lt→ltb a 0x80 h.0) (ap (push a) (decode_utf8-ascii (b ∷ c ∷ []) h.1))
decode_utf8-ascii (a ∷ b ∷ c ∷ d ∷ rest) h =
    rw (lt→ltb a 0x80 h.0) (ap (push a) (decode_utf8-ascii (b ∷ c ∷ d ∷ rest) h.1))
