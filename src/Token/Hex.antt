-- ===== src/Token/Hex.antt =====
-- `bytes.fromhex` reads back what `bytes.hex` writes (the keys in a token of snitun/utils/server.py).
use snitun.Prelude.{ℕ, ◌+◌, ◌*◌, ◌/◌, ◌%◌, ◌<◌, ◌≡◌, refl, false, some, [], ◌∷◌, arith, All}
use snitun.Bytes.{Bytes}
use snitun.Exceptions.{ok}
use snitun.Token.{hex_digit, hex, digit_value, is_space, from_hex, byte_of}

digit_value-hex_digit : (n : ℕ) → n < 16 → digit_value (hex_digit n) ≡ some n
unfolding digit_value
digit_value-hex_digit n h = ground arith

is_space-hex_digit : (n : ℕ) → n < 16 → is_space (hex_digit n) ≡ false
unfolding is_space
is_space-hex_digit n h = ground arith

pub from_hex-hex : (bs : Bytes) → All (λ b. b < 256) bs → from_hex (hex bs) ≡ ok bs
unfolding from_hex hex byte_of
from_hex-hex [] h = refl
from_hex-hex (b ∷ bs) h =
    let high : b / 16 < 16 = omega (arith, h.0) in
    let low : b % 16 < 16 = omega arith in
    let whole : b / 16 * 16 + b % 16 ≡ b = omega arith in
    rw (
      is_space-hex_digit (b / 16) high,
      digit_value-hex_digit (b / 16) high,
      digit_value-hex_digit (b % 16) low,
      from_hex-hex bs h.1,
      whole,
    )
