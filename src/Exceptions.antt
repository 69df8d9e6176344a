-- ===== src/Exceptions.antt =====
-- snitun/exceptions.py, with the exceptions of Python and asyncio that the code raises or catches.
-- A call that may raise returns a `Result`.
use snitun.Prelude.{Bool, true, false, Option, none, some, ◌≡◌, refl}

pub data Exception : Type 0 where
  challenge_error invalid_peer parse_sni_error parse_sni_incomplete_error : Exception
  parse_proxy_protocol_error parse_proxy_protocol_incomplete_error : Exception
  transport_error transport_close transport_decrypt connection_error : Exception
  runtime_error queue_full queue_empty incomplete_read os_error timeout_error : Exception
  struct_error index_error key_error value_error assertion_error attribute_error : Exception
  cancelled_error system_exit keyboard_interrupt : Exception

pub data Result {ℓ} (X : Type ℓ) : Type ℓ where
  ok : (value : X) → Result X
  err : (raised : Exception) → Result X

infixl 5 ◌>>=◌
-- What follows a call, where the call did not raise.
abbrev pub ◌>>=◌ {ℓ κ} : {X : Type ℓ} {Y : Type κ} → Result X → (X → Result Y) → Result Y
err raised >>= next = err raised
ok value >>= next = next value

-- `except Missing: raise e`, for a value that may be missing.
abbrev pub or_raise {ℓ} : {A : Type ℓ} → Option A → Exception → Result A
or_raise none e = err e
or_raise (some a) e = ok a

-- `except ParseSNIError`: the incomplete error is a subclass.
unfoldable pub catches_parse_sni : Exception → Bool
catches_parse_sni parse_sni_error = true
catches_parse_sni parse_sni_incomplete_error = true
catches_parse_sni _ = false

-- `except ParseProxyProtocolError`: the incomplete error is a subclass.
unfoldable pub catches_parse_proxy : Exception → Bool
catches_parse_proxy parse_proxy_protocol_error = true
catches_parse_proxy parse_proxy_protocol_incomplete_error = true
catches_parse_proxy _ = false

-- `except (asyncio.CancelledError, SystemExit, KeyboardInterrupt)`: not one of them is an `Exception`.
unfoldable pub catches_control : Exception → Bool
catches_control cancelled_error = true
catches_control system_exit = true
catches_control keyboard_interrupt = true
catches_control _ = false

module _ {ℓ κ} {X : Type ℓ} {Y : Type κ} {y : Y} where
  pub >>=-eq-ok :
      (r : Result X) (next : X → Result Y)
      → (r >>= next) ≡ ok y
      → (x : X) × (r ≡ ok x) × (next x ≡ ok y)
  >>=-eq-ok (err raised) next h = cc
  >>=-eq-ok (ok x) next h = (x, refl, h)
