-- ===== src/Crypto/Nonces.antt =====
-- The nonces of the two AES-GCM endpoints of a session.
use snitun.Prelude.{
  add-one, dec_lt, ℕ, zero, suc, ◌+◌, ◌≤◌, ◌<◌, ◌≡◌, Bool, ◌++◌, arith, if◌then◌else◌, length,
  le→ltb_not, lt→ltb,
}
use snitun.Bytes.{Bytes, to_bytes, length-to_bytes}
use snitun.Exceptions.{◌>>=◌, Result, ok, err, transport_error}
use snitun.Crypto.{next_nonce, direction_prefix, gcm_max_counter, gcm_prefix_size, gcm_counter_size}

-- The nonce of unit `n` (from 0) of an endpoint, and the counter behind it.
nonce_after : Bool → ℕ → Result (Bytes × ℕ)
nonce_after initiator zero = next_nonce (direction_prefix initiator) 0
nonce_after initiator (suc n) = do
  (nonce, counter) ← nonce_after initiator n
  next_nonce (direction_prefix initiator) counter

unfoldable pub unit_nonce : Bool → ℕ → Result Bytes
unfolding nonce_after
unit_nonce initiator n = do (nonce, counter) ← nonce_after initiator n; ok nonce

pub next_nonce-eq :
    (prefix : Bytes) (n : ℕ)
    → n ≤ gcm_max_counter
    → next_nonce prefix n ≡ ok (prefix ++ to_bytes gcm_counter_size n, n + 1)
unfolding next_nonce
next_nonce-eq prefix n h = rw (le→ltb_not gcm_max_counter n h)

next_nonce_exhausted :
    (prefix : Bytes) (n : ℕ) → gcm_max_counter < n → next_nonce prefix n ≡ err transport_error
unfolding next_nonce
next_nonce_exhausted prefix n h = rw (lt→ltb gcm_max_counter n h)

nonce_after-eq :
    (i : Bool) (n : ℕ)
    → n ≤ gcm_max_counter
    → nonce_after i n ≡ ok (direction_prefix i ++ to_bytes gcm_counter_size n, n + 1)
unfolding nonce_after
nonce_after-eq i zero h = next_nonce-eq (direction_prefix i) 0 h
nonce_after-eq i (suc n) h =
    rw (nonce_after-eq i n (omega arith), add-one n) (next_nonce-eq (direction_prefix i) (suc n) h)

nonce_after_exhausted :
    (i : Bool) (n : ℕ) → gcm_max_counter < n → nonce_after i n ≡ err transport_error
unfolding nonce_after
nonce_after_exhausted i zero h = absurd (omega arith)
nonce_after_exhausted i (suc n) h = elim (dec_lt gcm_max_counter n) [
  | yes more ↦ rw (nonce_after_exhausted i n more)
  | no last ↦
      rw (nonce_after-eq i n (omega arith))
        (next_nonce_exhausted (direction_prefix i) (n + 1) (omega arith))
]

-- Unit `n` gets the prefix and its number as a nonce, exactly up to the last counter; after that
-- every call raises.
pub unit_nonce_total :
    (i : Bool) (n : ℕ)
    → (n ≤ gcm_max_counter
        → unit_nonce i n ≡ ok (direction_prefix i ++ to_bytes gcm_counter_size n))
      × (gcm_max_counter < n → unit_nonce i n ≡ err transport_error)
unfolding unit_nonce
unit_nonce_total i n = (λ h. rw (nonce_after-eq i n h), λ h. rw (nonce_after_exhausted i n h))

pub length-direction_prefix : (i : Bool) → length (direction_prefix i) ≡ gcm_prefix_size
unfolding direction_prefix to_bytes
length-direction_prefix i = length-to_bytes gcm_prefix_size (if i then 0 else 1)
