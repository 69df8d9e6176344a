-- ===== src/RangedTimeout/Window.antt =====
-- When a `RangedTimeout` (snitun/utils/asyncio.py) calls back.
use snitun.Prelude.{
  ℕ, ◌+◌, ◌-◌, ◌≤◌, ◌<◌, ◌≡◌, refl, true, false, none, some, List, [], ◌∷◌, arith, ltb,
  if◌then◌else◌, Bool, le→ltb_not,
}
use snitun.RangedTimeout.{RangedTimeout, remaining, reschedule, new, reschedule_all, time_after}

-- A timer that is set within the window behind a time.
pub record IsWithin (min_timeout max_timeout now : ℕ) (t : RangedTimeout) : Type 0 where
  pub min : t.min_timeout ≡ min_timeout
  pub max : t.max_timeout ≡ max_timeout
  pub due :
      (when : ℕ) × (t.timer ≡ some when)
      × (t.when ≡ some when)
      × (now + min_timeout ≤ when)
      × (when ≤ now + max_timeout)

module _ (min_timeout max_timeout : ℕ) (ordered : min_timeout ≤ max_timeout) where
  moved-IsWithin :
      (now : ℕ) (t : RangedTimeout)
      → t.min_timeout ≡ min_timeout
      → t.max_timeout ≡ max_timeout
      → IsWithin min_timeout max_timeout now
          (record t { when = some (now + t.max_timeout); timer = some (now + t.max_timeout) })
  moved-IsWithin now t e f = record {
    min = e;
    max = f;
    due = (now + t.max_timeout, refl, refl, omega (arith, e, f), omega (arith, e, f));
  }

  reschedule-IsWithin :
      (now later : ℕ) (t : RangedTimeout)
      → IsWithin min_timeout max_timeout now t
      → IsWithin min_timeout max_timeout (now + later) (reschedule (now + later) t)
  unfolding reschedule remaining
  reschedule-IsWithin now later t w = go (ltb t.min_timeout (remaining t.when (now + later))) refl
    where
      go :
          (b : Bool)
          → ltb t.min_timeout (remaining t.when (now + later)) ≡ b
          → IsWithin min_timeout max_timeout (now + later) (
              if b then t else record t {
                when = some (now + later + t.max_timeout);
                timer = some (now + later + t.max_timeout);
              })
      go true e =
          let (when, set, known, low, high) = w.due in
          let left : t.min_timeout < when - (now + later) =
            (let e' = rw known at e in ground arith) in
          record {
            min = w.min;
            max = w.max;
            due = (when, set, known, omega (arith, w.min), omega arith);
          }
      go false e = moved-IsWithin (now + later) t w.min w.max

  all-IsWithin :
      (now : ℕ) (delays : List ℕ) (t : RangedTimeout)
      → IsWithin min_timeout max_timeout now t
      → IsWithin min_timeout max_timeout (time_after now delays) (reschedule_all now delays t)
  unfolding time_after reschedule_all
  all-IsWithin now [] t w = w
  all-IsWithin now (later ∷ delays) t w =
      all-IsWithin (now + later) delays _ (reschedule-IsWithin now later t w)

-- However often and at whatever times a timeout is rescheduled, its timer is set, and for a time between the
-- minimum and the maximum behind the last call. The minimum is at most the maximum.
pub reschedule_all-IsWithin :
    (min_timeout max_timeout now : ℕ) (delays : List ℕ)
    → min_timeout ≤ max_timeout
    → IsWithin min_timeout max_timeout
        (time_after now delays)
        (reschedule_all now delays (new min_timeout max_timeout now))
unfolding new reschedule remaining
reschedule_all-IsWithin min_timeout max_timeout now delays h =
    all-IsWithin min_timeout max_timeout h now delays _ (
      rw (le→ltb_not min_timeout 0 (omega arith)) (
        moved-IsWithin min_timeout max_timeout h now
          (record {
            min_timeout = min_timeout;
            max_timeout = max_timeout;
            when = none;
            timer = none;
          })
          refl refl))
