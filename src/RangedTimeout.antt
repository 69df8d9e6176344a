-- ===== src/RangedTimeout.antt =====
-- `RangedTimeout` of snitun/utils/asyncio.py: a timer that is moved seldom. The loop's clock counts in whole units.
pub mod Window
use snitun.Prelude.{ℕ, ◌+◌, ◌-◌, Option, none, some, List, [], ◌∷◌, ltb, if◌then◌else◌}

-- `timer` is when the loop calls back, where a timer is set.
pub record RangedTimeout : Type 0 where
  pub min_timeout : ℕ
  pub max_timeout : ℕ
  pub when : Option ℕ
  pub timer : Option ℕ

-- `self._when - now if self._when else 0`; a time that has passed counts as none left.
unfoldable pub remaining : Option ℕ → ℕ → ℕ
remaining none now = 0
remaining (some when) now = when - now

abbrev pub cancel : RangedTimeout → RangedTimeout
cancel t = record t { timer = none }

unfoldable pub reschedule : ℕ → RangedTimeout → RangedTimeout
reschedule now t =
    if ltb t.min_timeout (remaining t.when now)
    then t
    else record (cancel t) { when = some (now + t.max_timeout); timer = some (now + t.max_timeout) }

-- `__init__`
unfoldable pub new : ℕ → ℕ → ℕ → RangedTimeout
new min_timeout max_timeout now =
    reschedule now
      (record { min_timeout = min_timeout; max_timeout = max_timeout; when = none; timer = none })

-- The calls of `reschedule`, each some time after the one before, from the clock's time on.
unfoldable pub reschedule_all : ℕ → List ℕ → RangedTimeout → RangedTimeout
reschedule_all now [] t = t
reschedule_all now (later ∷ delays) t =
    reschedule_all (now + later) delays (reschedule (now + later) t)

-- The clock after these calls.
unfoldable pub time_after : ℕ → List ℕ → ℕ
time_after now [] = now
time_after now (later ∷ delays) = time_after (now + later) delays
