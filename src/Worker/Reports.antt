-- ===== src/Worker/Reports.antt =====
-- snitun/server/worker.py: the gauges that a worker reports.
use snitun.Prelude.{
  ℕ, ◌+◌, ◌≡◌, refl, Option, none, some, List, [], ◌∷◌, length, nat_eq, arith, inl, inr, Bool-cases,
  if◌then◌else◌, ◌==◌,
}

-- A gauge, with its value and its tag, if it has one.
pub record Gauge : Type 0 where
  pub value : ℕ
  pub protocol_version : Option ℕ

-- `protocol_version_counts`, a dict in the order of insertion.
abbrev pub Counts : Type 0
Counts = List (ℕ × ℕ)

abbrev pub no_peers : Counts
no_peers = (0, 0) ∷ (1, 0) ∷ []

-- A version that is not a key is entered first.
unfoldable pub count : ℕ → Counts → Counts
count version [] = (version, 1) ∷ []
count version ((key, n) ∷ counts) =
    if key == version then (key, n + 1) ∷ counts else (key, n) ∷ count version counts

unfoldable pub count_all : List ℕ → Counts → Counts
unfolding count
count_all [] counts = counts
count_all (version ∷ versions) counts = count_all versions (count version counts)

abbrev pub sum : Counts → ℕ
sum [] = 0
sum ((key, n) ∷ counts) = n + sum counts

abbrev gauges : Counts → List Gauge
gauges [] = []
gauges ((key, n) ∷ counts) = record { value = n; protocol_version = some key } ∷ gauges counts

-- `_collect_and_report_metrics`, given the versions of the peers of `iter_peers`, if there is a manager.
unfoldable pub collect_and_report_metrics : Option (List ℕ) → List Gauge
unfolding count_all
collect_and_report_metrics none = record { value = 0; protocol_version = none } ∷ []
collect_and_report_metrics (some versions) =
    let counts = count_all versions no_peers in
    record { value = sum counts; protocol_version = none } ∷ gauges counts

sum-count : (version : ℕ) (counts : Counts) → sum (count version counts) ≡ sum counts + 1
unfolding count
sum-count version [] = refl
sum-count version ((key, n) ∷ counts) = elim (Bool-cases (key == version)) [
  | inl e ↦ rw e (omega arith)
  | inr e ↦ rw e (let h = sum-count version counts in omega arith)
]

-- The values with a tag add up to the one without, which is the number of peers.
sum-count_all :
    (versions : List ℕ) (counts : Counts)
    → sum (count_all versions counts) ≡ sum counts + length versions
unfolding count_all
sum-count_all [] counts = omega arith
sum-count_all (version ∷ versions) counts =
    let h = sum-count_all versions (count version counts) in
    let h' = sum-count version counts in omega arith
