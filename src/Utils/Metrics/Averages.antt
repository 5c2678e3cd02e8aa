-- ===== src/Utils/Metrics/Averages.antt =====
-- What is reported for a number of calls of `perf` of src/common/main/utils/logger.cpp.
use st_dns.Base.{
  ℕ, suc, ◌+◌, ◌*◌, ◌/◌, ◌%◌, ◌^◌, ◌≤◌, ◌<◌, ◌≡◌, refl, ◌∙◌, List, [], ◌∷◌, false, none, some,
  length, ◌==◌, All, arith,
}
use st_dns.Base.Text.{codes}
use st_dns.Base.Assoc.{lookup, assign}
use st_dns.Utils.Metrics.{Metric, Metrics, accumulate_metric, accumulate, perf, averages, report}

unfoldable pub total : List ℕ → ℕ
total [] = 0
total (cost ∷ costs) = cost + total costs

-- A call of `perf` for each cost, in order, as `perf(name, dimensions, cost)` makes it.
unfoldable pub perf_all : List ℕ → Metrics → Metrics
perf_all [] metrics = metrics
perf_all (cost ∷ costs) metrics = perf_all costs (perf cost 1 1 metrics)

unfoldable gathered : List ℕ → Metric → Metric
gathered [] m = m
gathered (cost ∷ costs) m = gathered costs (accumulate_metric (some m) cost 1)

unfoldable counted : List ℕ → Metric → Metric
counted [] m = m
counted (cost ∷ costs) m = counted costs (accumulate_metric (some m) 1 1)

perf_all-pair :
    (costs : List ℕ) (m m' : Metric)
    → perf_all costs ((codes "count", m) ∷ (codes "cost", m') ∷ [])
      ≡ (codes "count", counted costs m) ∷ (codes "cost", gathered costs m') ∷ []
unfolding perf_all gathered counted perf accumulate lookup assign
perf_all-pair [] m m' = refl
perf_all-pair (cost ∷ costs) m m' =
    perf_all-pair costs (accumulate_metric (some m) 1 1) (accumulate_metric (some m') cost 1)

sum-gathered :
    (costs : List ℕ) (m : Metric)
    → m.sum + total costs < 2 ^ 64
    → (gathered costs m).sum ≡ m.sum + total costs
unfolding gathered total accumulate_metric
sum-gathered [] m h = omega arith
sum-gathered (cost ∷ costs) m h =
    let next : (m.sum + cost * 1 % 2 ^ 64) % 2 ^ 64 ≡ m.sum + cost = omega (arith, h) in
    sum-gathered costs (accumulate_metric (some m) cost 1) (omega (arith, h, next))
    ∙ omega (arith, next)

sum-counted :
    (costs : List ℕ) (m : Metric)
    → m.sum + length costs < 2 ^ 64
    → (counted costs m).sum ≡ m.sum + length costs
unfolding counted accumulate_metric
sum-counted [] m h = omega arith
sum-counted (cost ∷ costs) m h =
    let next : (m.sum + 1 * 1 % 2 ^ 64) % 2 ^ 64 ≡ m.sum + 1 = omega (arith, h) in
    sum-counted costs (accumulate_metric (some m) 1 1) (omega (arith, h, next))
    ∙ omega (arith, next)

-- The bounds only widen, and hold each cost.
gathered_bounds :
    (costs : List ℕ) (m : Metric)
    → ((gathered costs m).min_value ≤ m.min_value)
      × (m.max_value ≤ (gathered costs m).max_value)
      × All
          (λ (cost : ℕ).
            ((gathered costs m).min_value ≤ cost) × (cost ≤ (gathered costs m).max_value))
          costs
unfolding gathered accumulate_metric
gathered_bounds [] m = (omega arith, omega arith, tt)
gathered_bounds (cost ∷ costs) m =
    let (low, high, all) = gathered_bounds costs (accumulate_metric (some m) cost 1) in
    (omega (arith, low), omega (arith, high), ((omega (arith, low), omega (arith, high)), all))

sum-first :
    (cost : ℕ) (costs : List ℕ)
    → total (cost ∷ costs) < 2 ^ 64
    → (gathered costs (accumulate_metric none cost 1)).sum ≡ total (cost ∷ costs)
unfolding accumulate_metric total
sum-first cost costs h =
    let next : (0 + cost * 1 % 2 ^ 64) % 2 ^ 64 ≡ cost = omega (arith, h) in
    sum-gathered costs (accumulate_metric none cost 1) (omega (arith, h, next))
    ∙ omega (arith, next)

count-first :
    (costs : List ℕ)
    → suc (length costs) < 2 ^ 64
    → (counted costs (accumulate_metric none 1 1)).sum ≡ suc (length costs)
unfolding accumulate_metric
count-first costs h =
    sum-counted costs (accumulate_metric none 1 1) (omega (arith, h)) ∙ omega arith

bounds-first :
    (cost : ℕ) (costs : List ℕ)
    → let m = gathered costs (accumulate_metric none cost 1) in
      All (λ (c : ℕ). (m.min_value ≤ c) × (c ≤ m.max_value)) (cost ∷ costs)
unfolding accumulate_metric
bounds-first cost costs =
    let (low, high, all) = gathered_bounds costs (accumulate_metric none cost 1) in
    ((omega (arith, low), omega (arith, high)), all)

-- After calls of perf for some costs, whose sum and number fit 64 bits, the report has their
-- number, and for the cost their sum, bounds that hold each of them, and their average, rounded
-- down.
pub report-perf_all :
    (cost : ℕ) (costs : List ℕ)
    → total (cost ∷ costs) < 2 ^ 64
    → length (cost ∷ costs) < 2 ^ 64
    → (m : Metric) × ((report (perf_all (cost ∷ costs) [])
          ≡ some (
            length (cost ∷ costs),
            (codes "cost", (m, total (cost ∷ costs) / length (cost ∷ costs))) ∷ [],
          ))
        × (m.sum ≡ total (cost ∷ costs))
        × All (λ (c : ℕ). (m.min_value ≤ c) × (c ≤ m.max_value)) (cost ∷ costs))
unfolding report averages perf_all perf accumulate lookup assign
report-perf_all cost costs h k = (gathered costs first, (reported, sum, bounds))
  where
    first : Metric
    first = accumulate_metric none cost 1

    counts : Metric
    counts = accumulate_metric none 1 1

    sum : (gathered costs first).sum ≡ total (cost ∷ costs)
    sum = sum-first cost costs h

    count : (counted costs counts).sum ≡ suc (length costs)
    count = count-first costs k

    nonzero : (suc (length costs) == 0) ≡ false
    nonzero = ground arith

    reported :
        report (perf_all costs ((codes "count", counts) ∷ (codes "cost", first) ∷ []))
        ≡ some (
          suc (length costs),
          (codes "cost", (gathered costs first, total (cost ∷ costs) / suc (length costs))) ∷ [],
        )
    reported = rw (perf_all-pair costs counts first) (rw (count, sum, nonzero) refl)

    bounds :
        All
          (λ (c : ℕ).
            ((gathered costs first).min_value ≤ c) × (c ≤ (gathered costs first).max_value))
          (cost ∷ costs)
    bounds = bounds-first cost costs
