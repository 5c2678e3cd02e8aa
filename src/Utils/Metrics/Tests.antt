-- ===== src/Utils/Metrics/Tests.antt =====
-- Statistics of three calls, and the lines of a message.
use st_dns.Base.{ℕ, ◌/◌, ◌≤◌, ◌≡◌, refl, [], ◌∷◌, some, All, arith}
use st_dns.Base.Text.{codes}
use st_dns.Utils.Metrics.{Metric, report, log_lines}
use st_dns.Utils.Metrics.Averages.{total, perf_all, report-perf_all}

report-perf_all_example :
    (m : Metric) × ((report (perf_all (7 ∷ 2 ∷ 6 ∷ []) [])
        ≡ some (3, (codes "cost", (m, total (7 ∷ 2 ∷ 6 ∷ []) / 3)) ∷ []))
      × (m.sum ≡ total (7 ∷ 2 ∷ 6 ∷ []))
      × All (λ (c : ℕ). (m.min_value ≤ c) × (c ≤ m.max_value)) (7 ∷ 2 ∷ 6 ∷ []))
unfolding total
report-perf_all_example = report-perf_all 7 (2 ∷ 6 ∷ []) (omega arith) (omega arith)

two_lines : log_lines [] (codes "a\nbc") ≡ codes "a" ∷ codes "bc" ∷ []
unfolding log_lines
two_lines = refl
