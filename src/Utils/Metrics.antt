-- ===== src/Utils/Metrics.antt =====
-- The lines of a log message and the statistics of apm_logger: src/common/main/utils/logger.cpp. The
-- names of metrics, their dimensions and the files are not modelled: what is shown is one entry
-- STATISTICS[name][id].
pub mod Averages
mod Tests
use st_dns.Base.{
  ℕ, ◌+◌, ◌-◌, ◌*◌, ◌/◌, ◌%◌, ◌^◌, List, [], ◌∷◌, ◌++◌, Bool, true, false, Option, none, some,
  Outcome, ok, ◌>>=◌, min, max, ltb, ◌==◌, if◌then◌else◌,
}
use st_dns.Base.Text.{Text, codes, text_eq}
use st_dns.Base.Assoc.{lookup, assign}

-- A `logger` with its text; a level below that of the program is dropped.
pub record Logger : Type 0 where
  pub level : ℕ
  pub str : Text

-- `append_str`, where `threshold` is LEVEL.
unfoldable pub append_str : ℕ → Text → Logger → Logger
append_str threshold info log =
    if ltb log.level threshold then log else record log { str = log.str ++ (info ++ codes " ") }

-- The loop of `do_log`: the lines between the line feeds.
unfoldable pub log_lines : Text → Text → List Text
log_lines line [] = line ∷ []
log_lines line (ch ∷ str) = elim (ch == b'\n') [
  | true ↦ line ∷ log_lines [] str
  | false ↦ log_lines (line ++ (ch ∷ [])) str
]

-- `do_log`: what is written, and the logger without its text.
unfoldable pub do_log : ℕ → Logger → List Text × Logger
do_log threshold log =
    let cleared : Logger = record log { str = [] } in
    if ltb log.level threshold then ([], cleared) else (log_lines [] log.str, cleared)

-- A metric with its entries "sum", "min" and "max".
pub record Metric : Type 0 where
  pub sum : ℕ
  pub min_value : ℕ
  pub max_value : ℕ

-- The entries that an empty metric begins with.
abbrev pub no_values : Metric
no_values = record { sum = 0; min_value = 2 ^ 64 - 1; max_value = 0 }

-- `accumulate_metric`
unfoldable pub accumulate_metric : Option Metric → ℕ → ℕ → Metric
accumulate_metric metric value sample =
    let m : Metric = elim metric [ none ↦ no_values | some m ↦ m ] in
    record {
      sum = (m.sum + value * sample % 2 ^ 64) % 2 ^ 64;
      min_value = min value m.min_value;
      max_value = max value m.max_value;
    }

-- The metrics of one entry.
abbrev pub Metrics : Type 0
Metrics = List (Text × Metric)

unfoldable pub accumulate : Text → ℕ → ℕ → Metrics → Metrics
accumulate name value sample metrics =
    assign name (accumulate_metric (lookup name metrics) value sample) metrics

-- `perf`, for a call that is sampled.
unfoldable pub perf : ℕ → ℕ → ℕ → Metrics → Metrics
perf cost count sample metrics =
    accumulate (codes "cost") cost sample (accumulate (codes "count") count sample metrics)

-- The metrics of an entry as they are reported, with their averages.
unfoldable pub averages : ℕ → Metrics → List (Text × (Metric × ℕ))
averages t_count [] = []
averages t_count ((name, m) ∷ metrics) =
    let rest = averages t_count metrics in
    if text_eq name (codes "count") then rest else (name, (m, m.sum / t_count)) ∷ rest

-- The body of the loop of `report_apm_log_local`: `none` where nothing is written.
unfoldable pub report : Metrics → Option (ℕ × List (Text × (Metric × ℕ)))
report metrics =
    let t_count : ℕ = elim (lookup (codes "count") metrics) [ none ↦ 0 | some m ↦ m.sum ] in
    if t_count == 0 then none else some (t_count, averages t_count metrics)
