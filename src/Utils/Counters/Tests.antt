-- ===== src/Utils/Counters/Tests.antt =====
-- A counter that is read twice.
use st_dns.Base.{◌+◌, ◌%◌, ◌^◌, ◌≡◌, [], ◌∷◌, List}
use st_dns.Utils.Counters.{no_interval}
use st_dns.Utils.Counters.Totals.{
  CounterOp, add_op, inter_op, run_counter, added_counts, lost_counts, run_counter-added_counts,
}

abbrev ops : List CounterOp
ops =
    add_op 10 3
    ∷ inter_op 12 ((13, 6) ∷ [])
    ∷ add_op 13 4
    ∷ add_op 14 5
    ∷ inter_op 20 []
    ∷ add_op 21 1
    ∷ []

run_counter-added_counts_example :
    (((run_counter ops (0, no_interval)).0
          + (run_counter ops (0, no_interval)).1.interval_count
          + lost_counts ops)
        % 2 ^ 64
      ≡ added_counts ops % 2 ^ 64)
    × ((run_counter ops (0, no_interval)).1.total_count ≡ added_counts ops % 2 ^ 64)
run_counter-added_counts_example = run_counter-added_counts ops
