-- ===== src/Utils/Counters/Totals.antt =====
-- What the intervals report adds up: src/common/main/utils/interval_counter.h.
use st_dns.Base.{ℕ, ◌+◌, ◌%◌, ◌^◌, ◌≡◌, refl, List, [], ◌∷◌, arith}
use st_dns.Utils.Counters.{
  Interval, no_interval, inter_load, inter_store, inter, add_count, add_all,
}

-- The operations on a counter, each with its time; `inter` also with the additions that fall between
-- its load and its store.
pub data CounterOp : Type 0 where
  add_op : ℕ → ℕ → CounterOp
  inter_op : ℕ → List (ℕ × ℕ) → CounterOp

-- The counts that `inter` reported, added up, and the counter.
unfoldable pub run_counter : List CounterOp → ℕ × Interval → ℕ × Interval
run_counter [] r = r
run_counter (add_op now incr ∷ ops) (reported, c) = run_counter ops (reported, add_count now incr c)
run_counter (inter_op now between ∷ ops) (reported, c) =
    let r = inter now between c in run_counter ops (reported + r.0.1, r.1)

unfoldable pub sum_adds : List (ℕ × ℕ) → ℕ
sum_adds [] = 0
sum_adds ((now, incr) ∷ adds) = incr + sum_adds adds

-- All that was added.
unfoldable pub added_counts : List CounterOp → ℕ
added_counts [] = 0
added_counts (add_op now incr ∷ ops) = incr + added_counts ops
added_counts (inter_op now between ∷ ops) = sum_adds between + added_counts ops

-- What was added between a load and the store behind it.
unfoldable pub lost_counts : List CounterOp → ℕ
lost_counts [] = 0
lost_counts (add_op now incr ∷ ops) = lost_counts ops
lost_counts (inter_op now between ∷ ops) = sum_adds between + lost_counts ops

total_count-add_all :
    (adds : List (ℕ × ℕ)) (sum : ℕ) (c : Interval)
    → c.total_count ≡ sum % 2 ^ 64
    → (add_all adds c).total_count ≡ (sum + sum_adds adds) % 2 ^ 64
unfolding add_all add_count sum_adds
total_count-add_all [] sum c h = omega (arith, h)
total_count-add_all ((now, incr) ∷ adds) sum c h =
    let rest = total_count-add_all adds (sum + incr) (add_count now incr c) (omega (arith, h)) in
    omega (arith, rest)

balanced :
    (ops : List CounterOp) (reported sum lost : ℕ) (c : Interval)
    → (reported + c.interval_count + lost) % 2 ^ 64 ≡ sum % 2 ^ 64
    → c.total_count ≡ sum % 2 ^ 64
    → let r = run_counter ops (reported, c) in
      ((r.0 + r.1.interval_count + (lost + lost_counts ops)) % 2 ^ 64
        ≡ (sum + added_counts ops) % 2 ^ 64)
      × (r.1.total_count ≡ (sum + added_counts ops) % 2 ^ 64)
unfolding run_counter added_counts lost_counts inter inter_load inter_store add_count
balanced [] reported sum lost c h k = (omega (arith, h), omega (arith, k))
balanced (add_op now incr ∷ ops) reported sum lost c h k =
    let r =
      balanced ops reported (sum + incr) lost (add_count now incr c) (omega (arith, h))
        (omega (arith, k)) in
    (omega (arith, r.0), omega (arith, r.1))
balanced (inter_op now between ∷ ops) reported sum lost c h k =
    let r =
      balanced ops (reported + c.interval_count) (sum + sum_adds between) (lost + sum_adds between)
        (inter now between c).1 (omega (arith, h)) (total_count-add_all between sum c k) in
    (omega (arith, r.0), omega (arith, r.1))

-- When one thread calls inter and others add, the counts that inter reported, the count since and
-- what was added while an inter was between its load of the count and its store of 0 are together
-- all that was added, modulo 2^64; the total is all that was added. An addition counts where it
-- adds to the count of the interval.
pub run_counter-added_counts :
    (ops : List CounterOp)
    → let r = run_counter ops (0, no_interval) in
      ((r.0 + r.1.interval_count + lost_counts ops) % 2 ^ 64 ≡ added_counts ops % 2 ^ 64)
      × (r.1.total_count ≡ added_counts ops % 2 ^ 64)
run_counter-added_counts ops =
    let r = balanced ops 0 0 0 no_interval refl refl in (omega (arith, r.0), omega (arith, r.1))
