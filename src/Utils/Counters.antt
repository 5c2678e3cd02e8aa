-- ===== src/Utils/Counters.antt =====
-- The counters under src/common/main/utils: avg_counter.h and interval_counter.h. `inter`
-- loads the count and later stores a 0, and what other threads add in between is an argument of it;
-- an addition is taken whole, at its access to the count. The time is an argument.
pub mod Totals
mod Tests
use st_dns.Base.{
  List, [], ◌∷◌, ℕ, ◌+◌, ◌-◌, ◌/◌, ◌%◌, ◌^◌, Bool, true, false, ltb, ◌==◌, if◌then◌else◌,
}

-- `average<uint64_t>`
pub record Average : Type 0 where
  pub total : ℕ
  pub num : ℕ

abbrev pub no_average : Average
no_average = record { total = 0; num = 0 }

unfoldable pub add_value : ℕ → Average → Average
add_value value a = record { total = (a.total + value) % 2 ^ 64; num = (a.num + 1) % 2 ^ 64 }

-- `avg`, where `num` is not 0.
unfoldable pub avg : Average → ℕ
avg a = a.total / a.num

-- `interval`
pub record Interval : Type 0 where
  pub last_interval_time : ℕ
  pub last_record_time : ℕ
  pub interval_count : ℕ
  pub total_count : ℕ

abbrev pub no_interval : Interval
no_interval = record {
  last_interval_time = 0;
  last_record_time = 0;
  interval_count = 0;
  total_count = 0;
}

-- The first half of `inter`: the time since the last call and the count are loaded.
unfoldable pub inter_load : ℕ → Interval → ℕ × ℕ
inter_load now c = ((now + 2 ^ 64 - c.last_interval_time) % 2 ^ 64, c.interval_count)

-- The second half: the time and the 0 are stored.
unfoldable pub inter_store : ℕ → Interval → Interval
inter_store now c = record c { last_interval_time = now; interval_count = 0 }

-- `+=`
unfoldable pub add_count : ℕ → ℕ → Interval → Interval
add_count now incr c = record c {
  last_record_time = now;
  last_interval_time = if c.last_interval_time == 0 then now else c.last_interval_time;
  interval_count = (c.interval_count + incr) % 2 ^ 64;
  total_count = (c.total_count + incr) % 2 ^ 64;
}

-- The additions of other threads, each with its time.
unfoldable pub add_all : List (ℕ × ℕ) → Interval → Interval
add_all [] c = c
add_all ((now, incr) ∷ adds) c = add_all adds (add_count now incr c)

-- `inter`, with what other threads add between the load of the count and the store of the 0.
unfoldable pub inter : ℕ → List (ℕ × ℕ) → Interval → (ℕ × ℕ) × Interval
inter now between c = (inter_load now c, inter_store now (add_all between c))

abbrev pub is_start : Interval → Bool
is_start c = ltb 0 c.total_count
