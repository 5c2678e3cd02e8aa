-- ===== src/Utils/Pool.antt =====
-- The memory pools and their counts: src/common/main/utils/pool.cpp. The blocks themselves are
-- boost's; what is modelled is which pool serves a size, and what is counted.
pub mod Leak
use st_dns.Base.{ℕ, ◌+◌, ◌-◌, ◌*◌, ◌%◌, ◌^◌, Outcome, ok, err, thrown, ◌>>=◌, leb, if◌then◌else◌}

-- freeNum and mallocNum
pub record Counts : Type 0 where
  pub free_num : ℕ
  pub malloc_num : ℕ

-- The branches that `pmalloc` and `pfree` share: the block size of the pool that serves a size.
unfoldable pub block_size : ℕ → Outcome ℕ
block_size size =
    if leb size 8
    then ok 8
    else if leb size 1024
    then ok 1024
    else if leb size 2048
    then ok 2048
    else if leb size 4096
    then ok 4096
    else if leb size (1024 * 16)
    then ok (1024 * 16)
    else err thrown

-- `pmalloc`: the size of the block returned, and the counts.
unfoldable pub pmalloc : ℕ → Counts → Outcome (ℕ × Counts)
pmalloc size counts = do
  block ← block_size size
  ok (block, record counts { malloc_num = (counts.malloc_num + block) % 2 ^ 64 })

-- `pfree`
unfoldable pub pfree : ℕ → Counts → Outcome Counts
pfree size counts = do
  block ← block_size size
  ok (record counts { free_num = (counts.free_num + block) % 2 ^ 64 })

-- `leak_size`
unfoldable pub leak_size : Counts → ℕ
leak_size counts = (counts.malloc_num + 2 ^ 64 - counts.free_num) % 2 ^ 64
