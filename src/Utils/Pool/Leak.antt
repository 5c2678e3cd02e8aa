-- ===== src/Utils/Pool/Leak.antt =====
-- What the counts say of a block that is handed out and given back.
use st_dns.Base.{
  ℕ, ◌+◌, ◌*◌, ◌%◌, ◌^◌, ◌≤◌, ◌<◌, ◌≡◌, refl, ◌⊎◌, inl, inr, Outcome, ok, err, thrown, leb,
  if_either, arith,
}
use st_dns.Utils.Pool.{Counts, block_size, pmalloc, pfree, leak_size}

-- The pool that serves a size serves its own block size too.
Served : ℕ → Outcome ℕ → Type 0
Served size result =
    ((block : ℕ) × (result ≡ ok block)
      × (size ≤ block)
      × (block ≤ 16384)
      × (block_size block ≡ ok block))
    ⊎ ((16384 < size) × (result ≡ err thrown))

block_size-Served : (size : ℕ) → Served size (block_size size)
unfolding block_size Served
block_size-Served size =
    if_either (Served size) (leb size 8) (λ e. inl (8, refl, ground arith, omega arith, refl))
      (λ e.
        if_either (Served size) (leb size 1024)
          (λ e. inl (1024, refl, ground arith, omega arith, refl))
          (λ e.
            if_either (Served size) (leb size 2048)
              (λ e. inl (2048, refl, ground arith, omega arith, refl))
              (λ e.
                if_either (Served size) (leb size 4096)
                  (λ e. inl (4096, refl, ground arith, omega arith, refl))
                  (λ e.
                    if_either (Served size) (leb size (1024 * 16))
                      (λ e. inl (16384, refl, ground arith, omega arith, refl))
                      (λ e. inr (ground arith, refl))))))

-- A size of at most 16 KiB is served by a block that holds it: the leak grows by the block, modulo
-- 2^64, and giving the block back with its size makes the leak what it was. A larger size throws.
pub pmalloc-pfree :
    (size : ℕ) (counts : Counts)
    → counts.malloc_num < 2 ^ 64
    → counts.free_num < 2 ^ 64
    → ((block : ℕ) × (counts' : Counts) × (counts'' : Counts) × (size ≤ block)
        × (pmalloc size counts ≡ ok (block, counts'))
        × (pfree block counts' ≡ ok counts'')
        × (leak_size counts' ≡ (leak_size counts + block) % 2 ^ 64)
        × (leak_size counts'' ≡ leak_size counts))
      ⊎ ((16384 < size) × (pmalloc size counts ≡ err thrown))
unfolding pmalloc pfree leak_size Served
pmalloc-pfree size counts hm hf = elim (block_size-Served size) [
  | inl (block, e, holds, small, own) ↦ inl (
    block,
    record counts { malloc_num = (counts.malloc_num + block) % 2 ^ 64 },
    record {
      free_num = (counts.free_num + block) % 2 ^ 64;
      malloc_num = (counts.malloc_num + block) % 2 ^ 64;
    },
    holds,
    rw e refl,
    rw own refl,
    omega arith,
    omega arith,
  )
  | inr (large, e) ↦ inr (large, rw e refl)
]
