-- ===== src/Utils/Bytes.antt =====
-- Big-endian numbers in byte buffers: src/common/main/utils/byte.h.
use st_dns.Base.{
  ℕ, zero, suc, ◌+◌, ◌*◌, ◌/◌, ◌%◌, ◌^◌, ◌<◌, ◌≡◌, refl, sym, ap, ◌∙◌, List, [], ◌∷◌, ◌++◌, arith,
  bit_and, bit_or, Outcome, ok, ◌>>=◌, load, load-append_at, load-shift, length, length-append, All,
  append_assoc,
}
use mathlib.Core.Path.{fun_ext}
use native.Mathlib.Nat.{mod-eq_of_lt}
use st_dns.Base.Bits.{bit_or-shifted, byte_at, byte_at_comm, mod_byte, pow_byte, pow_pos}

-- `read`: `result |= *(data + i) << ((len - i - 1) * 8)`, with `n` bytes still to read. The sum stays
-- below `2 ^ (8 * len)`, so nothing is cut off in a result of `len` bytes.
unfoldable pub read : List ℕ → ℕ → ℕ → ℕ → Outcome ℕ
read buf zero i result = ok result
read buf (suc n) i result = do
  val ← load buf i
  read buf n (i + 1) (bit_or result (val * 2 ^ (n * 8)))

-- `write`: `data[i] = ((0xFF << i1) & result) >> i1` with `i1 = (len - i - 1) * 8`.
unfoldable pub write : ℕ → ℕ → List ℕ
write zero value = []
write (suc n) value = (bit_and (0xff * 2 ^ (n * 8)) value / 2 ^ (n * 8)) ∷ write n value

-- `to_bytes`, which masks and shifts the same way.
unfoldable pub to_bytes : ℕ → ℕ → List ℕ
to_bytes zero num = []
to_bytes (suc n) num = (bit_and num (0xff * 2 ^ (n * 8)) / 2 ^ (n * 8)) ∷ to_bytes n num

-- What `len` bytes say, the first byte the highest.
abbrev pub big_endian : ℕ → List ℕ → ℕ
big_endian acc [] = acc
big_endian acc (b ∷ bytes) = big_endian (acc * 256 + b) bytes

abbrev pub IsByte : ℕ → Type 0
IsByte b = b < 256

or_byte :
    (n acc b : ℕ)
    → b < 256
    → bit_or (acc * 2 ^ (suc n * 8)) (b * 2 ^ (n * 8)) ≡ (acc * 256 + b) * 2 ^ (n * 8)
or_byte n acc b h =
    bit_or-shifted (suc n * 8) acc (b * 2 ^ (n * 8)) (grind (arith, pow_byte n, pow_pos (n * 8)))
    ∙ omega (arith, ap (λ (t : ℕ). acc * t) (pow_byte n))

-- `read` finds the big-endian number of the bytes at its address, wherever they stand in the buffer.
pub read-big_endian :
    (front bytes rest : List ℕ) (n i acc : ℕ)
    → i ≡ length front
    → n ≡ length bytes
    → All IsByte bytes
    → read (front ++ (bytes ++ rest)) n i (acc * 2 ^ (n * 8)) ≡ ok (big_endian acc bytes)
unfolding read
read-big_endian front [] rest zero i acc hi hn hb = ap ok (omega arith)
read-big_endian front [] rest (suc n) i acc hi hn hb = absurd (omega arith)
read-big_endian front (b ∷ bytes) rest zero i acc hi hn hb = absurd (omega arith)
read-big_endian front (b ∷ bytes) rest (suc n) i acc hi hn hb =
    rw (load-append_at front (bytes ++ rest) b i hi, or_byte n acc b hb.0)
      (ap (λ (l : List ℕ). read l n (i + 1) ((acc * 256 + b) * 2 ^ (n * 8))) shift
        ∙ read-big_endian (front ++ (b ∷ [])) bytes rest n (i + 1) (acc * 256 + b)
            (omega (arith, length-append front (b ∷ []))) (omega arith) hb.1)
  where
    shift : front ++ ((b ∷ bytes) ++ rest) ≡ (front ++ (b ∷ [])) ++ (bytes ++ rest)
    shift = sym (append_assoc front (b ∷ []) (bytes ++ rest))

pub length-write : (n value : ℕ) → length (write n value) ≡ n
unfolding write
length-write zero value = refl
length-write (suc n) value = ap suc (length-write n value)

pub write-IsByte : (n value : ℕ) → All IsByte (write n value)
unfolding write
write-IsByte zero value = tt
write-IsByte (suc n) value = (omega (arith, byte_at_comm (n * 8) value), write-IsByte n value)

pub to_bytes-write : (n num : ℕ) → to_bytes n num ≡ write n num
unfolding to_bytes write
to_bytes-write zero num = refl
to_bytes-write (suc n) num =
    rw (byte_at (n * 8) num, byte_at_comm (n * 8) num, to_bytes-write n num)

-- The bytes written say the value, cut to `n` bytes.
pub big_endian-write :
    (n acc value : ℕ) → big_endian acc (write n value) ≡ acc * 2 ^ (n * 8) + value % 2 ^ (n * 8)
unfolding write
big_endian-write zero acc value = omega arith
big_endian-write (suc n) acc value = rw (byte_at_comm (n * 8) value) (
    big_endian-write n (acc * 256 + value / 2 ^ (n * 8) % 256) value
    ∙ omega (arith, mod_byte n value, ap (λ (t : ℕ). acc * t) (pow_byte n)))

-- `read` returns a value that fits its width where `write` stored it, for every width and at every
-- place of a buffer.
pub read-write :
    (front rest : List ℕ) (n i value : ℕ)
    → i ≡ length front
    → value < 2 ^ (n * 8)
    → read (front ++ (write n value ++ rest)) n i 0 ≡ ok value
read-write front rest n i value hi hv =
    ap (λ (t : ℕ). read (front ++ (write n value ++ rest)) n i t) start
    ∙ read-big_endian front (write n value) rest n i 0 hi (sym (length-write n value))
        (write-IsByte n value)
    ∙ ap ok (omega (arith, big_endian-write n 0 value, mod-eq_of_lt hv))
  where
    start : 0 ≡ 0 * 2 ^ (n * 8)
    start = omega arith

pub read-shift :
    (front buf : List ℕ) (n i j result : ℕ)
    → i ≡ length front + j
    → read (front ++ buf) n i result ≡ read buf n j result
unfolding read
read-shift front buf zero i j result h = refl
read-shift front buf (suc n) i j result h = rw (load-shift front buf i j h) (
    ap (◌>>=◌ (load buf j)) (fun_ext λ val. read-shift front buf n (i + 1) (j + 1) _ (omega arith)))
