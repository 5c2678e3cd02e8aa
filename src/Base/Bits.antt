-- ===== src/Base/Bits.antt =====
-- `bit_and` and `bit_or` as arithmetic, for every width: the masks and shifts of the C++ code.
use Prim.Native.Nat.{
  ℕ, zero, suc, ◌+◌, ◌-◌, ◌*◌, ◌/◌, ◌%◌, ◌^◌, ◌≤◌, ◌<◌, min, max, bit_and, bit_or, digits,
  bit_and-bitwise, bit_or-bitwise,
}
use mathlib.Core.Path.{◌≡◌, refl, sym, ◌∙◌, ap}
use native.Mathlib.Nat.{pow-suc, div-div-eq-div-mul, div-add-mod, mul-div_cancel}
use native.Mathlib.Numerals.{towards_suc}
use native.Mathlib.Omega.{arith}

-- Digit by digit, with as many rounds as the left number: further rounds change nothing.
module _ (rest : ℕ → ℕ) (op : ℕ → ℕ → ℕ) where
  abbrev round : ℕ → ℕ → ℕ → ℕ
  round a b high = high * 2 + op (a % 2) (b % 2)

  steady : (top n a b : ℕ) → n ≤ top → a ≤ n → digits rest op n a b ≡ digits rest op a a b
  steady top zero zero b hn ha = refl
  steady top (suc n) zero b hn ha = refl
  steady top zero (suc a) b hn ha = absurd (omega arith)
  steady zero (suc n) (suc a) b hn ha = absurd (omega arith)
  steady (suc top) (suc n) (suc a) b hn ha = ap (round (suc a) b) (
      steady top n (suc a / 2) (b / 2) (omega arith) (omega arith)
      ∙ sym (steady top a (suc a / 2) (b / 2) (omega arith) (omega arith)))

and_nothing : (n a : ℕ) → digits (λ b. zero) min n a 0 ≡ 0
and_nothing zero a = refl
and_nothing (suc n) zero = refl
and_nothing (suc n) (suc a) = omega (arith, and_nothing n (suc a / 2))

or_nothing : (n a : ℕ) → a ≤ n → digits (λ b. b) max n a 0 ≡ a
or_nothing zero zero h = refl
or_nothing (suc n) zero h = refl
or_nothing zero (suc a) h = absurd (omega arith)
or_nothing (suc n) (suc a) h = omega (arith, or_nothing n (suc a / 2) (omega arith))

pub bit_and-zero : (a : ℕ) → bit_and a 0 ≡ 0
bit_and-zero a = bit_and-bitwise a 0 ∙ and_nothing a a

pub bit_or-zero : (a : ℕ) → bit_or a 0 ≡ a
bit_or-zero a = bit_or-bitwise a 0 ∙ or_nothing a a (omega arith)

zero-bit_and : (b : ℕ) → bit_and 0 b ≡ 0
zero-bit_and b = bit_and-bitwise 0 b

pub zero-bit_or : (b : ℕ) → bit_or 0 b ≡ b
zero-bit_or b = bit_or-bitwise 0 b

-- The lowest digit apart.
pub bit_and_step : (v m : ℕ) → bit_and v m ≡ min (v % 2) (m % 2) + 2 * bit_and (v / 2) (m / 2)
bit_and_step zero m = zero-bit_and m ∙ omega (arith, ap (λ (t : ℕ). 2 * t) (zero-bit_and (m / 2)))
bit_and_step (suc v) m =
    let half = suc v / 2 in
    let h = steady (λ b. zero) min v v half (m / 2) (omega arith) (omega arith) in
    bit_and-bitwise (suc v) m ∙ omega (arith, h, bit_and-bitwise half (m / 2))

pub bit_or_step : (v m : ℕ) → bit_or v m ≡ max (v % 2) (m % 2) + 2 * bit_or (v / 2) (m / 2)
bit_or_step zero m = zero-bit_or m ∙ omega (arith, ap (λ (t : ℕ). 2 * t) (zero-bit_or (m / 2)))
bit_or_step (suc v) m =
    let half = suc v / 2 in
    let h = steady (λ b. b) max v v half (m / 2) (omega arith) (omega arith) in
    bit_or-bitwise (suc v) m ∙ omega (arith, h, bit_or-bitwise half (m / 2))

-- A shift by one more place, in the form that `omega` reads.
pub mul-pow-suc : (a k : ℕ) → a * 2 ^ suc k ≡ 2 * (a * 2 ^ k)
mul-pow-suc a k = omega (arith, ap (λ (t : ℕ). a * t) (pow-suc 2 k))

pub pow_pos : (k : ℕ) → 0 < 2 ^ k
pow_pos zero = omega arith
pow_pos (suc k) = omega (arith, pow-suc 2 k, pow_pos k)

-- Disjoint bits: `or` is the sum.
pub bit_or-shifted : (k a b : ℕ) → b < 2 ^ k → bit_or (a * 2 ^ k) b ≡ a * 2 ^ k + b
bit_or-shifted zero a b h =
    let e : b ≡ 0 = omega arith in rw e (bit_or-zero (a * 2 ^ 0) ∙ omega arith)
bit_or-shifted (suc k) a b h =
    let m : b / 2 < 2 ^ k = omega (arith, pow-suc 2 k) in
    let d : (2 * (a * 2 ^ k)) / 2 ≡ a * 2 ^ k = omega arith in
    rw (mul-pow-suc a k)
      (bit_or_step (2 * (a * 2 ^ k)) b ∙ rw d (omega (arith, bit_or-shifted k a (b / 2) m)))

-- Halving first.
div-pow-suc : (a k : ℕ) → a / 2 / 2 ^ k ≡ a / 2 ^ suc k
div-pow-suc a k =
    let e : 2 * 2 ^ k ≡ 2 ^ suc k = omega (arith, pow-suc 2 k) in
    div-div-eq-div-mul a 2 (2 ^ k) ∙ ap (λ (t : ℕ). a / t) e

mod-pow-suc : (a k : ℕ) → a % 2 ^ suc k ≡ a / 2 % 2 ^ k * 2 + a % 2
mod-pow-suc a k = omega (
  arith,
  div-add-mod a (2 ^ suc k),
  div-add-mod (a / 2) (2 ^ k),
  mul-pow-suc (a / 2 ^ suc k) k,
  ap (λ (t : ℕ). t * 2 ^ k) (div-pow-suc a k),
)

-- A mask on high bits only is a mask after the shift.
pub bit_and-shifted : (k a m : ℕ) → bit_and a (m * 2 ^ k) ≡ bit_and (a / 2 ^ k) m * 2 ^ k
bit_and-shifted zero a m =
    let e : a / 2 ^ 0 ≡ a = omega arith in
    let f : m * 2 ^ 0 ≡ m = omega arith in rw (e, f) (omega arith)
bit_and-shifted (suc k) a m =
    let d : (2 * (m * 2 ^ k)) / 2 ≡ m * 2 ^ k = omega arith in
    rw (mul-pow-suc m k) (
      bit_and_step a (2 * (m * 2 ^ k))
      ∙ rw (d, bit_and-shifted k (a / 2) m, div-pow-suc a k)
          (omega (arith, mul-pow-suc (bit_and (a / 2 ^ suc k) m) k)))

-- A mask of `k` ones keeps the low `k` bits.
pub bit_and-ones : (k a : ℕ) → bit_and a (2 ^ k - 1) ≡ a % 2 ^ k
bit_and-ones zero a = bit_and-zero a ∙ omega arith
bit_and-ones (suc k) a =
    let d : (2 ^ suc k - 1) / 2 ≡ 2 ^ k - 1 = omega (arith, pow-suc 2 k, pow_pos k) in
    bit_and_step a (2 ^ suc k - 1)
    ∙ rw (d, bit_and-ones k (a / 2), mod-pow-suc a k) (omega (arith, pow-suc 2 k, pow_pos k))

bit_and_comm_below : (top a b : ℕ) → b ≤ top → bit_and a b ≡ bit_and b a
bit_and_comm_below top a zero h = bit_and-zero a ∙ sym (zero-bit_and a)
bit_and_comm_below zero a (suc b) h = absurd (omega arith)
bit_and_comm_below (suc top) a (suc b) h =
    let halves = bit_and_comm_below top (a / 2) (suc b / 2) (omega arith) in
    omega (arith, halves, bit_and_step a (suc b), bit_and_step (suc b) a)

pub bit_and_comm : (a b : ℕ) → bit_and a b ≡ bit_and b a
bit_and_comm a b = bit_and_comm_below b a b (omega arith)

-- `(v & (0xff << k)) >> k` and `((0xff << k) & v) >> k` are byte `k / 8` of `v`.
pub byte_at : (k v : ℕ) → bit_and v (0xff * 2 ^ k) / 2 ^ k ≡ v / 2 ^ k % 256
byte_at k v =
    rw (bit_and-shifted k v 0xff)
      (mul-div_cancel (bit_and (v / 2 ^ k) 0xff) (pow_pos k) ∙ bit_and-ones 8 (v / 2 ^ k))

pub byte_at_comm : (k v : ℕ) → bit_and (0xff * 2 ^ k) v / 2 ^ k ≡ v / 2 ^ k % 256
byte_at_comm k v = rw (bit_and_comm (0xff * 2 ^ k) v) (byte_at k v)

pub pow_byte : (n : ℕ) → 2 ^ (suc n * 8) ≡ 256 * 2 ^ (n * 8)
pow_byte n = let e : suc n * 8 ≡ n * 8 + 8 = omega arith in rw e (simp towards_suc (omega arith))

mod-mul_byte : (p v : ℕ) → v % (256 * p) ≡ v / p % 256 * p + v % p
mod-mul_byte p v =
    let q : v / p / 256 ≡ v / (256 * p) =
      div-div-eq-div-mul v p 256 ∙ ap (λ (t : ℕ). v / t) (omega arith) in
    omega (
      arith,
      div-add-mod v (256 * p),
      div-add-mod v p,
      ap (λ (t : ℕ). t * p) q,
      ap (λ (t : ℕ). t * p) (div-add-mod (v / p) 256),
    )

pub mod_byte :
    (n v : ℕ) → v % 2 ^ (suc n * 8) ≡ v / 2 ^ (n * 8) % 256 * 2 ^ (n * 8) + v % 2 ^ (n * 8)
mod_byte n v = rw (pow_byte n) (mod-mul_byte (2 ^ (n * 8)) v)
