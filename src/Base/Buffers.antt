-- ===== src/Base/Buffers.antt =====
-- What a run of the C++ code ends in, and the buffers that it reads and writes.
use Prim.Native.Nat.{ℕ, zero, suc, ◌+◌, ◌≤◌, ◌<◌}
use mathlib.Core.Path.{◌≡◌, refl, ap, sym, ◌∙◌}
use mathlib.Core.Logic.{◌⊎◌, inl, inr, ◌≢◌}
use mathlib.Core.Option.{none, some}
use mathlib.Core.List.{List, [], ◌∷◌, ◌++◌, append_assoc}
use native.Mathlib.Decide.{dec_lt}
use native.Mathlib.Omega.{arith}
use st_dns.Base.Tests.{leb, if◌then◌else◌, le→leb}
use st_dns.Base.Lists.{
  get_elem?, get_elem?-append_at, get_elem?_within, get_elem?_past, length, take, drop, replicate,
  length-append, length-replicate, replicate-add, take-append, drop-append,
}

-- `out_of_bounds`: a read or a write outside the buffer. `thrown`: an exception that the code does
-- not catch. `out_of_fuel` is no outcome of the code: a model's loop used up its rounds.
pub data Error : Type 0 where
  out_of_bounds thrown out_of_fuel : Error

pub data Outcome {ℓ} (A : Type ℓ) : Type ℓ where
  ok : A → Outcome A
  err : Error → Outcome A

infixl 5 ◌>>=◌
abbrev pub ◌>>=◌ {ℓ κ} : {A : Type ℓ} {B : Type κ} → Outcome A → (A → Outcome B) → Outcome B
ok a >>= f = f a
err e >>= f = err e

pub Outcome-cases {ℓ} :
    {A : Type ℓ} (r : Outcome A) → ((a : A) × (r ≡ ok a)) ⊎ ((e : Error) × (r ≡ err e))
Outcome-cases (ok a) = inl (a, refl)
Outcome-cases (err e) = inr (e, refl)

-- `*(data + i)`
unfoldable pub load : List ℕ → ℕ → Outcome ℕ
load buf i = elim (get_elem? buf i) [ none ↦ err out_of_bounds | some b ↦ ok b ]

-- `*(data + i) = …` for each of the bytes in turn.
unfoldable pub store : List ℕ → ℕ → List ℕ → Outcome (List ℕ)
store buf i bytes =
    if leb (i + length bytes) (length buf)
    then ok (take i buf ++ (bytes ++ drop (i + length bytes) buf))
    else err out_of_bounds

pub load-append_at :
    (front rest : List ℕ) (b i : ℕ) → i ≡ length front → load (front ++ (b ∷ rest)) i ≡ ok b
unfolding load
load-append_at front rest b i h = ground (arith, get_elem?-append_at front rest b i h)

pub load_within : (buf : List ℕ) (i : ℕ) → i < length buf → (b : ℕ) × (load buf i ≡ ok b)
unfolding load
load_within buf i h = let (b, e) = get_elem?_within buf i h in (b, ground (arith, e))

pub load_past : (buf : List ℕ) (i : ℕ) → length buf ≤ i → load buf i ≡ err out_of_bounds
unfolding load
load_past buf i h = ground (arith, get_elem?_past buf i h)

-- A load fails in one way.
pub load-ne : (buf : List ℕ) (i : ℕ) (bad : Error) → bad ≢ out_of_bounds → load buf i ≢ err bad
unfolding load
load-ne buf i bad h e = ground arith

pub load_within-ne : (buf : List ℕ) (i : ℕ) (bad : Error) → i < length buf → load buf i ≢ err bad
load_within-ne buf i bad h e = cc ((load_within buf i h).1)

pub load-shift :
    (front buf : List ℕ) (i j : ℕ) → i ≡ length front + j → load (front ++ buf) i ≡ load buf j
unfolding load
load-shift [] buf i j h = let e : i ≡ j = omega arith in rw e
load-shift (x ∷ front) buf zero j h = absurd (omega arith)
load-shift (x ∷ front) buf (suc i) j h = load-shift front buf i j (omega arith)

-- A load tells whether its address lies in the buffer.
pub load_bound : (buf : List ℕ) (i : ℕ) → (load buf i ≡ err out_of_bounds) ⊎ (i < length buf)
load_bound buf i = elim (dec_lt i (length buf)) [
  | yes h ↦ inr h
  | no h ↦ inl (load_past buf i (omega arith))
]

-- A write over as many bytes as it has keeps the buffer before and behind them.
pub store-append :
    (front old rest bytes : List ℕ) (i : ℕ)
    → i ≡ length front
    → length old ≡ length bytes
    → store (front ++ (old ++ rest)) i bytes ≡ ok (front ++ (bytes ++ rest))
unfolding store
store-append front old rest bytes i hi hl = rw (
  le→leb (i + length bytes) (length (front ++ (old ++ rest))) fits,
  take-append front (old ++ rest) i hi,
  behind,
)
  where
    fits : i + length bytes ≤ length (front ++ (old ++ rest))
    fits = omega (arith, length-append front (old ++ rest), length-append old rest)

    behind : drop (i + length bytes) (front ++ (old ++ rest)) ≡ rest
    behind =
        ap (drop (i + length bytes)) (sym (append_assoc front old rest))
        ∙ drop-append (front ++ old) rest (i + length bytes)
            (omega (arith, length-append front old))

-- A write at the end of what is written so far, into zeros.
pub store_zeros :
    (front bytes : List ℕ) (i n k : ℕ)
    → i ≡ length front
    → n ≡ length bytes + k
    → store (front ++ replicate n 0) i bytes ≡ ok (front ++ (bytes ++ replicate k 0))
store_zeros front bytes i n k hi hn =
    ap (λ (z : List ℕ). store (front ++ z) i bytes) zeros
    ∙ store-append front (replicate (length bytes) 0) (replicate k 0) bytes i hi
        (length-replicate (length bytes) 0)
  where
    zeros : replicate {A = ℕ} n 0 ≡ replicate (length bytes) 0 ++ replicate k 0
    zeros = ap (λ (m : ℕ). replicate {A = ℕ} m 0) hn ∙ replicate-add (length bytes) k 0
