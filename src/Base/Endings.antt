-- ===== src/Base/Endings.antt =====
-- Computations that give a result or leave the buffer, and fail in no other way.
use mathlib.Core.Path.{◌≡◌, refl, subst}
use mathlib.Core.Logic.{◌⊎◌, inl, inr}
use mathlib.Core.Bool.{Bool, true, false}
use mathlib.Core.List.{List}
use Prim.Native.Nat.{ℕ}
use st_dns.Base.Tests.{if◌then◌else◌, Option-cases}
use st_dns.Base.Lists.{get_elem?}
use st_dns.Base.Buffers.{Outcome, ok, err, out_of_bounds, ◌>>=◌, load, store}

abbrev pub Ends {ℓ} : {A : Type ℓ} → Outcome A → Type ℓ
Ends {A = A} m = ((r : A) × (m ≡ ok r)) ⊎ (m ≡ err out_of_bounds)

module _ {ℓ} {A : Type ℓ} where
  pub ok-Ends : (a : A) → Ends (ok a)
  ok-Ends a = inl (a, refl)

  pub if-Ends : (b : Bool) {x y : Outcome A} → Ends x → Ends y → Ends (if b then x else y)
  if-Ends true hx hy = hx
  if-Ends false hx hy = hy

  pub elim-Ends :
      (b : Bool) {x y : Outcome A} → Ends x → Ends y → Ends (elim b [ true ↦ x | false ↦ y ])
  elim-Ends true hx hy = hx
  elim-Ends false hx hy = hy

-- The same, where the branches may use how the test came out.
pub elim-Ends_with {ℓ} :
    {A : Type ℓ} (b : Bool) {x y : Outcome A}
    → (b ≡ true → Ends x)
    → (b ≡ false → Ends y)
    → Ends (elim b [ true ↦ x | false ↦ y ])
elim-Ends_with true hx hy = hx refl
elim-Ends_with false hx hy = hy refl

-- An ending, and what holds of the result.
abbrev pub EndsIn {ℓ κ} : {A : Type ℓ} → (A → Type κ) → Outcome A → Type (ℓ ⊔ κ)
EndsIn {A = A} P m = ((r : A) × (m ≡ ok r) × P r) ⊎ (m ≡ err out_of_bounds)

pub elim-EndsIn {ℓ κ} :
    {A : Type ℓ} (P : A → Type κ) (b : Bool) {x y : Outcome A}
    → EndsIn P x
    → EndsIn P y
    → EndsIn P (elim b [ true ↦ x | false ↦ y ])
elim-EndsIn P true hx hy = hx
elim-EndsIn P false hx hy = hy

pub if-EndsIn {ℓ κ} :
    {A : Type ℓ} (P : A → Type κ) (b : Bool) {x y : Outcome A}
    → (b ≡ true → EndsIn P x)
    → EndsIn P y
    → EndsIn P (if b then x else y)
if-EndsIn P true hx hy = hx refl
if-EndsIn P false hx hy = hy

pub EndsIn-map {ℓ κ κ'} :
    {A : Type ℓ} (P : A → Type κ) (Q : A → Type κ') (m : Outcome A)
    → ((r : A) → P r → Q r)
    → EndsIn P m
    → EndsIn Q m
EndsIn-map P Q m f h = elim h [ inl (r, e, p) ↦ inl (r, e, f r p) | inr e ↦ inr e ]

pub EndsIn-bind {ℓ ℓ' κ κ'} :
    {A : Type ℓ} {B : Type ℓ'} (P : A → Type κ) (Q : B → Type κ') (m : Outcome A)
    (f : A → Outcome B)
    → EndsIn P m
    → ((a : A) → P a → EndsIn Q (f a))
    → EndsIn Q (m >>= f)
EndsIn-bind P Q m f h hf = elim h [ inl (a, e, p) ↦ rw e (hf a p) | inr e ↦ inr (rw e refl) ]

pub bind-EndsIn {ℓ ℓ' κ} :
    {A : Type ℓ} {B : Type ℓ'} (P : B → Type κ) (m : Outcome A) (f : A → Outcome B)
    → Ends m
    → ((a : A) → EndsIn P (f a))
    → EndsIn P (m >>= f)
bind-EndsIn P m f h hf = elim h [ inl (a, e) ↦ rw e (hf a) | inr e ↦ inr (rw e refl) ]

pub bind-Ends {ℓ ℓ'} :
    {A : Type ℓ} {B : Type ℓ'} (m : Outcome A) (f : A → Outcome B)
    → Ends m
    → ((a : A) → Ends (f a))
    → Ends (m >>= f)
bind-Ends m f h hf = elim h [ inl (a, e) ↦ rw e (hf a) | inr e ↦ inr (rw e refl) ]

pub load-Ends : (buf : List ℕ) (i : ℕ) → Ends (load buf i)
unfolding load
load-Ends buf i = elim (Option-cases (get_elem? buf i)) [
  | inl e ↦ inr (rw (load, e) refl)
  | inr (a, e) ↦ inl (a, rw (load, e) refl)
]

pub store-Ends : (buf : List ℕ) (i : ℕ) (bytes : List ℕ) → Ends (store buf i bytes)
unfolding store
store-Ends buf i bytes = if-Ends _ (ok-Ends _) (inr refl)

pub EndsIn-ok {ℓ κ} :
    {A : Type ℓ} (P : A → Type κ) (m : Outcome A) (r : A) → EndsIn P m → m ≡ ok r → P r
EndsIn-ok P m r (inl (r', e', p)) e = subst P same p
  where
    same : r' ≡ r
    same = cc
EndsIn-ok P m r (inr e') e = absurd (clash e' e)
  where
    clash : m ≡ err out_of_bounds → m ≡ ok r → ⊥
    clash x y = cc
