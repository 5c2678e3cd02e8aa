-- ===== src/Base/Assoc.antt =====
-- Maps as lists of entries, the first of which counts.
use mathlib.Core.Path.{◌≡◌, refl, sym, ap, ◌∙◌}
use mathlib.Core.Logic.{◌≢◌, ◌⊎◌, inl, inr}
use mathlib.Core.Bool.{Bool, true, false}
use mathlib.Core.Option.{Option, none, some}
use mathlib.Core.List.{List, [], ◌∷◌}
use st_dns.Base.Tests.{if◌then◌else◌, Bool-cases}
use st_dns.Base.Text.{Text, text_eq, text_eq→eq, text_eq_refl}

unfoldable pub lookup {ℓ} : {V : Type ℓ} → Text → List (Text × V) → Option V
lookup key [] = none
lookup key ((k, v) ∷ items) = let rest = lookup key items in if text_eq k key then some v else rest

-- The value of the key's entry is replaced, or an entry is inserted.
unfoldable pub assign {ℓ} : {V : Type ℓ} → Text → V → List (Text × V) → List (Text × V)
assign key value [] = (key, value) ∷ []
assign key value ((k, v) ∷ kv) =
    let rest = assign key value kv in if text_eq k key then (k, value) ∷ kv else (k, v) ∷ rest

unfoldable pub remove_key {ℓ} : {V : Type ℓ} → Text → List (Text × V) → List (Text × V)
remove_key key [] = []
remove_key key ((k, v) ∷ kv) =
    let rest = remove_key key kv in if text_eq k key then rest else (k, v) ∷ rest

-- The tests for two different keys commute.
swap_tests {ℓ} :
    {V : Type ℓ} (x y z : Option V) (k key other : Text)
    → text_eq k key ≡ false
    → (if text_eq k other then x else (if text_eq key other then y else z))
      ≡ (if text_eq key other then y else (if text_eq k other then x else z))
swap_tests {V = V} x y z k key other differs = swap (text_eq k other) (text_eq key other) refl refl
  where
    distinct : k ≢ key
    distinct same = clash (ap (λ (t : Text). text_eq t key) same)
      where
        clash : text_eq k key ≡ text_eq key key → ⊥
        clash e = cc (text_eq_refl key, differs, e)

    swap :
        (b b' : Bool)
        → text_eq k other ≡ b
        → text_eq key other ≡ b'
        → (if b then x else (if b' then y else z)) ≡ (if b' then y else (if b then x else z))
    swap true true e e' = absurd (distinct (text_eq→eq k other e ∙ sym (text_eq→eq key other e')))
    swap true false e e' = refl
    swap false true e e' = refl
    swap false false e e' = refl

pub lookup-assign {ℓ} :
    {V : Type ℓ} (key : Text) (value : V) (other : Text) (kv : List (Text × V))
    → lookup other (assign key value kv)
      ≡ (if text_eq key other then some value else lookup other kv)
unfolding lookup assign
lookup-assign {V = V} key value other [] = refl
lookup-assign {V = V} key value other ((k, v) ∷ kv) =
    by_key (lookup-assign key value other kv) (Bool-cases (text_eq k key))
  where
    by_key :
        lookup other (assign key value kv)
          ≡ (if text_eq key other then some value else lookup other kv)
        → (text_eq k key ≡ true) ⊎ (text_eq k key ≡ false)
        → lookup other (if text_eq k key then (k, value) ∷ kv else (k, v) ∷ assign key value kv) ≡ (
            if text_eq key other
            then some value
            else (if text_eq k other then some v else lookup other kv))
    by_key later (inl same) = rw (same, text_eq→eq k key same) (twice (text_eq key other))
      where
        twice :
            (b : Bool)
            → Path
                (Option V)
                (if b then some value else lookup other kv)
                (if b then some value else (if b then some v else lookup other kv))
        twice true = refl
        twice false = refl
    by_key later (inr differs) =
        rw (differs, later) (swap_tests (some v) (some value) (lookup other kv) k key other differs)

pub lookup-remove_key {ℓ} :
    {V : Type ℓ} (key other : Text) (kv : List (Text × V))
    → lookup other (remove_key key kv) ≡ (if text_eq key other then none else lookup other kv)
unfolding lookup remove_key
lookup-remove_key {V = V} key other [] = sym (same_either (text_eq key other))
  where
    same_either : (b : Bool) → Path (Option V) (if b then none else none) none
    same_either true = refl
    same_either false = refl
lookup-remove_key {V = V} key other ((k, v) ∷ kv) =
    by_key (lookup-remove_key key other kv) (Bool-cases (text_eq k key))
  where
    by_key :
        lookup other (remove_key key kv) ≡ (if text_eq key other then none else lookup other kv)
        → (text_eq k key ≡ true) ⊎ (text_eq k key ≡ false)
        → lookup other (if text_eq k key then remove_key key kv else (k, v) ∷ remove_key key kv) ≡ (
            if text_eq key other
            then none
            else (if text_eq k other then some v else lookup other kv))
    by_key later (inl same) = rw (same, later, text_eq→eq k key same) (twice (text_eq key other))
      where
        twice :
            (b : Bool)
            → Path
                (Option V)
                (if b then none else lookup other kv)
                (if b then none else (if b then some v else lookup other kv))
        twice true = refl
        twice false = refl
    by_key later (inr differs) =
        rw (differs, later) (swap_tests (some v) none (lookup other kv) k key other differs)
