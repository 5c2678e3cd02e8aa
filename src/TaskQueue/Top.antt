-- ===== src/TaskQueue/Top.antt =====
-- The entry that is taken from the heap, and the entries left.
use st_dns.Base.{
  ℕ, ◌≤◌, ◌≡◌, ◌≢◌, refl, sym, List, [], ◌∷◌, true, false, Option, none, some, ltb, if◌then◌else◌,
  arith, All, inl, inr, subst, Bool-cases,
}
use st_dns.TaskQueue.{take_top}

abbrev pub Entry : Type 0
Entry = ℕ × ℕ

-- No two entries have the same id.
abbrev pub Distinct : List Entry → Type 0
Distinct [] = Unit {0}
Distinct (entry ∷ entries) = All (λ (other : Entry). other.0 ≢ entry.0) entries × Distinct entries

-- The entries with one of them left out.
pub data Removes (best : Entry) : List Entry → List Entry → Type 0 where
  here : (entries : List Entry) → Removes best (best ∷ entries) entries
  there :
      (entry : Entry) (entries rest : List Entry)
      → Removes best entries rest
      → Removes best (entry ∷ entries) (entry ∷ rest)

-- The entry is of the highest priority, and the others are left.
pub record Taken (entries rest : List Entry) (best : Entry) : Type 0 where
  pub best_of : All (λ (entry : Entry). entry.1 ≤ best.1) entries
  pub removes : Removes best entries rest

pub Removes-All :
    (P : Entry → Type 0) (best : Entry) (entries rest : List Entry)
    → Removes best entries rest
    → All P entries
    → P best × All P rest
Removes-All P best _ _ (here entries) h = h
Removes-All P best _ _ (there entry entries rest r) h =
    let (of_best, of_rest) = Removes-All P best entries rest r h.1 in (of_best, (h.0, of_rest))

pub Removes-Distinct :
    (best : Entry) (entries rest : List Entry)
    → Removes best entries rest
    → Distinct entries
    → All (λ (other : Entry). other.0 ≢ best.0) rest × Distinct rest
Removes-Distinct best _ _ (here entries) h = h
Removes-Distinct best _ _ (there entry entries rest r) h =
    let others = Removes-All (λ (other : Entry). other.0 ≢ entry.0) best entries rest r h.0 in
    let (apart, distinct) = Removes-Distinct best entries rest r h.1 in
    (((λ same. others.0 (sym same)), apart), (others.1, distinct))

pub All-map :
    (P Q : Entry → Type 0) (entries : List Entry)
    → ((entry : Entry) → P entry → Q entry)
    → All P entries
    → All Q entries
All-map P Q [] f h = tt
All-map P Q (entry ∷ entries) f h = (f entry h.0, All-map P Q entries f h.1)

TakenFrom : List Entry → Option (Entry × List Entry) → Type 0
TakenFrom entries none = entries ≡ []
TakenFrom entries (some (best, rest)) = Taken entries rest best

pick : Entry → List Entry → Option (Entry × List Entry) → Option (Entry × List Entry)
pick entry entries none = some (entry, [])
pick entry entries (some (best, rest)) =
    if ltb entry.1 best.1 then some (best, entry ∷ rest) else some (entry, entries)

pick-Taken :
    (entry : Entry) (entries : List Entry) (o : Option (Entry × List Entry))
    → TakenFrom entries o
    → TakenFrom (entry ∷ entries) (pick entry entries o)
unfolding TakenFrom pick
pick-Taken entry entries none e =
    subst (λ (l : List Entry). Taken (entry ∷ l) [] entry) (sym e)
      (record { best_of = (omega arith, tt); removes = here [] })
pick-Taken entry entries (some (best, rest)) t = elim (Bool-cases (ltb entry.1 best.1)) [
  | inl e ↦
      rw e (record { best_of = (lower e, t.best_of); removes = there entry entries rest t.removes })
  | inr e ↦ rw e (record {
    best_of = (
      omega arith,
      All-map (λ (other : Entry). other.1 ≤ best.1) (λ (other : Entry). other.1 ≤ entry.1) entries
          (λ other h. below other e h) t.best_of,
    );
    removes = here entries;
  })
]
  where
    lower : ltb entry.1 best.1 ≡ true → entry.1 ≤ best.1
    lower e = ground arith

    below : (other : Entry) → ltb entry.1 best.1 ≡ false → other.1 ≤ best.1 → other.1 ≤ entry.1
    below other e h = ground arith

take_top-TakenFrom : (entries : List Entry) → TakenFrom entries (take_top entries)
unfolding take_top TakenFrom pick
take_top-TakenFrom [] = refl
take_top-TakenFrom (entry ∷ entries) =
    subst (TakenFrom (entry ∷ entries)) (same (take_top entries))
      (pick-Taken entry entries (take_top entries) (take_top-TakenFrom entries))
  where
    same :
        (o : Option (Entry × List Entry))
        → pick entry entries o ≡ elim o [
          | none ↦ some (entry, [])
          | some (best, rest) ↦
              if ltb entry.1 best.1 then some (best, entry ∷ rest) else some (entry, entries)
        ]
    same none = refl
    same (some (best, rest)) = refl

-- The entry on top has the highest priority; the entries left are the others.
pub take_top-Taken :
    (entries : List Entry) (best : Entry) (rest : List Entry)
    → take_top entries ≡ some (best, rest)
    → Taken entries rest best
unfolding TakenFrom
take_top-Taken entries best rest h = subst (TakenFrom entries) h (take_top-TakenFrom entries)

-- Nothing is on top of the empty heap alone.
pub nothing_on_top : (entries : List Entry) → take_top entries ≡ none → entries ≡ []
unfolding TakenFrom
nothing_on_top entries h = subst (TakenFrom entries) h (take_top-TakenFrom entries)
