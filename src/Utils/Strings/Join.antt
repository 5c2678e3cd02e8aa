-- ===== src/Utils/Strings/Join.antt =====
-- `split` undoes `join`, for texts without the separator.
use st_dns.Base.{
  ℕ, zero, suc, ◌+◌, ◌≤◌, ◌<◌, ◌≡◌, refl, ◌∙◌, List, [], ◌∷◌, ◌++◌, append_assoc, Bool, true, false,
  Option, none, some, ok, length, ◌==◌, eq→==, length-append, if◌then◌else◌, All, arith,
}
use native.Mathlib.Numerals.{add-one}
use st_dns.Base.Text.{Text, is_empty, starts_with, find}
use st_dns.Utils.Strings.{find_cut, split_loop, split, join_loop, join}
use st_dns.Utils.Strings.Split.{glue, split_loop-glue}

-- A text with some character that is not the separator.
pub record IsItem (ch : ℕ) (text : Text) : Type 0 where
  pub some_ch : 0 < length text
  pub not_found : find ch text ≡ none

glue-append :
    (delimit front value : Text) (lists : List Text)
    → glue delimit ((front ++ value) ∷ lists) ≡ front ++ glue delimit (value ∷ lists)
unfolding glue
glue-append delimit front value [] = refl
glue-append delimit front value (next ∷ lists) =
    append_assoc front value (delimit ++ glue delimit (next ∷ lists))

join_loop-glue :
    (lists : List Text) (delimit result : Text)
    → 0 < length result
    → join_loop lists delimit result ≡ glue delimit (result ∷ lists)
unfolding join_loop glue
join_loop-glue [] delimit result h = refl
join_loop-glue (value ∷ lists) delimit [] h = absurd (omega (arith, h))
join_loop-glue (value ∷ lists) delimit (ch ∷ result) h =
    join_loop-glue lists delimit (((ch ∷ result) ++ delimit) ++ value) (omega arith)
    ∙ glue-append delimit ((ch ∷ result) ++ delimit) value lists
    ∙ append_assoc (ch ∷ result) delimit (glue delimit (value ∷ lists))

long : (text : Text) → 0 < length text → is_empty text ≡ false
long [] k = absurd (omega (arith, k))
long (x ∷ text) k = refl

module _ (ch : ℕ) where
  abbrev pub Items : List Text → Type 0
  Items lines = All (IsItem ch) lines

  pub join-glue : (lines : List Text) → Items lines → join lines (ch ∷ []) ≡ glue (ch ∷ []) lines
  unfolding join join_loop glue
  join-glue [] h = refl
  join-glue (line ∷ lines) h =
      let first : IsItem ch line = h.0 in join_loop-glue lines (ch ∷ []) line first.some_ch

  pub find-cons :
      (x : ℕ) (text : Text)
      → find ch (x ∷ text) ≡ none
      → ((ch == x) ≡ false) × (find ch text ≡ none)
  unfolding find
  find-cons x text h = by_first (x == ch) refl (find ch text) refl h
    where
      by_first :
          (b : Bool)
          → (x == ch) ≡ b
          → (o : Option ℕ) → find ch text ≡ o
          → (if b then some 0 else elim o [ none ↦ none | some i ↦ some (suc i) ]) ≡ none
          → ((ch == x) ≡ false) × (find ch text ≡ none)
      by_first true e o e' k = cc
      by_first false e none e' k = (ground (arith, e), e')
      by_first false e (some i) e' k = cc

  find_cut-none : (text : Text) → find ch text ≡ none → find_cut (ch ∷ []) text ≡ none
  unfolding find_cut find starts_with
  find_cut-none [] h = refl
  find_cut-none (x ∷ text) h =
      let (differs, later) = find-cons x text h in rw (differs, find_cut-none text later) refl

  find_cut_first :
      (text rest : Text)
      → find ch text ≡ none
      → find_cut (ch ∷ []) (text ++ (ch ∷ rest)) ≡ some (text, rest)
  unfolding find_cut find starts_with
  find_cut_first [] rest h = let same : (ch == ch) ≡ true = eq→== ch ch refl in rw same refl
  find_cut_first (x ∷ text) rest h =
      let (differs, later) = find-cons x text h in rw (differs, find_cut_first text rest later) refl

  split_loop-Items :
      (fuel : ℕ) (line : Text) (lines : List Text) (s_cnt : ℕ)
      → Items (line ∷ lines)
      → length lines < fuel
      → split_loop fuel (ch ∷ []) [] (glue (ch ∷ []) (line ∷ lines)) s_cnt 0 ≡ ok (line ∷ lines)
  unfolding split_loop glue
  split_loop-Items zero line lines s_cnt h k = absurd (omega (arith, k))
  split_loop-Items (suc fuel) line [] s_cnt (first, h) k =
      rw (find_cut-none line first.not_found, split_loop) refl
  split_loop-Items (suc fuel) line (next ∷ lines) s_cnt (first, h) k =
      rw
        (
          find_cut_first line (glue (ch ∷ []) (next ∷ lines)) first.not_found,
          split_loop-Items fuel next lines (s_cnt + 1) h (omega (arith, k)),
          split_loop,
        )
        refl

  length-glue : (lines : List Text) → Items lines → length lines ≤ length (glue (ch ∷ []) lines)
  unfolding glue
  length-glue [] h = omega arith
  length-glue (line ∷ []) (first, h) = first.some_ch
  length-glue (line ∷ (next ∷ lines)) (first, h) = omega (
    arith,
    first.some_ch,
    length-append line ((ch ∷ []) ++ glue (ch ∷ []) (next ∷ lines)),
    length-glue (next ∷ lines) h,
  )

  pub split-Items :
      (line : Text) (lines : List Text)
      → Items (line ∷ lines)
      → split (glue (ch ∷ []) (line ∷ lines)) (ch ∷ []) 0 0 ≡ ok (line ∷ lines)
  unfolding split
  split-Items line lines h =
      let size = length-glue (line ∷ lines) h in
      rw (long (glue (ch ∷ []) (line ∷ lines)) (omega (arith, size))) (
        split_loop-Items (length (glue (ch ∷ []) (line ∷ lines)) + 1) line lines 0 h
          (omega (arith, size)))

  split_loop_first :
      (fuel : ℕ) (line rest : Text)
      → find ch line ≡ none
      → length rest < fuel
      → (lines : List Text) × (split_loop (suc fuel) (ch ∷ []) [] (line ++ (ch ∷ rest)) 0 0
          ≡ ok (line ∷ lines))
  unfolding split_loop
  split_loop_first fuel line rest h k =
      let later = split_loop-glue fuel (ch ∷ []) [] rest 1 0 (omega arith) k in
      (later.0, rw (find_cut_first line rest h, later.1.0, split_loop) refl)

  -- The first line of a text.
  pub split_first :
      (line rest : Text)
      → find ch line ≡ none
      → (lines : List Text) × (split (line ++ (ch ∷ rest)) (ch ∷ []) 0 0 ≡ ok (line ∷ lines))
  unfolding split
  split_first line rest h =
      let text : Text = line ++ (ch ∷ rest) in
      let size = length-append line (ch ∷ rest) in
      let (lines, e) = split_loop_first (length text) line rest h (omega (arith, size)) in
      (lines, rw (long text (omega (arith, size)), add-one (length text)) e)

  -- split gives back the texts that join put together with a separator of one character, if each
  -- has some character and none the separator.
  pub split-join :
      (lines : List Text) → Items lines → split (join lines (ch ∷ [])) (ch ∷ []) 0 0 ≡ ok lines
  unfolding split join join_loop
  split-join [] h = refl
  split-join (line ∷ lines) h = rw (join-glue (line ∷ lines) h) (split-Items line lines h)
