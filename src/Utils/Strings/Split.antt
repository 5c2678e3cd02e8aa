-- ===== src/Utils/Strings/Split.antt =====
-- What `split` finds, and that it undoes `join`.
use st_dns.Base.{
  take-drop, ℕ, zero, suc, ◌+◌, ◌<◌, ◌≡◌, refl, sym, ap, ◌∙◌, List, [], ◌∷◌, ◌++◌, append_assoc,
  Bool, true, false, not, ◌&&◌, Option, none, some, Outcome, ok, ◌>>=◌, take, drop, length, leb,
  ◌==◌, length-append, if◌then◌else◌, arith,
}
use st_dns.Base.Text.{Text, starts_with}
use st_dns.Utils.Strings.{find_cut, split_loop, split}

starts_with-drop :
    (part text : Text) → starts_with part text ≡ true → text ≡ part ++ drop (length part) text
unfolding starts_with
starts_with-drop [] text h = refl
starts_with-drop (ch ∷ part) [] h = cc
starts_with-drop (ch ∷ part) (b ∷ text) h = ground (arith, h, starts_with-drop part text)

find_cut-parts :
    (separator text line rest : Text)
    → find_cut separator text ≡ some (line, rest)
    → text ≡ line ++ (separator ++ rest)
unfolding find_cut
find_cut-parts [] [] line rest h =
    let no_line : line ≡ [] = cc in let no_rest : rest ≡ [] = cc in rw (no_line, no_rest) refl
find_cut-parts (c ∷ separator) [] line rest h = cc
find_cut-parts separator (ch ∷ text) line rest h =
    by_start (starts_with separator (ch ∷ text)) (starts_with-drop separator (ch ∷ text))
      (find_cut separator text) (find_cut-parts separator text) h
  where
    by_start :
        (b : Bool)
        → (b ≡ true → ch ∷ text ≡ separator ++ drop (length separator) (ch ∷ text))
        → (o : Option (Text × Text))
        → ((line' rest' : Text) → o ≡ some (line', rest') → text ≡ line' ++ (separator ++ rest'))
        → if◌then◌else◌ {A = Option (Text × Text)} b
            (some ([], drop (length separator) (ch ∷ text)))
            (elim o [ none ↦ none | some (line', text') ↦ some (ch ∷ line', text') ])
          ≡ some (line, rest)
        → ch ∷ text ≡ line ++ (separator ++ rest)
    by_start true here o later e =
        let no_line : line ≡ [] = cc in
        let same : rest ≡ drop (length separator) (ch ∷ text) = cc in rw (no_line, same) (here refl)
    by_start false here none later e = cc
    by_start false here (some (line', text')) later e =
        let same_line : line ≡ ch ∷ line' = cc in
        let same : rest ≡ text' = cc in
        rw (same_line, same) (ap (λ (t : Text). ch ∷ t) (later line' text' refl))

-- The lines with the separator between them.
unfoldable pub glue : Text → List Text → Text
glue separator [] = []
glue separator (line ∷ []) = line
glue separator (line ∷ (next ∷ lines)) = line ++ (separator ++ glue separator (next ∷ lines))

pub glue-cons :
    (separator line : Text) (lines : List Text)
    → 0 < length lines
    → glue separator (line ∷ lines) ≡ line ++ (separator ++ glue separator lines)
unfolding glue
glue-cons separator line [] h = absurd (omega (arith, h))
glue-cons separator line (next ∷ lines) h = refl

-- The outcome of the loop: lines that with the separator between them make up this text.
abbrev pub Lines : Text → Text → Outcome (List Text) → Type 0
Lines separator text r =
    (lines : List Text) × ((r ≡ ok lines) × (0 < length lines) × (glue separator lines ≡ text))

pub split_loop-glue :
    (fuel : ℕ) (separator front text : Text) (s_cnt spit_cnt : ℕ)
    → 0 < length separator
    → length text < fuel
    → Lines separator (front ++ text) (split_loop fuel separator front text s_cnt spit_cnt)
unfolding split_loop glue
split_loop-glue zero separator front text s_cnt spit_cnt some_ch h = absurd (omega (arith, h))
split_loop-glue (suc fuel) separator front text s_cnt spit_cnt some_ch h =
    by_cut (find_cut separator text) (find_cut-parts separator text)
      (split_loop-glue fuel separator [])
  where
    by_cut :
        (o : Option (Text × Text))
        → ((line rest : Text) → o ≡ some (line, rest) → text ≡ line ++ (separator ++ rest))
        → ((rest : Text) (s_cnt spit_cnt : ℕ)
            → 0 < length separator
            → length rest < fuel
            → Lines separator rest (split_loop fuel separator [] rest s_cnt spit_cnt))
        → Lines separator (front ++ text) (elim o [
          | none ↦ ok ((front ++ text) ∷ [])
          | some (line, rest) ↦ elim (not (spit_cnt == 0) && leb spit_cnt (s_cnt + 1)) [
            | true ↦ ok ((front ++ line) ∷ rest ∷ [])
            | false ↦ split_loop fuel separator [] rest (s_cnt + 1) spit_cnt >>= λ lines.
                ok ((front ++ line) ∷ lines)
          ]
        ])
    by_cut none parts ih = ((front ++ text) ∷ [], (refl, omega arith, refl))
    by_cut (some (line, rest)) parts ih =
        by_count (not (spit_cnt == 0) && leb spit_cnt (s_cnt + 1))
          (ih rest (s_cnt + 1) spit_cnt some_ch shorter)
      where
        whole : (front ++ line) ++ (separator ++ rest) ≡ front ++ text
        whole =
            append_assoc front line (separator ++ rest)
            ∙ ap (λ (t : Text). front ++ t) (sym (parts line rest refl))

        shorter : length rest < fuel
        shorter = omega (
          arith,
          h,
          some_ch,
          ap length (parts line rest refl),
          length-append line (separator ++ rest),
          length-append separator rest,
        )

        by_count :
            (b : Bool)
            → Lines separator rest (split_loop fuel separator [] rest (s_cnt + 1) spit_cnt)
            → Lines separator (front ++ text) (elim b [
              | true ↦ ok ((front ++ line) ∷ rest ∷ [])
              | false ↦ split_loop fuel separator [] rest (s_cnt + 1) spit_cnt >>= λ lines.
                  ok ((front ++ line) ∷ lines)
            ])
        by_count true later = ((front ++ line) ∷ rest ∷ [], (refl, omega arith, whole))
        by_count false (lines, (e, k, glued)) = (
          (front ++ line) ∷ lines,
          (rw e refl, omega arith, glue-cons separator (front ++ line) lines k ∙ rw glued whole),
        )

-- For a separator that is not empty, split ends on every text, from any start and for any count,
-- and its lines with the separator between them are the text.
pub split-glue :
    (str separator : Text) (start spit_cnt : ℕ)
    → 0 < length separator
    → (lines : List Text) × ((split str separator start spit_cnt ≡ ok lines)
        × (glue separator lines ≡ str))
unfolding split glue
split-glue [] separator start spit_cnt h = ([], (refl, refl))
split-glue (ch ∷ str) separator start spit_cnt h =
    let text : Text = ch ∷ str in
    let size = ap length (take-drop start text) in
    let (lines, (e, k, glued)) =
      split_loop-glue (length text + 1) separator (take start text) (drop start text) 0 spit_cnt h
        (omega (arith, size, length-append (take start text) (drop start text))) in
    (lines, (e, glued ∙ take-drop start text))
