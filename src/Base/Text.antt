-- ===== src/Base/Text.antt =====
-- `std::string` as the list of its bytes: equality, search, upper case, and the decimal numbers.
use Prim.Native.Char.{code}
use Prim.Native.String.{String}
use st_dns.Base.Tests.{◌==◌, if◌then◌else◌, leb}
use Prim.Native.Nat.{ℕ, suc, ◌+◌, ◌-◌}
use mathlib.Core.Path.{◌≡◌, refl}
use mathlib.Core.Logic.{◌↔◌, ◌≢◌}
use mathlib.Core.Bool.{Bool, true, false, ◌&&◌}
use mathlib.Core.Option.{Option, none, some}
use mathlib.Core.List.{List, [], ◌∷◌}
use native.Mathlib.Omega.{arith}

abbrev pub Text : Type 0
Text = List ℕ

-- The bytes of a literal.
abbrev pub codes : String → Text
codes String.[] = []
codes (String.◌∷◌ c s) = code c ∷ codes s

-- `a == b` on strings.
abbrev pub text_eq : Text → Text → Bool
text_eq [] [] = true
text_eq [] (b ∷ t) = false
text_eq (a ∷ s) [] = false
text_eq (a ∷ s) (b ∷ t) = a == b && text_eq s t

pub text_eq_refl : (s : Text) → text_eq s s ≡ true
text_eq_refl [] = refl
text_eq_refl (a ∷ s) = ground (arith, text_eq_refl s)

pub text_eq→eq : (s t : Text) → text_eq s t ≡ true → s ≡ t
text_eq→eq [] [] h = refl
text_eq→eq [] (b ∷ t) h = cc
text_eq→eq (a ∷ s) [] h = cc
text_eq→eq (a ∷ s) (b ∷ t) h = ground (arith, text_eq→eq s t)

pub text_eq_iff : (s t : Text) → (text_eq s t ≡ true) ↔ (s ≡ t)
text_eq_iff s t = (text_eq→eq s t, λ e. rw e (text_eq_refl t))

pub ne→text_eq : (s t : Text) → s ≢ t → text_eq s t ≡ false
ne→text_eq s t h = ground (arith, text_eq→eq s t)

-- `s.empty()`
abbrev pub is_empty : Text → Bool
is_empty [] = true
is_empty (c ∷ s) = false

-- Whether the second text begins with the first.
unfoldable pub starts_with : Text → Text → Bool
starts_with [] text = true
starts_with (ch ∷ part) [] = false
starts_with (ch ∷ part) (b ∷ text) = let rest = starts_with part text in ch == b && rest

-- `::toupper` and `::tolower` in the C locale.
unfoldable pub to_upper : ℕ → ℕ
to_upper c = if leb b'a' c && leb c b'z' then c - 32 else c

unfoldable pub to_lower : ℕ → ℕ
to_lower c = if leb b'A' c && leb c b'Z' then c + 32 else c

-- The place of the first `c`, `find_first_of` from the start of the list.
unfoldable pub find : ℕ → Text → Option ℕ
find c [] = none
find c (x ∷ s) = if x == c then some 0 else elim (find c s) [ none ↦ none | some i ↦ some (suc i) ]

-- The place of the last `c`, `find_last_of`.
unfoldable pub find_last : ℕ → Text → Option ℕ
find_last c [] = none
find_last c (x ∷ s) = elim (find_last c s) [
  | some i ↦ some (suc i)
  | none ↦ if x == c then some 0 else none
]
