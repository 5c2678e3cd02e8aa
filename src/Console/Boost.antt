-- ===== src/Console/Boost.antt =====
-- The documented behaviour of boost's `trim` and of its program_options.
use st_dns.Base.{ℕ, ◌≡◌, refl, ap, [], ◌∷◌, ◌++◌, true, false, ok, All}
use st_dns.Base.Text.{Text, codes}
use st_dns.Utils.AreaIp.{is_blank}
use st_dns.Console.{BoostFunctions}

pub record IsBoost (boost : BoostFunctions) : Type 0 where
  pub trim-nothing : boost.trim [] ≡ []
  pub trim-front :
      (ch : ℕ) (text : Text) → is_blank ch ≡ true → boost.trim (ch ∷ text) ≡ boost.trim text
  pub trim-back :
      (ch : ℕ) (text : Text) → is_blank ch ≡ true → boost.trim (text ++ (ch ∷ [])) ≡ boost.trim text
  pub trim-kept :
      (first last : ℕ) (text front : Text)
      → is_blank first ≡ false
      → is_blank last ≡ false
      → first ∷ text ≡ front ++ (last ∷ [])
      → boost.trim (first ∷ text) ≡ first ∷ text
  pub parse_ip :
      (ch : ℕ) (text : Text)
      → boost.parse_options ((codes "--ip=" ++ (ch ∷ text)) ∷ [])
        ≡ ok (record { domain = []; ip = ch ∷ text })

-- The last character of a text.
pub last_of {ℓ} :
    (P : ℕ → Type ℓ) (first : ℕ) (text : Text)
    → All P (first ∷ text)
    → (front : Text) × (last : ℕ) × ((first ∷ text ≡ front ++ (last ∷ [])) × P last)
last_of P first [] h = ([], first, (refl, h.0))
last_of P first (next ∷ text) h =
    let (front, last, (e, p)) = last_of P next text h.1 in
    (first ∷ front, last, (ap (λ (t : Text). first ∷ t) e, p))

-- No blank.
abbrev pub Solid : Text → Type 0
Solid text = All (λ (ch : ℕ). is_blank ch ≡ false) text

module _ (boost : BoostFunctions) (laws : IsBoost boost) where
  pub trim-Solid : (text : Text) → Solid text → boost.trim text ≡ text
  trim-Solid [] h = laws.trim-nothing
  trim-Solid (first ∷ text) h =
      let (front, last, (e, p)) = last_of (λ (ch : ℕ). is_blank ch ≡ false) first text h in
      laws.trim-kept first last text front h.0 p e
