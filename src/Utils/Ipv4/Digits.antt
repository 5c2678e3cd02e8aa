-- ===== src/Utils/Ipv4/Digits.antt =====
-- The decimal digits of a byte, as they are written and read.
use st_dns.Base.{
  ℕ, suc, ◌+◌, ◌*◌, ◌/◌, ◌%◌, ◌≤◌, ◌<◌, ◌≡◌, refl, sym, subst, ◌∙◌, ◌⊎◌, inl, inr, [], ◌∷◌, ◌++◌,
  false, none, some, length, arith, lt→ltb, le→ltb,
}
use st_dns.Base.Text.{Text, find}
use st_dns.Utils.Ipv4.{digits, to_string, number, is_rejected}

-- What may follow a number: nothing, or a character that is no digit.
abbrev pub Stops : Text → Type 0
Stops text = number 0 text ≡ 0

-- A number is written with one, two or three digits.
pub record Written (n : ℕ) (text : Text) : Type 0 where
  pub some_ch : 0 < length text
  pub found : (rest : Text) → find b'.' (text ++ (b'.' ∷ rest)) ≡ some (length text)
  pub none_found : find b'.' text ≡ none
  pub accepted : (rest : Text) → is_rejected (text ++ rest) ≡ false
  pub read_dot : (rest : Text) → number 0 (text ++ (b'.' ∷ rest)) ≡ n
  pub read_end : number 0 text ≡ n

one-Written : (a : ℕ) → a < 10 → Written a ((b'0' + a) ∷ [])
unfolding number is_rejected find
one-Written a h = record {
  some_ch = omega arith;
  found = λ rest. ground (arith, h);
  none_found = ground (arith, h);
  accepted = λ rest. ground (arith, h);
  read_dot = λ rest. ground (arith, h);
  read_end = ground (arith, h);
}

two-Written : (a b : ℕ) → a < 10 → b < 10 → Written (a * 10 + b) ((b'0' + a) ∷ (b'0' + b) ∷ [])
unfolding number is_rejected find
two-Written a b h h' = record {
  some_ch = omega arith;
  found = λ rest. ground (arith, h, h');
  none_found = ground (arith, h, h');
  accepted = λ rest. ground (arith, h);
  read_dot = λ rest. ground (arith, h, h');
  read_end = ground (arith, h, h');
}

three-Written :
    (a b c : ℕ)
    → a < 10
    → b < 10
    → c < 10
    → Written ((a * 10 + b) * 10 + c) ((b'0' + a) ∷ (b'0' + b) ∷ (b'0' + c) ∷ [])
unfolding number is_rejected find
three-Written a b c h h' h'' = record {
  some_ch = omega arith;
  found = λ rest. ground (arith, h, h', h'');
  none_found = ground (arith, h, h', h'');
  accepted = λ rest. ground (arith, h);
  read_dot = λ rest. ground (arith, h, h', h'');
  read_end = ground (arith, h, h', h'');
}

digits_last :
    (left n : ℕ) (text : Text) → n < 10 → digits (suc left) n text ≡ (b'0' + n % 10) ∷ text
unfolding digits
digits_last left n text h = rw (lt→ltb n 10 h) refl

digits_more :
    (left n : ℕ) (text : Text)
    → 10 ≤ n
    → digits (suc left) n text ≡ digits left (n / 10) ((b'0' + n % 10) ∷ text)
unfolding digits
digits_more left n text h = rw (le→ltb n 10 h) refl

same_Written :
    (n m : ℕ) (text text' : Text) → m ≡ n → text' ≡ text → Written m text → Written n text'
same_Written n m text text' e e' w =
    subst (λ (k : ℕ). Written k text') e (subst (λ (t : Text). Written m t) (sym e') w)

size_cases : (n : ℕ) → (n < 10) ⊎ (((10 ≤ n) × (n < 100)) ⊎ (100 ≤ n))
size_cases n = ground arith

-- The digits of a byte.
pub to_string-Written : (n : ℕ) → n < 256 → Written n (to_string n)
to_string-Written n h = by_size (size_cases n)
  where
    by_size : (n < 10) ⊎ (((10 ≤ n) × (n < 100)) ⊎ (100 ≤ n)) → Written n (to_string n)
    by_size (inl few) =
        same_Written n (n % 10) _ _ (omega (arith, few)) (digits_last 9 n [] few)
          (one-Written (n % 10) (omega arith))
    by_size (inr (inl (more, few))) =
        same_Written n (n / 10 % 10 * 10 + n % 10) _ _ (omega (arith, few))
          (digits_more 9 n [] more ∙ digits_last 8 (n / 10) _ (omega (arith, few)))
          (two-Written (n / 10 % 10) (n % 10) (omega arith) (omega arith))
    by_size (inr (inr more)) =
        same_Written n ((n / 10 / 10 % 10 * 10 + n / 10 % 10) * 10 + n % 10) _ _ (omega (arith, h))
          (digits_more 9 n [] (omega (arith, more))
            ∙ digits_more 8 (n / 10) _ (omega (arith, more))
            ∙ digits_last 7 (n / 10 / 10) _ (omega (arith, h)))
          (three-Written (n / 10 / 10 % 10) (n / 10 % 10) (n % 10) (omega arith) (omega arith)
            (omega arith))
