-- ===== src/Utils/Ipv4/Chars.antt =====
-- The characters of decimal numbers and of addresses, and that a number is read back.
use st_dns.Base.{
  ℕ, zero, suc, ◌+◌, ◌-◌, ◌*◌, ◌/◌, ◌%◌, ◌^◌, ◌≤◌, ◌<◌, ◌≡◌, refl, ◌∙◌, ap, [], ◌∷◌, ◌++◌, true,
  false, ◌&&◌, none, length, length-append, ltb, leb, ◌==◌, lt→ltb, if_either, All, All-append,
  arith, ◌⊎◌, inl, inr,
}
use native.Mathlib.Nat.{pow-suc}
use st_dns.Base.Text.{Text, find}
use st_dns.Utils.Ipv4.{digits, to_string, number, ip_to_str}

-- A dot or a digit, among others.
abbrev pub Plain : ℕ → Type 0
Plain ch = (b'.' ≤ ch) × (ch ≤ b'9')

digits-Plain : (left n : ℕ) (text : Text) → All Plain text → All Plain (digits left n text)
unfolding digits
digits-Plain zero n text h = h
digits-Plain (suc left) n text h =
    if_either (All Plain) (ltb n 10) (λ e. added) (λ e. digits-Plain left (n / 10) _ added)
  where
    added : All Plain ((b'0' + n % 10) ∷ text)
    added = ((omega arith, omega arith), h)

digits-grows : (left n : ℕ) (text : Text) → length text ≤ length (digits left n text)
unfolding digits
digits-grows zero n text = omega arith
digits-grows (suc left) n text =
    if_either (λ (t : Text). length text ≤ length t) (ltb n 10) (λ e. omega arith)
      (λ e. omega (arith, digits-grows left (n / 10) ((b'0' + n % 10) ∷ text)))

length-digits : (left n : ℕ) (text : Text) → length (digits left n text) ≤ left + length text
unfolding digits
length-digits zero n text = omega arith
length-digits (suc left) n text =
    if_either (λ (t : Text). length t ≤ suc left + length text) (ltb n 10) (λ e. omega arith)
      (λ e. omega (arith, length-digits left (n / 10) ((b'0' + n % 10) ∷ text)))

pub length-ip_to_str : (ip : ℕ) → length (ip_to_str ip) ≤ 43
unfolding ip_to_str
length-ip_to_str ip = part _ _ 32 (part _ _ 21 (part _ _ 10 (length-digits 10 (ip % 2 ^ 8) [])))
  where
    part :
        (n : ℕ) (rest : Text) (bound : ℕ)
        → length rest ≤ bound
        → length (to_string n ++ (b'.' ∷ rest)) ≤ 11 + bound
    part n rest bound h =
        omega (arith, h, length-append (to_string n) (b'.' ∷ rest), length-digits 10 n [])

pub to_string-Plain : (n : ℕ) → All Plain (to_string n)
to_string-Plain n = digits-Plain 10 n [] tt

pub to_string_nonempty : (n : ℕ) → 0 < length (to_string n)
unfolding digits
to_string_nonempty n =
    if_either (λ (t : Text). 0 < length t) (ltb n 10) (λ e. omega arith)
      (λ e. omega (arith, digits-grows 9 (n / 10) ((b'0' + n % 10) ∷ [])))

pub ip_to_str-Plain : (ip : ℕ) → All Plain (ip_to_str ip)
unfolding ip_to_str
ip_to_str-Plain ip = part _ _ (part _ _ (part _ _ (to_string-Plain (ip % 2 ^ 8))))
  where
    part : (n : ℕ) (rest : Text) → All Plain rest → All Plain (to_string n ++ (b'.' ∷ rest))
    part n rest h =
        All-append Plain (to_string n) (b'.' ∷ rest) (to_string-Plain n)
          ((omega arith, omega arith), h)

pub ip_to_str_nonempty : (ip : ℕ) → 0 < length (ip_to_str ip)
unfolding ip_to_str
ip_to_str_nonempty ip = longer _ _
  where
    longer : (n : ℕ) (rest : Text) → 0 < length (to_string n ++ (b'.' ∷ rest))
    longer n rest = omega (arith, length-append (to_string n) (b'.' ∷ rest))

-- A character below or above those is not found.
pub find_not-Plain :
    (ch : ℕ) (text : Text) → (ch < b'.') ⊎ (b'9' < ch) → All Plain text → find ch text ≡ none
unfolding find
find_not-Plain ch [] h k = refl
find_not-Plain ch (x ∷ text) h (k, l) =
    let differs : (x == ch) ≡ false = by_side h in rw (differs, find_not-Plain ch text h l) refl
  where
    by_side : (ch < b'.') ⊎ (b'9' < ch) → (x == ch) ≡ false
    by_side (inl low) = ground (arith, k, low)
    by_side (inr high) = ground (arith, k, high)

number-digit :
    (acc d : ℕ) (text : Text) → d < 10 → number acc ((b'0' + d) ∷ text) ≡ number (acc * 10 + d) text
unfolding number
number-digit acc d text h =
    let accepted : (leb b'0' (b'0' + d) && leb (b'0' + d) b'9') ≡ true = ground (arith, h) in
    let value : acc * 10 + (b'0' + d - b'0') ≡ acc * 10 + d = omega arith in
    rw (accepted, value) refl

ltb-small : (n : ℕ) → ltb n 10 ≡ true → 0 * 10 + n % 10 ≡ n
ltb-small n e = let h : n < 10 = ground (arith, e) in omega (arith, h)

number-digits :
    (left n : ℕ) (text : Text)
    → n < 10 ^ suc left
    → number 0 (digits (suc left) n text) ≡ number n text
unfolding digits
number-digits zero n text h =
    let small : n < 10 = omega (arith, h, pow-suc 10 0) in
    let here : ltb n 10 ≡ true = lt→ltb n 10 small in
    rw here (
      number-digit 0 (n % 10) text (omega arith) ∙ ap (λ (k : ℕ). number k text) (ltb-small n here))
number-digits (suc left) n text h =
    if_either (λ (t : Text). number 0 t ≡ number n text) (ltb n 10)
      (λ e.
        number-digit 0 (n % 10) text (omega arith) ∙ ap (λ (k : ℕ). number k text) (ltb-small n e))
      (λ e.
        number-digits left (n / 10) ((b'0' + n % 10) ∷ text)
          (omega (arith, h, pow-suc 10 (suc left)))
        ∙ number-digit (n / 10) (n % 10) text (omega arith)
        ∙ ap (λ (k : ℕ). number k text) (omega arith))

-- A number with ten digits at most is read back.
pub number-to_string : (n : ℕ) → n < 10 ^ 10 → number 0 (to_string n) ≡ n
unfolding number
number-to_string n h = number-digits 9 n [] h
