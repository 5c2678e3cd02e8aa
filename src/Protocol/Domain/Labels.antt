-- ===== src/Protocol/Domain/Labels.antt =====
-- The loop of `parse` over the labels of a name.
use st_dns.Base.{
  ℕ, zero, suc, ◌+◌, ◌-◌, ◌/◌, ◌^◌, ◌<◌, ◌≡◌, refl, ap, ◌∙◌, ◌≢◌, List, [], ◌∷◌, ◌++◌, append_assoc,
  append-cons_shift, false, Outcome, ok, load-append_at, length, length-append, arith, ◌==◌, All,
  bit_and, lt→ltb, le→ltb,
}
use st_dns.Base.Bits.{bit_and-shifted}
use st_dns.Base.Text.{Text}
use st_dns.Protocol.Domain.{stop, more, add_label, load_range, label_step, parse_step, parse_loop}
use st_dns.Protocol.Domain.Generate.{wire_labels, load_range-append, c_str-whole}

-- A label that the wire format can hold: 1 to 63 bytes, none of them 0.
pub record IsLabel (label : Text) : Type 0 where
  pub nonempty : 0 < length label
  pub short : length label < 64
  pub plain : All (λ (ch : ℕ). ch ≢ 0) label

-- The domain after the labels are added one by one.
abbrev pub add_labels : Text → List Text → Text
add_labels domain [] = domain
add_labels domain (label ∷ labels) = add_labels (add_label domain label) labels

top_bits : (b : ℕ) → b < 64 → bit_and b 0xc0 ≡ 0
top_bits b h = let e : b / 2 ^ 6 ≡ 0 = omega arith in bit_and-shifted 6 b 3 ∙ rw e

pos→== : (n : ℕ) → 0 < n → (n == 0) ≡ false
pos→== n h = ground arith

module _ (again : ℕ → ℕ → Outcome (ℕ × Text)) (start size begin max_parse : ℕ) where
  pub label_round :
      (front label rest domain : Text) (actual_len : ℕ)
      → start + actual_len ≡ length front
      → actual_len + length label < max_parse
      → IsLabel label
      → parse_step again
          (front ++ (length label ∷ (label ++ rest)))
          start
          size
          begin
          max_parse
          actual_len
          domain
        ≡ ok (more (actual_len + 1 + length label) (add_label domain label))
  unfolding parse_step label_step
  label_round front label rest domain actual_len hs hm l = rw (
    load-append_at front (label ++ rest) (length label) (start + actual_len) hs,
    top_bits (length label) l.short,
    pos→== (length label) l.nonempty,
    le→ltb (max_parse - (actual_len + 1)) (length label) (omega (arith, hm)),
    found,
    c_str-whole label l.plain,
  )
    where
      found :
          load_range
            (front ++ (length label ∷ (label ++ rest)))
            (start + (actual_len + 1))
            (length label)
          ≡ ok label
      found =
          ap (λ (b : Text). load_range b (start + (actual_len + 1)) (length label))
            (append-cons_shift front (length label) label rest)
          ∙ load_range-append (front ++ (length label ∷ [])) label rest (start + (actual_len + 1))
              (length label) (omega (arith, length-append front (length label ∷ []))) refl

  pub last_round :
      (front rest domain : Text) (actual_len : ℕ)
      → start + actual_len ≡ length front
      → parse_step again (front ++ (0 ∷ rest)) start size begin max_parse actual_len domain
        ≡ ok (stop (actual_len + 1) domain)
  unfolding parse_step label_step
  last_round front rest domain actual_len hs =
      rw (load-append_at front rest 0 (start + actual_len) hs)

  module _ (buf : Text) (actual_len fuel : ℕ) (domain : Text)
      (goes_on : actual_len < max_parse) where
    pub parse_loop_stop :
        {actual_len' : ℕ} {domain' : Text}
        → parse_step again buf start size begin max_parse actual_len domain
          ≡ ok (stop actual_len' domain')
        → parse_loop again (suc fuel) buf start size begin max_parse actual_len domain
          ≡ ok (actual_len', domain')
    unfolding parse_loop
    parse_loop_stop e = rw (lt→ltb actual_len max_parse goes_on, e, parse_loop)

    pub parse_loop_more :
        {actual_len' : ℕ} {domain' : Text}
        → parse_step again buf start size begin max_parse actual_len domain
          ≡ ok (more actual_len' domain')
        → parse_loop again (suc fuel) buf start size begin max_parse actual_len domain
          ≡ parse_loop again fuel buf start size begin max_parse actual_len' domain'
    unfolding parse_loop
    parse_loop_more e = rw (lt→ltb actual_len max_parse goes_on, e, parse_loop)

  -- The loop over a written name adds its labels and stops behind the last 0.
  pub parse_loop-wire_labels :
      (labels : List Text) (front rest domain : Text) (actual_len fuel : ℕ)
      → start + actual_len ≡ length front
      → actual_len + length (wire_labels labels) < max_parse
      → length labels < fuel
      → All IsLabel labels
      → parse_loop again fuel
          (front ++ ((wire_labels labels ++ (0 ∷ [])) ++ rest))
          start
          size
          begin
          max_parse
          actual_len
          domain
        ≡ ok (actual_len + length (wire_labels labels) + 1, add_labels domain labels)
  parse_loop-wire_labels labels front rest domain actual_len zero hs hm hf hl = absurd (omega arith)
  parse_loop-wire_labels [] front rest domain actual_len (suc fuel) hs hm hf hl =
      parse_loop_stop _ actual_len fuel domain (omega arith)
        (last_round front rest domain actual_len hs)
      ∙ ap (λ (n : ℕ). ok (n, domain)) (omega arith)
  parse_loop-wire_labels (label ∷ labels) front rest domain actual_len (suc fuel) hs hm hf hl =
      ap (λ (b : Text). parse_loop again (suc fuel) b start size begin max_parse actual_len domain)
        here
      ∙ parse_loop_more _ actual_len fuel domain (omega arith)
          (label_round front label tail domain actual_len hs (omega (arith, sum)) hl.0)
      ∙ ap
          (λ (b : Text).
            parse_loop again fuel b start size begin max_parse (actual_len + 1 + length label)
              (add_label domain label))
          there
      ∙ parse_loop-wire_labels labels front' rest (add_label domain label)
          (actual_len + 1 + length label) fuel
          (omega (arith, length-append front (length label ∷ label))) (omega (arith, sum))
          (omega arith) hl.1
      ∙ ap (λ (n : ℕ). ok (n, add_labels (add_label domain label) labels)) (omega (arith, sum))
    where
      tail : Text
      tail = wire_labels labels ++ ((0 ∷ []) ++ rest)

      front' : Text
      front' = front ++ (length label ∷ label)

      here :
          front ++ ((wire_labels (label ∷ labels) ++ (0 ∷ [])) ++ rest)
          ≡ front ++ (length label ∷ (label ++ tail))
      here = simp append_assoc

      there :
          front ++ (length label ∷ (label ++ tail))
          ≡ front' ++ ((wire_labels labels ++ (0 ∷ [])) ++ rest)
      there = simp append_assoc

      sum : length (label ++ wire_labels labels) ≡ length label + length (wire_labels labels)
      sum = length-append label (wire_labels labels)
