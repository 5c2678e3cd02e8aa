-- ===== src/Protocol/Domain/Suffix.antt =====
-- A name that ends in a compression pointer: `parseRe` does not stop behind the pointer.
use st_dns.Base.{
  ℕ, suc, ◌+◌, ◌-◌, ◌<◌, ◌≡◌, ap, ◌∙◌, ◌≢◌, [], ◌∷◌, ◌++◌, append_assoc, append-cons_shift, Outcome,
  ok, load, load-append_at, length, length-append, arith, bit_and, ne→==,
}
use st_dns.Base.Text.{Text}
use st_dns.Protocol.Domain.{
  stop, more, join_step, pointer_step, parse_step, parse_loop, parse_re, parse, sub64,
}
use st_dns.Protocol.Domain.Labels.{
  IsLabel, label_round, last_round, parse_loop_more, parse_loop_stop,
}
use st_dns.Protocol.Domain.Safety.{target}

load-append_second :
    (front rest : Text) (a b i : ℕ) → i ≡ length front + 1 → load (front ++ (a ∷ b ∷ rest)) i ≡ ok b
load-append_second front rest a b i h =
    ap (λ (l : Text). load l i) (append-cons_shift front a (b ∷ []) rest)
    ∙ load-append_at (front ++ (a ∷ [])) rest b i (omega (arith, length-append front (a ∷ [])))

module _ (again : ℕ → ℕ → Outcome (ℕ × Text)) (start size begin max_parse : ℕ) where
  -- Behind a label, a pointer adds the domain that it names, and the loop goes on.
  pointer_round :
      (front rest domain domain_re : Text) (frame_len low actual_len consume ch : ℕ)
      → start + actual_len ≡ length front
      → bit_and frame_len 0xc0 ≡ 0xc0
      → target frame_len low ≢ begin
      → again (target frame_len low) (sub64 size (target frame_len low)) ≡ ok (consume, domain_re)
      → 0 < consume
      → parse_step again
          (front ++ (frame_len ∷ low ∷ rest))
          start
          size
          begin
          max_parse
          actual_len
          (ch ∷ domain)
        ≡ ok (more (actual_len + 2) ((ch ∷ domain) ++ (b'.' ∷ domain_re)))
  unfolding parse_step pointer_step join_step
  pointer_round front rest domain domain_re frame_len low actual_len consume ch hs h1 h2 h3 h4 =
      rw (
        load-append_at front (low ∷ rest) frame_len (start + actual_len) hs,
        h1,
        load-append_second front rest frame_len low (start + actual_len + 1) (omega arith),
        ne→== (target frame_len low) begin h2,
        h3,
        ne→== consume 0 (omega arith),
      )

  -- A name that is a pointer takes two bytes, and is the name that it leads to.
  pub first_pointer_round :
      (front rest domain_re : Text) (frame_len low consume : ℕ)
      → start ≡ length front
      → bit_and frame_len 0xc0 ≡ 0xc0
      → target frame_len low ≢ begin
      → again (target frame_len low) (sub64 size (target frame_len low)) ≡ ok (consume, domain_re)
      → 0 < consume
      → parse_step again (front ++ (frame_len ∷ low ∷ rest)) start size begin max_parse 0 []
        ≡ ok (stop 2 domain_re)
  unfolding parse_step pointer_step join_step
  first_pointer_round front rest domain_re frame_len low consume hs h1 h2 h3 h4 = rw (
    load-append_at front (low ∷ rest) frame_len (start + 0) (omega arith),
    h1,
    load-append_second front rest frame_len low (start + 0 + 1) (omega arith),
    ne→== (target frame_len low) begin h2,
    h3,
    ne→== consume 0 (omega arith),
  )

  -- The three rounds over a label, a pointer and a 0.
  suffix_loop :
      (front label rest domain_re : Text) (ch frame_len low consume fuel : ℕ)
      → start ≡ length front
      → IsLabel (ch ∷ label)
      → length label + 4 < max_parse
      → bit_and frame_len 0xc0 ≡ 0xc0
      → target frame_len low ≢ begin
      → again (target frame_len low) (sub64 size (target frame_len low)) ≡ ok (consume, domain_re)
      → 0 < consume
      → parse_loop again
          (suc (suc (suc fuel)))
          (front ++ (length (ch ∷ label) ∷ ((ch ∷ label) ++ (frame_len ∷ low ∷ 0 ∷ rest))))
          start
          size
          begin
          max_parse
          0
          []
        ≡ ok (length (ch ∷ label) + 4, (ch ∷ label) ++ (b'.' ∷ domain_re))
  suffix_loop front label rest domain_re ch frame_len low consume fuel hb hl hm h1 h2 h3 h4 =
      parse_loop_more again start size begin max_parse buf 0 (suc (suc fuel)) [] (omega arith) (
        label_round again start size begin max_parse front name tail [] 0 (omega arith)
          (omega arith) hl)
      ∙ parse_loop_more again start size begin max_parse buf (1 + length name) (suc fuel) name
          (omega arith) second
      ∙ parse_loop_stop again start size begin max_parse buf (1 + length name + 2) fuel
          (name ++ (b'.' ∷ domain_re)) (omega arith) third
      ∙ ap (λ (n : ℕ). ok (n, name ++ (b'.' ∷ domain_re))) (omega arith)
    where
      name : Text
      name = ch ∷ label

      tail : Text
      tail = frame_len ∷ low ∷ 0 ∷ rest

      buf : Text
      buf = front ++ (length name ∷ (name ++ tail))

      front' : Text
      front' = front ++ (length name ∷ name)

      front'' : Text
      front'' = front ++ (length name ∷ (name ++ (frame_len ∷ low ∷ [])))

      second :
          parse_step again buf start size begin max_parse (1 + length name) name
          ≡ ok (more (1 + length name + 2) (name ++ (b'.' ∷ domain_re)))
      second =
          ap (λ (b : Text). parse_step again b start size begin max_parse (1 + length name) name)
            (simp append_assoc)
          ∙ pointer_round front' (0 ∷ rest) label domain_re frame_len low (1 + length name) consume
              ch (omega (arith, length-append front (length name ∷ name))) h1 h2 h3 h4

      third :
          parse_step again buf start size begin max_parse
            (1 + length name + 2)
            (name ++ (b'.' ∷ domain_re))
          ≡ ok (stop (1 + length name + 2 + 1) (name ++ (b'.' ∷ domain_re)))
      third =
          ap
            (λ (b : Text).
              parse_step again b start size begin max_parse (1 + length name + 2)
                (name ++ (b'.' ∷ domain_re)))
            (simp append_assoc)
          ∙ last_round again start size begin max_parse front'' rest (name ++ (b'.' ∷ domain_re))
              (1 + length name + 2)
              (omega (
                arith,
                length-append front (length name ∷ (name ++ (frame_len ∷ low ∷ []))),
                length-append name (frame_len ∷ low ∷ []),
              ))

-- The name is one label and a pointer to a name that can be read, `length label + 3` bytes; a 0
-- byte follows, as it does where a record's type follows. `parse` takes that byte for the end of
-- the name: it consumes one byte too many.
pub parse_suffix_overrun :
    (front label rest domain_re : Text) (base size begin max_parse frame_len low consume : ℕ)
    → base + begin ≡ length front
    → IsLabel label
    → length label + 3 < max_parse
    → bit_and frame_len 0xc0 ≡ 0xc0
    → target frame_len low ≢ begin
    → parse_re 20
        (front ++ (length label ∷ (label ++ (frame_len ∷ low ∷ 0 ∷ rest))))
        base
        size
        (target frame_len low)
        (sub64 size (target frame_len low))
        []
      ≡ ok (consume, domain_re)
    → 0 < consume
    → parse
        (front ++ (length label ∷ (label ++ (frame_len ∷ low ∷ 0 ∷ rest))))
        base
        size
        begin
        max_parse
        []
      ≡ ok (length label + 4, label ++ (b'.' ∷ domain_re))
unfolding parse parse_re
parse_suffix_overrun front [] rest domain_re base size begin max_parse frame_len low consume hb hl
      hm h1 h2 h3 h4 =
    absurd (omega (arith, hl.nonempty))
parse_suffix_overrun front (ch ∷ label) rest domain_re base size begin max_parse frame_len low
      consume hb hl hm h1 h2 h3 h4 =
    ap (λ (f : ℕ). parse_loop again f buf (base + begin) size begin max_parse 0 []) enough
    ∙ suffix_loop again (base + begin) size begin max_parse front label rest domain_re ch frame_len
        low consume (length buf - 2) hb hl (omega arith) h1 h2 h3 h4
  where
    buf : Text
    buf = front ++ (length (ch ∷ label) ∷ ((ch ∷ label) ++ (frame_len ∷ low ∷ 0 ∷ rest)))

    again : ℕ → ℕ → Outcome (ℕ × Text)
    again pos max = parse_re 20 buf base size pos max []

    enough : suc (length buf) ≡ suc (suc (suc (length buf - 2)))
    enough = omega (
      arith,
      length-append front (length (ch ∷ label) ∷ ((ch ∷ label) ++ (frame_len ∷ low ∷ 0 ∷ rest))),
      length-append label (frame_len ∷ low ∷ 0 ∷ rest),
    )
