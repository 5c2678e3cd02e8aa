-- ===== src/Protocol/Domain/Total.antt =====
-- `parseRe` ends on every buffer: the fuel of the model is never used up.
use st_dns.Base.{
  ℕ, zero, suc, ◌+◌, ◌<◌, ◌≡◌, ◌≢◌, ◌⊎◌, inl, inr, [], Outcome, Outcome-cases, Error, ok, err,
  out_of_bounds, thrown, out_of_fuel, load_bound, load-ne, length, arith,
}
use st_dns.Base.Text.{Text}
use st_dns.Protocol.Domain.{
  more, load_range, label_step, join_step, pointer_step, parse_step, parse_loop, parse_re, parse,
}

load_range-ne :
    (buf : Text) (i n : ℕ) (bad : Error) → bad ≢ out_of_bounds → load_range buf i n ≢ err bad
unfolding load_range
load_range-ne buf i zero bad h = λ e. cc
load_range-ne buf i (suc n) bad h =
    ground (arith, load-ne buf i bad, load_range-ne buf (i + 1) n bad)

module _ (again : ℕ → ℕ → Outcome (ℕ × Text)) (buf : Text)
    (start size begin max_parse actual_len : ℕ) (domain : Text) where
  pub parse_step_grows :
      (actual_len' : ℕ) (domain' : Text)
      → parse_step again buf start size begin max_parse actual_len domain
        ≡ ok (more actual_len' domain')
      → (actual_len < actual_len') × (start + actual_len < length buf)
  unfolding parse_step label_step pointer_step join_step
  parse_step_grows actual_len' domain' e = ground (arith, load_bound buf (start + actual_len))

  parse_step-ne :
      (bad : Error)
      → bad ≢ out_of_bounds
      → ((pos max : ℕ) → again pos max ≢ err bad)
      → parse_step again buf start size begin max_parse actual_len domain ≢ err bad
  unfolding parse_step label_step pointer_step join_step
  parse_step-ne bad hb h e = grind (arith, load-ne, load_range-ne)

module _ (again : ℕ → ℕ → Outcome (ℕ × Text)) (buf : Text) (start size begin max_parse : ℕ) where
  parse_loop-ne :
      (bad : Error) (fuel actual_len : ℕ) (domain : Text)
      → bad ≢ out_of_bounds
      → 0 < fuel
      → length buf < start + actual_len + fuel
      → ((pos max : ℕ) → again pos max ≢ err bad)
      → parse_loop again fuel buf start size begin max_parse actual_len domain ≢ err bad
  unfolding parse_loop
  parse_loop-ne bad zero actual_len domain hb h0 hf h = absurd (omega arith)
  parse_loop-ne bad (suc fuel) actual_len domain hb h0 hf h =
      grind (arith, step, grows, parse_loop-ne bad fuel)
    where
      step : parse_step again buf start size begin max_parse actual_len domain ≢ err bad
      step = parse_step-ne again buf start size begin max_parse actual_len domain bad hb h

      grows :
          (actual_len' : ℕ) (domain' : Text)
          → parse_step again buf start size begin max_parse actual_len domain
            ≡ ok (more actual_len' domain')
          → (actual_len < actual_len') × (start + actual_len < length buf)
      grows = parse_step_grows again buf start size begin max_parse actual_len domain

parse_re-ne :
    (left : ℕ) (buf : Text) (base size begin max_parse : ℕ) (domain : Text) (bad : Error)
    → bad ≢ out_of_bounds
    → parse_re left buf base size begin max_parse domain ≢ err bad
unfolding parse_re
parse_re-ne zero buf base size begin max_parse domain bad hb = λ e. cc
parse_re-ne (suc left) buf base size begin max_parse domain bad hb =
    parse_loop-ne (λ pos max. parse_re left buf base size pos max []) buf (base + begin) size begin
      max_parse bad (suc (length buf)) 0 domain hb (omega arith) (omega arith)
      (λ pos max. parse_re-ne left buf base size pos max [] bad hb)

-- On every buffer, pointer loops included, `parse` ends with a result or with a read outside of the
-- buffer.
pub parse-ends :
    (buf : Text) (base size begin max_parse : ℕ) (domain : Text)
    → ((r : ℕ × Text) × (parse buf base size begin max_parse domain ≡ ok r))
      ⊎ (parse buf base size begin max_parse domain ≡ err out_of_bounds)
unfolding parse
parse-ends buf base size begin max_parse domain =
    cases (Outcome-cases (parse buf base size begin max_parse domain))
  where
    never :
        (bad : Error) → bad ≢ out_of_bounds → parse buf base size begin max_parse domain ≢ err bad
    never = parse_re-ne _ buf base size begin max_parse domain

    cases :
        ((r : ℕ × Text) × (parse buf base size begin max_parse domain ≡ ok r))
          ⊎ ((e : Error) × (parse buf base size begin max_parse domain ≡ err e))
        → ((r : ℕ × Text) × (parse buf base size begin max_parse domain ≡ ok r))
          ⊎ (parse buf base size begin max_parse domain ≡ err out_of_bounds)
    cases (inl r) = inl r
    cases (inr (out_of_bounds, e)) = inr e
    cases (inr (thrown, e)) = absurd (never thrown (λ p. cc) e)
    cases (inr (out_of_fuel, e)) = absurd (never out_of_fuel (λ p. cc) e)
