-- ===== src/Protocol/Domain/Safety.antt =====
-- Where `parseRe` stays within the buffer, how far it goes, and where it reads outside.
use st_dns.Base.{
  ℕ, zero, suc, ◌+◌, ◌-◌, ◌*◌, ◌^◌, ◌%◌, ◌≤◌, ◌<◌, ◌≡◌, ◌≢◌, ◌⊎◌, inl, inr, [], Outcome,
  Outcome-cases, Error, ok, err, out_of_bounds, load, load_within-ne, load_past, length, lt→ltb,
  ne→==, arith, bit_and, bit_or,
}
use st_dns.Base.Bits.{bit_and-ones, bit_or-shifted, zero-bit_or}
use st_dns.Base.Text.{Text}
use st_dns.Protocol.Domain.Total.{parse_step_grows}
use st_dns.Protocol.Domain.{
  stop, more, load_range, label_step, join_step, pointer_step, parse_step, parse_loop, parse_re,
  parse, sub64, max_depth,
}

load_range_within-ne :
    (buf : Text) (i n : ℕ) (bad : Error) → i + n ≤ length buf → load_range buf i n ≢ err bad
unfolding load_range
load_range_within-ne buf i zero bad h = λ e. cc
load_range_within-ne buf i (suc n) bad h =
    ground (arith, load_within-ne buf i bad, load_range_within-ne buf (i + 1) n bad)

-- The address, from the begin of the message, that a pointer with these two bytes names.
abbrev pub target : ℕ → ℕ → ℕ
target frame_len low = bit_or (bit_or 0 (bit_and frame_len 0x3f * 2 ^ 8)) low

-- Every pair of bytes that reads as a pointer names a place within the message.
abbrev pub PointsWithin : Text → ℕ → Type 0
PointsWithin buf size =
    (i frame_len low : ℕ)
    → load buf i ≡ ok frame_len
    → load buf (i + 1) ≡ ok low
    → bit_and frame_len 0xc0 ≡ 0xc0
    → target frame_len low ≤ size

sub64-le : (a b : ℕ) → b ≤ a → a < 2 ^ 64 → sub64 a b ≡ a - b
sub64-le a b h k = omega arith

module _ (again : ℕ → ℕ → Outcome (ℕ × Text)) (buf : Text)
    (start size begin max_parse actual_len : ℕ) (domain : Text) where
  parse_step_more_bound :
      (actual_len' : ℕ) (domain' : Text)
      → actual_len < max_parse
      → parse_step again buf start size begin max_parse actual_len domain
        ≡ ok (more actual_len' domain')
      → actual_len' ≤ max_parse + 1
  unfolding parse_step label_step pointer_step join_step
  parse_step_more_bound actual_len' domain' h e = ground arith

  parse_step_stop_bound :
      (actual_len' : ℕ) (domain' : Text)
      → actual_len < max_parse
      → parse_step again buf start size begin max_parse actual_len domain
        ≡ ok (stop actual_len' domain')
      → actual_len' ≤ max_parse + 1
  unfolding parse_step label_step pointer_step join_step
  parse_step_stop_bound actual_len' domain' h e = ground arith

  -- A pointer fails as the name that it leads to does.
  pub parse_step_pointer_fails :
      (frame_len low : ℕ) (bad : Error)
      → load buf (start + actual_len) ≡ ok frame_len
      → load buf (start + actual_len + 1) ≡ ok low
      → bit_and frame_len 0xc0 ≡ 0xc0
      → target frame_len low ≢ begin
      → again (target frame_len low) (sub64 size (target frame_len low)) ≡ err bad
      → parse_step again buf start size begin max_parse actual_len domain ≡ err bad
  unfolding parse_step pointer_step
  parse_step_pointer_fails frame_len low bad h1 h2 h3 h4 h5 =
      rw (h1, h3, h2, ne→== (target frame_len low) begin h4, h5)

  parse_step_within-ne :
      (bad : Error)
      → PointsWithin buf size
      → actual_len < max_parse
      → start + max_parse < length buf
      → ((pos : ℕ) → pos ≤ size → again pos (sub64 size pos) ≢ err bad)
      → parse_step again buf start size begin max_parse actual_len domain ≢ err bad
  unfolding parse_step label_step pointer_step join_step
  parse_step_within-ne bad hp ha hm h e = grind (arith, load_within-ne, load_range_within-ne)

module _ (again : ℕ → ℕ → Outcome (ℕ × Text)) (buf : Text) (start size begin max_parse : ℕ) where
  parse_loop_bound :
      (fuel actual_len : ℕ) (domain : Text) (actual_len' : ℕ) (domain' : Text)
      → actual_len ≤ max_parse + 1
      → parse_loop again fuel buf start size begin max_parse actual_len domain
        ≡ ok (actual_len', domain')
      → actual_len' ≤ max_parse + 1
  unfolding parse_loop
  parse_loop_bound zero actual_len domain actual_len' domain' h e = cc
  parse_loop_bound (suc fuel) actual_len domain actual_len' domain' h e = grind (
    arith,
    parse_step_more_bound again buf start size begin max_parse actual_len domain,
    parse_step_stop_bound again buf start size begin max_parse actual_len domain,
    parse_loop_bound fuel,
  )

  parse_loop_within-ne :
      (bad : Error) (fuel actual_len : ℕ) (domain : Text)
      → PointsWithin buf size
      → start + max_parse < length buf
      → ((pos : ℕ) → pos ≤ size → again pos (sub64 size pos) ≢ err bad)
      → 0 < fuel
      → length buf < start + actual_len + fuel
      → parse_loop again fuel buf start size begin max_parse actual_len domain ≢ err bad
  unfolding parse_loop
  parse_loop_within-ne bad zero actual_len domain hp hm hn h0 hf = absurd (omega arith)
  parse_loop_within-ne bad (suc fuel) actual_len domain hp hm hn h0 hf = grind (
    arith,
    parse_step_within-ne again buf start size begin max_parse actual_len domain bad hp,
    parse_step_grows again buf start size begin max_parse actual_len domain,
    λ (a : ℕ) (d : Text). parse_loop_within-ne bad fuel a d hp hm hn,
  )

parse_re_within-ne :
    (left : ℕ) (buf : Text) (base size begin max_parse : ℕ) (domain : Text) (bad : Error)
    → size < 2 ^ 64
    → base + size < length buf
    → PointsWithin buf size
    → begin + max_parse ≤ size
    → parse_re left buf base size begin max_parse domain ≢ err bad
unfolding parse_re
parse_re_within-ne zero buf base size begin max_parse domain bad hs hb hp hm = λ e. cc
parse_re_within-ne (suc left) buf base size begin max_parse domain bad hs hb hp hm =
    parse_loop_within-ne (λ pos max. parse_re left buf base size pos max []) buf (base + begin) size
      begin max_parse bad (suc (length buf)) 0 domain hp (omega arith)
      (λ pos h.
        parse_re_within-ne left buf base size pos (sub64 size pos) [] bad hs hb hp
          (omega (arith, sub64-le size pos h hs)))
      (omega arith) (omega arith)

-- `parse` over a message that fits the buffer with a byte to spare, and whose pointers all name
-- places within it, reads nothing outside of the buffer: it returns, and says that it consumed at
-- most one byte more than it was allowed to.
pub parse_within :
    (buf : Text) (base size begin max_parse : ℕ) (domain : Text)
    → size < 2 ^ 64
    → base + size < length buf
    → begin + max_parse ≤ size
    → PointsWithin buf size
    → (consumed : ℕ) × (domain' : Text) × (parse buf base size begin max_parse domain
        ≡ ok (consumed, domain'))
      × (consumed ≤ max_parse + 1)
unfolding parse parse_re
parse_within buf base size begin max_parse domain hs hb hm hp =
    cases (Outcome-cases (parse buf base size begin max_parse domain))
  where
    cases :
        ((r : ℕ × Text) × (parse buf base size begin max_parse domain ≡ ok r))
          ⊎ ((e : Error) × (parse buf base size begin max_parse domain ≡ err e))
        → (consumed : ℕ) × (domain' : Text) × (parse buf base size begin max_parse domain
            ≡ ok (consumed, domain'))
          × (consumed ≤ max_parse + 1)
    cases (inl ((consumed, domain'), e)) = (
      consumed,
      domain',
      e,
      parse_loop_bound _ buf (base + begin) size begin max_parse _ 0 domain consumed domain'
          (omega arith) e,
    )
    cases (inr (bad, e)) =
        absurd (parse_re_within-ne max_depth buf base size begin max_parse domain bad hs hb hp hm e)

target_lem : (frame_len low : ℕ) → low < 256 → target frame_len low ≡ frame_len % 64 * 256 + low
target_lem frame_len low h =
    rw (bit_and-ones 6 frame_len, zero-bit_or (frame_len % 64 * 256))
      (bit_or-shifted 8 (frame_len % 64) low h)

parse_re_past :
    (left : ℕ) (buf : Text) (base size begin max_parse : ℕ) (domain : Text)
    → 0 < max_parse
    → length buf ≤ base + begin
    → parse_re (suc left) buf base size begin max_parse domain ≡ err out_of_bounds
unfolding parse_re parse_step parse_loop
parse_re_past left buf base size begin max_parse domain h0 hb =
    rw (lt→ltb 0 max_parse h0, load_past buf (base + begin + 0) (omega arith), parse_loop)

-- A name that begins with a pointer to a place behind the buffer, other than the end of the
-- message, makes `parse` read outside of the buffer.
pub parse_wild_pointer :
    (buf : Text) (base size begin max_parse frame_len low : ℕ) (domain : Text)
    → 0 < max_parse
    → size < 2 ^ 64
    → low < 256
    → load buf (base + begin) ≡ ok frame_len
    → load buf (base + begin + 1) ≡ ok low
    → bit_and frame_len 0xc0 ≡ 0xc0
    → target frame_len low ≢ begin
    → target frame_len low ≢ size
    → length buf ≤ base + target frame_len low
    → parse buf base size begin max_parse domain ≡ err out_of_bounds
unfolding parse
parse_wild_pointer buf base size begin max_parse frame_len low domain h0 hs hl h1 h2 h3 h4 h5 h6 =
    let here : base + begin + 0 ≡ base + begin = omega arith in
    let pos = target frame_len low in
    let wraps : 0 < sub64 size pos = omega (arith, target_lem frame_len low hl) in
    let inner : parse_re 20 buf base size pos (sub64 size pos) [] ≡ err out_of_bounds =
      parse_re_past 19 buf base size pos (sub64 size pos) [] wraps h6 in
    let step : parse_step (λ p max. parse_re 20 buf base size p max []) buf (base + begin) size
          begin max_parse 0 domain
        ≡ err out_of_bounds =
      parse_step_pointer_fails (λ p max. parse_re 20 buf base size p max []) buf (base + begin) size
        begin max_parse 0 domain frame_len low out_of_bounds (rw here h1) (rw here h2) h3 h4
        inner in
    unfold parse_re parse_loop in rw (lt→ltb 0 max_parse h0, step, parse_loop)
