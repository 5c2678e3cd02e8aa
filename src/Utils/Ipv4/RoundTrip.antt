-- ===== src/Utils/Ipv4/RoundTrip.antt =====
-- `str_to_ip` reads what `ip_to_str` writes.
use st_dns.Base.{
  ℕ, zero, suc, ◌+◌, ◌-◌, ◌*◌, ◌/◌, ◌%◌, ◌^◌, ◌<◌, ◌≡◌, refl, sym, ap, ◌∙◌, [], ◌∷◌, ◌++◌,
  append_assoc, append-nil, true, false, ok, bit_or, take, drop, drop-append, length, length-append,
  ltb, arith, lt→ltb, le→ltb, lt→leb, ne→==,
}
use st_dns.Base.Bits.{bit_or-shifted, zero-bit_or}
use st_dns.Base.Text.{Text}
use st_dns.Utils.Ipv4.{to_string, ip_to_str, number, is_rejected, read_segments, str_to_ip}
use st_dns.Utils.Ipv4.Digits.{Written, to_string-Written}

-- `take` with a count that reaches behind a part.
take-beyond :
    (n extra : ℕ) (text rest : Text)
    → n ≡ extra + length text
    → take n (text ++ rest) ≡ text ++ take extra rest
take-beyond n extra [] rest h =
    let e : n ≡ extra = omega (arith, h) in ap (λ (k : ℕ). take k rest) e
take-beyond zero extra (ch ∷ text) rest h = absurd (omega (arith, h))
take-beyond (suc n) extra (ch ∷ text) rest h =
    ap (◌∷◌ ch) (take-beyond n extra text rest (omega (arith, h)))

-- The number is read from what `substr` gives: the number, and perhaps the dot and more.
number-take :
    (n extra : ℕ) (text rest : Text)
    → Written n text
    → number 0 (text ++ take extra (b'.' ∷ rest)) ≡ n
number-take n zero text rest w = rw (append-nil text) w.read_end
number-take n (suc extra) text rest w = w.read_dot (take extra rest)

-- A round before the last: a number with a dot behind it.
round_dot :
    (left num ip n : ℕ) (front text rest : Text)
    → num < 3
    → n < 256
    → Written n text
    → read_segments (suc left) num (length front) ip (front ++ (text ++ (b'.' ∷ rest)))
      ≡ read_segments left
          (num + 1)
          (length front + length text + 1)
          (bit_or ip (n * 2 ^ (32 - 8 * (num + 1))))
          (front ++ (text ++ (b'.' ∷ rest)))
unfolding read_segments
round_dot left num ip n front text rest hn hs w =
    rw
      (
        long,
        dropped,
        w.found rest,
        ne→== num 3 (λ e. omega (arith, hn, e)),
        taken,
        w.accepted (take (length front) (b'.' ∷ rest)),
        number-take n (length front) text rest w,
        lt→leb (2 ^ 31) n (omega (arith, hs)),
        le→ltb 255 n (omega (arith, hs)),
      )
      refl
  where
    back : Text
    back = text ++ (b'.' ∷ rest)

    long : ltb (length front) (length (front ++ back)) ≡ true
    long = lt→ltb _ _ (omega (arith, length-append front back, length-append text (b'.' ∷ rest)))

    dropped : drop (length front) (front ++ back) ≡ back
    dropped = drop-append front back _ refl

    taken :
        take (length front + length text) (drop (length front) (front ++ back))
        ≡ text ++ take (length front) (b'.' ∷ rest)
    taken = rw dropped (take-beyond _ (length front) text (b'.' ∷ rest) refl)

-- The last round.
round_end :
    (left ip n : ℕ) (front text : Text)
    → n < 256
    → Written n text
    → read_segments (suc left) 3 (length front) ip (front ++ text)
      ≡ read_segments left 4 0 (bit_or ip (n * 2 ^ 0)) (front ++ text)
unfolding read_segments
round_end left ip n front text hs w =
    rw
      (
        long,
        dropped,
        w.none_found,
        dropped,
        accepted,
        w.read_end,
        lt→leb (2 ^ 31) n (omega (arith, hs)),
        le→ltb 255 n (omega (arith, hs)),
      )
      refl
  where
    long : ltb (length front) (length (front ++ text)) ≡ true
    long = lt→ltb _ _ (omega (arith, length-append front text, w.some_ch))

    dropped : drop (length front) (front ++ text) ≡ text
    dropped = drop-append front text _ refl

    accepted : is_rejected text ≡ false
    accepted = ap is_rejected (sym (append-nil text)) ∙ w.accepted []

-- The same at a place of a whole text.
round_at :
    (left num ip n last : ℕ) (front text rest whole : Text)
    → num < 3
    → n < 256
    → Written n text
    → last ≡ length front
    → whole ≡ front ++ (text ++ (b'.' ∷ rest))
    → read_segments (suc left) num last ip whole
      ≡ read_segments left
          (num + 1)
          (length front + length text + 1)
          (bit_or ip (n * 2 ^ (32 - 8 * (num + 1))))
          whole
round_at left num ip n last front text rest whole hn hs w hl hw =
    rw (hl, hw) (round_dot left num ip n front text rest hn hs w)

no_round : (ip : ℕ) (text : Text) → read_segments 0 4 0 ip text ≡ ok ip
unfolding read_segments
no_round ip text = refl

end_at :
    (num ip n last : ℕ) (front text whole : Text)
    → num ≡ 3
    → n < 256
    → Written n text
    → last ≡ length front
    → whole ≡ front ++ text
    → read_segments 1 num last ip whole ≡ ok (bit_or ip (n * 2 ^ 0))
end_at num ip n last front text whole hn hs w hl hw =
    rw (hn, hl, hw) (round_end 0 ip n front text hs w ∙ no_round _ (front ++ text))

module _ (a b c d : ℕ) (ha : a < 256) (hb : b < 256) (hc : c < 256) (hd : d < 256) where
  abbrev whole : Text
  whole = to_string a ++ (b'.' ∷ to_string b ++ (b'.' ∷ to_string c ++ (b'.' ∷ to_string d)))

  abbrev front1 : Text
  front1 = to_string a ++ (b'.' ∷ [])

  abbrev front2 : Text
  front2 = front1 ++ (to_string b ++ (b'.' ∷ []))

  abbrev front3 : Text
  front3 = front2 ++ (to_string c ++ (b'.' ∷ []))

  bits :
      bit_or (bit_or (bit_or (bit_or 0 (a * 2 ^ 24)) (b * 2 ^ 16)) (c * 2 ^ 8)) (d * 2 ^ 0)
      ≡ a * 2 ^ 24 + b * 2 ^ 16 + c * 2 ^ 8 + d
  bits =
      ap (λ (t : ℕ). bit_or t (d * 2 ^ 0)) three
      ∙ bit_or-shifted 8 (a * 2 ^ 16 + b * 2 ^ 8 + c) (d * 2 ^ 0) (omega (arith, hd))
      ∙ omega arith
    where
      two : bit_or (bit_or 0 (a * 2 ^ 24)) (b * 2 ^ 16) ≡ (a * 2 ^ 8 + b) * 2 ^ 16
      two =
          ap (λ (t : ℕ). bit_or t (b * 2 ^ 16)) (zero-bit_or (a * 2 ^ 24))
          ∙ bit_or-shifted 24 a (b * 2 ^ 16) (omega (arith, hb))
          ∙ omega arith

      three :
          bit_or (bit_or (bit_or 0 (a * 2 ^ 24)) (b * 2 ^ 16)) (c * 2 ^ 8)
          ≡ (a * 2 ^ 16 + b * 2 ^ 8 + c) * 2 ^ 8
      three =
          ap (λ (t : ℕ). bit_or t (c * 2 ^ 8)) two
          ∙ bit_or-shifted 16 (a * 2 ^ 8 + b) (c * 2 ^ 8) (omega (arith, hc))
          ∙ omega arith

  read_whole : read_segments 4 0 0 0 whole ≡ ok (a * 2 ^ 24 + b * 2 ^ 16 + c * 2 ^ 8 + d)
  read_whole =
      round_at 3 0 0 a 0 [] (to_string a) (to_string b ++ rest) whole (omega arith) ha
        (to_string-Written a ha) refl refl
      ∙ round_at 2 1 _ b _ front1 (to_string b) (to_string c ++ (b'.' ∷ to_string d)) whole
          (omega arith) hb (to_string-Written b hb)
          (omega (arith, length-append (to_string a) (b'.' ∷ []))) (simp append_assoc)
      ∙ round_at 1 2 _ c _ front2 (to_string c) (to_string d) whole (omega arith) hc
          (to_string-Written c hc) behind2 (simp append_assoc)
      ∙ end_at _ _ d _ front3 (to_string d) whole (omega arith) hd (to_string-Written d hd) behind3
          split
      ∙ ap ok bits
    where
      rest : Text
      rest = b'.' ∷ to_string c ++ (b'.' ∷ to_string d)

      behind2 : length front1 + length (to_string b) + 1 ≡ length front2
      behind2 = omega (
        arith,
        length-append front1 (to_string b ++ (b'.' ∷ [])),
        length-append (to_string b) (b'.' ∷ []),
      )

      behind3 : length front2 + length (to_string c) + 1 ≡ length front3
      behind3 = omega (
        arith,
        length-append front2 (to_string c ++ (b'.' ∷ [])),
        length-append (to_string c) (b'.' ∷ []),
      )

      split : whole ≡ front3 ++ to_string d
      split = simp append_assoc

-- An address of 32 bits is read back from its text.
pub str_to_ip-ip_to_str : (ip : ℕ) → ip < 2 ^ 32 → str_to_ip (ip_to_str ip) ≡ ok ip
unfolding str_to_ip ip_to_str
str_to_ip-ip_to_str ip h =
    read_whole (ip / 2 ^ 24 % 2 ^ 8) (ip / 2 ^ 16 % 2 ^ 8) (ip / 2 ^ 8 % 2 ^ 8) (ip % 2 ^ 8)
      (omega arith) (omega arith) (omega arith) (omega arith)
    ∙ ap ok same
  where
    same :
        ip / 2 ^ 24 % 2 ^ 8 * 2 ^ 24
          + ip / 2 ^ 16 % 2 ^ 8 * 2 ^ 16
          + ip / 2 ^ 8 % 2 ^ 8 * 2 ^ 8
          + ip % 2 ^ 8
        ≡ ip
    same = omega (arith, h)
