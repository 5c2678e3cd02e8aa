-- ===== src/Utils/AreaIp/Ranges.antt =====
-- A range as a line: `serialize` and the one-argument `parse` of area_ip_range in
-- src/common/main/utils/area_ip.h, and the table that the manager of area_ip.cpp begins with.
use st_dns.Base.{
  ℕ, ◌%◌, ◌^◌, ◌<◌, ◌≡◌, refl, ap, inl, List, [], ◌∷◌, ◌++◌, Outcome, ok, err, ◌>>=◌, arith,
}
use native.Mathlib.Nat.{mod-eq_of_lt}
use st_dns.Base.Text.{Text, codes}
use st_dns.Utils.Ipv4.{to_string}
use st_dns.Utils.Ipv4.Chars.{to_string-Plain, to_string_nonempty, find_not-Plain}
use st_dns.Utils.Strings.{split}
use st_dns.Utils.Strings.Split.{glue}
use st_dns.Utils.Strings.Join.{IsItem, split-Items}
use st_dns.Utils.AreaIp.{AreaIpRange, DefaultCaches, parse_range}

-- `area_ip_range::serialize`
unfoldable pub serialize : AreaIpRange → Text
serialize r = to_string r.start ++ (b'\t' ∷ (to_string r.end ++ (b'\t' ∷ r.area)))

abbrev pub blank_range : AreaIpRange
blank_range = record { start = 0; end = 0; area = [] }

-- The parts of a line, where `stoul` is the standard library's. What it throws is caught, and what was
-- set before stays.
unfoldable pub read_parts : (Text → Outcome ℕ) → List Text → AreaIpRange
read_parts stoul (first ∷ second ∷ area ∷ []) = elim (stoul first) [
  | err e ↦ blank_range
  | ok start ↦
      let started : AreaIpRange = record blank_range { start = start % 2 ^ 32 } in
      elim (stoul second) [
        | err e ↦ started
        | ok end ↦ record started { end = end % 2 ^ 32; area = area }
      ]
]
read_parts stoul parts = blank_range

-- `area_ip_range::parse(str)`
unfoldable pub parse_serialized : (Text → Outcome ℕ) → Text → Outcome AreaIpRange
parse_serialized stoul str = split str (b'\t' ∷ []) 0 0 >>= λ parts. ok (read_parts stoul parts)

-- The table of the constructor of `manager`.
unfoldable pub lan_caches : Outcome DefaultCaches
lan_caches = do
  home ← parse_range (codes "192.168.0.0/16") (codes "LAN")
  private ← parse_range (codes "10.0.0.0/8") (codes "LAN")
  office ← parse_range (codes "172.16.0.0/16") (codes "LAN")
  local ← parse_range (codes "0.0.0.0/8") (codes "LAN")
  ok ((codes "LAN", home ∷ private ∷ office ∷ local ∷ []) ∷ [])

-- The documented behaviour of `std::stoul` on a decimal number.
pub record IsStoul (stoul : Text → Outcome ℕ) : Type 0 where
  pub stoul-to_string : (n : ℕ) → n < 2 ^ 32 → stoul (to_string n) ≡ ok n

number-IsItem : (n : ℕ) → IsItem b'\t' (to_string n)
number-IsItem n = record {
  some_ch = to_string_nonempty n;
  not_found = find_not-Plain b'\t' (to_string n) (inl (omega arith)) (to_string-Plain n);
}

read_parts-numbers :
    (stoul : Text → Outcome ℕ) (start end : ℕ) (area : Text)
    → IsStoul stoul
    → start < 2 ^ 32
    → end < 2 ^ 32
    → read_parts stoul (to_string start ∷ to_string end ∷ area ∷ [])
      ≡ record { start = start; end = end; area = area }
unfolding read_parts
read_parts-numbers stoul start end area h low high =
    rw
      (
        h.stoul-to_string start low,
        h.stoul-to_string end high,
        mod-eq_of_lt low,
        mod-eq_of_lt high,
        read_parts,
      )
      refl

-- A range of 32-bit addresses is read back from its line.
pub parse_serialized-serialize :
    (stoul : Text → Outcome ℕ) (start end : ℕ) (area : Text)
    → IsStoul stoul
    → start < 2 ^ 32
    → end < 2 ^ 32
    → IsItem b'\t' area
    → let r : AreaIpRange = record { start = start; end = end; area = area } in
      parse_serialized stoul (serialize r) ≡ ok r
unfolding serialize parse_serialized glue
parse_serialized-serialize stoul start end area h low high item =
    rw
      (split-Items b'\t' (to_string start) (to_string end ∷ area ∷ [])
        (number-IsItem start, (number-IsItem end, (item, tt))))
      (ap ok (read_parts-numbers stoul start end area h low high))
