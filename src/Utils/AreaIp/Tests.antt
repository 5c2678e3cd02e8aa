-- ===== src/Utils/AreaIp/Tests.antt =====
-- Areas at concrete texts and addresses.
use st_dns.Base.{
  ℕ, ◌≡◌, refl, ap, List, [], ◌∷◌, true, false, some, Outcome, ok, err, out_of_bounds, map, arith,
}
use st_dns.Base.Text.{Text, codes, find, to_upper, starts_with}
use st_dns.Base.Assoc.{lookup}
use st_dns.Utils.Ipv4.{number, is_rejected, read_segments, str_to_ip}
use st_dns.Utils.Ipv4.Chars.{number-to_string}
use st_dns.Utils.Strings.{find_cut, split_loop, split}
use st_dns.Utils.AreaIp.Ranges.{serialize, parse_serialized, IsStoul, parse_serialized-serialize}
use st_dns.Utils.AreaIp.Sync.{net_line, read_record, sync_net_area_ip}
use st_dns.Utils.AreaIp.Known.{is_known}
use st_dns.Utils.AreaIp.Merge.{sync_net_area_ip-is_known}
use st_dns.Utils.AreaIp.{
  NetCaches, AreaIpRange, parse_range, atoi, get_area_code, is_match_areas, get_area,
  is_cached_area_ip, is_in_ranges, find_area, cached_area, net_area, is_area_ip,
}

abbrev small_net : AreaIpRange
small_net = record { start = 0x0a000000; end = 0x0a0000ff; area = codes "CN" }

range_of_net : parse_range (codes "10.0.0.0/24") (codes "CN") ≡ ok small_net
unfolding parse_range atoi find number str_to_ip read_segments is_rejected
range_of_net = refl

-- With two negated areas every address matches.
two_negations : is_match_areas (codes "!CN" ∷ codes "!us" ∷ []) (codes "CN") ≡ true
unfolding is_match_areas get_area_code to_upper
two_negations = refl

inside : is_area_ip [] ((codes "CN", small_net ∷ []) ∷ []) (codes "cn" ∷ []) 0x0a000010 ≡ true
unfolding is_area_ip get_area net_area cached_area find_area is_cached_area_ip is_in_ranges lookup
    is_match_areas get_area_code to_upper
inside = refl

outside : is_area_ip [] ((codes "CN", small_net ∷ []) ∷ []) (codes "cn" ∷ []) 0x0b000010 ≡ false
unfolding is_area_ip get_area net_area cached_area find_area is_cached_area_ip is_in_ranges lookup
    is_match_areas get_area_code to_upper
outside = refl

abbrev numbers : Text → Outcome ℕ
numbers text = ok (number 0 text)

numbers-IsStoul : IsStoul numbers
numbers-IsStoul = record { stoul-to_string = λ n h. ap ok (number-to_string n (omega (arith, h))) }

small_net_line : parse_serialized numbers (serialize small_net) ≡ ok small_net
unfolding find
small_net_line =
    parse_serialized-serialize numbers 0x0a000000 0x0a0000ff (codes "CN") numbers-IsStoul
      (omega arith) (omega arith) (record { some_ch = omega arith; not_found = refl })

abbrev old : List (ℕ × Text)
old = (0x01020304, codes "US") ∷ []

abbrev known : List (ℕ × Text)
known = (0x01020305, codes "CN") ∷ []

sync_net_area_ip-is_known_example :
    (file : List Text) × (new : NetCaches) × ((sync_net_area_ip true (some (map net_line old)) known
        ≡ ok (some file, new))
      × (is_known 0x01020305 new ≡ true))
unfolding is_known find
sync_net_area_ip-is_known_example =
    sync_net_area_ip-is_known true old known 0x01020305
      (
        record {
          small = omega arith;
          kept = refl;
          area = record { some_ch = omega arith; not_found = refl };
        },
        tt,
      )
      (
        record {
          small = omega arith;
          kept = refl;
          area = record { some_ch = omega arith; not_found = refl };
        },
        tt,
      )
      refl

-- A line without a tab has no second part, which is read all the same.
no_tab : read_record (codes "1.2.3.4") ≡ err out_of_bounds
unfolding read_record split split_loop find_cut starts_with str_to_ip read_segments find is_rejected
    number
no_tab = refl
