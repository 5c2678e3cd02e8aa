-- ===== src/Utils/Ipv4/Tests.antt =====
-- The round trip of one address, and texts that are no addresses.
use st_dns.Base.{◌≡◌, refl, [], ◌∷◌, ok, arith}
use st_dns.Base.Text.{codes, find}
use st_dns.Utils.Ipv4.{number, is_rejected, ip_to_str, read_segments, str_to_ip, ips_to_str}
use st_dns.Utils.Ipv4.Several.{str_to_ips, str_to_ips-ips_to_str}
use st_dns.Utils.Ipv4.RoundTrip.{str_to_ip-ip_to_str}

str_to_ip-ip_to_str_example : str_to_ip (ip_to_str 3232235786) ≡ ok 3232235786
str_to_ip-ip_to_str_example = str_to_ip-ip_to_str 3232235786 (omega arith)

-- Three numbers are taken for none, and so is one above 255.
three_numbers : str_to_ip (codes "1.2.3") ≡ ok 0
unfolding str_to_ip read_segments find is_rejected number
three_numbers = refl

too_large : str_to_ip (codes "1.2.300.4") ≡ ok 0
unfolding str_to_ip read_segments find is_rejected number
too_large = refl

-- Only the first character of a number is tested.
letters_behind : str_to_ip (codes "1x.2.3.4") ≡ ok 0x01020304
unfolding str_to_ip read_segments find is_rejected number
letters_behind = refl

str_to_ips-ips_to_str_example :
    str_to_ips (ips_to_str (3232235786 ∷ 7 ∷ [])) ≡ ok (3232235786 ∷ 7 ∷ [])
str_to_ips-ips_to_str_example =
    str_to_ips-ips_to_str (3232235786 ∷ 7 ∷ [])
      ((omega arith, omega arith), ((omega arith, omega arith), tt))
