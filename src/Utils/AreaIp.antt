-- ===== src/Utils/AreaIp.antt =====
-- Areas of addresses: src/common/main/utils/area_ip.h and the look-ups of area_ip.cpp. The files and
-- the network services that the tables come from are not modelled; the lines of a file are an argument.
pub mod Codes
pub mod Sync
pub mod Known
pub mod Entries
pub mod Merge
pub mod Ranges
mod Tests
use st_dns.Base.{
  ℕ, zero, suc, ◌+◌, ◌-◌, ◌*◌, ◌/◌, ◌%◌, ◌^◌, List, [], ◌∷◌, ◌++◌, map, Bool, true, false, not,
  ◌&&◌, ◌||◌, Option, none, some, Outcome, ok, err, out_of_bounds, ◌>>=◌, take, drop, length, ltb,
  leb, ◌==◌, if◌then◌else◌,
}
use st_dns.Base.Text.{Text, text_eq, is_empty, find, to_upper}
use st_dns.Base.Assoc.{lookup, assign, remove_key}
use st_dns.Utils.Ipv4.{number, str_to_ip}

pub record AreaIpRange : Type 0 where
  pub start : ℕ
  pub end : ℕ
  pub area : Text

-- `area_ip_range::is_valid`
abbrev pub is_valid : AreaIpRange → Bool
is_valid r = length r.area == 2 && leb r.start r.end && not (r.start == 0)

abbrev pub is_blank : ℕ → Bool
is_blank ch = ch == b' ' || (leb 9 ch && leb ch 13)

-- `atoi`: whether the number is negative, and its size.
unfoldable pub atoi : Text → Bool × ℕ
atoi [] = (false, 0)
atoi (ch ∷ text) =
    let rest = atoi text in
    if is_blank ch
    then rest
    else if ch == b'-'
    then (true, number 0 text)
    else if ch == b'+'
    then (false, number 0 text)
    else (false, number 0 (ch ∷ text))

-- `area_ip_range::parse(range, area)`. A shift by 32 or more is undefined. Without a slash the whole
-- text stands for both parts.
unfoldable pub parse_range : Text → Text → Outcome AreaIpRange
parse_range range area =
    let (front, back) : Text × Text = elim (find b'/' range) [
      | none ↦ (range, range)
      | some i ↦ (take i range, drop (i + 1) range)
    ] in
    let (negative, bits) = atoi back in
    str_to_ip front >>= λ start.
    if negative || not (leb 1 bits && leb bits 32)
    then err out_of_bounds
    else ok (record {
      start = start;
      end = (start + 2 ^ (32 - bits) + 2 ^ 32 - 1) % 2 ^ 32;
      area = area;
    })

-- `get_area_code`
unfoldable pub get_area_code : Text → Text
get_area_code [] = []
get_area_code (ch ∷ area_reg) = map to_upper (if ch == b'!' then area_reg else ch ∷ area_reg)

abbrev pub is_negated : Text → Bool
is_negated [] = false
is_negated (ch ∷ area_reg) = ch == b'!'

-- `is_match_areas`
unfoldable pub is_match_areas : List Text → Text → Bool
is_match_areas [] area = false
is_match_areas (area_reg ∷ areas) area =
    let rest = is_match_areas areas area in
    if not (is_negated area_reg) && text_eq area (get_area_code area_reg)
    then true
    else if is_negated area_reg && not (text_eq area (get_area_code area_reg))
    then true
    else rest

-- The tables of the manager: areas by address from the network, and ranges by area.
abbrev pub NetCaches : Type 0
NetCaches = List (ℕ × Text)

abbrev pub DefaultCaches : Type 0
DefaultCaches = List (Text × List AreaIpRange)

unfoldable pub is_in_ranges : ℕ → List AreaIpRange → Bool
is_in_ranges ip [] = false
is_in_ranges ip (r ∷ ranges) =
    let rest = is_in_ranges ip ranges in if leb ip r.end && leb r.start ip then true else rest

-- `is_area_ip(area, ip, caches)`
unfoldable pub is_cached_area_ip : Text → ℕ → DefaultCaches → Bool
is_cached_area_ip area ip caches = elim (lookup area caches) [
  | none ↦ false
  | some ranges ↦ is_in_ranges ip ranges
]

-- The loop of `get_area(ip, caches)` over the areas that are left.
unfoldable pub find_area : ℕ → DefaultCaches → DefaultCaches → Text
find_area ip caches [] = []
find_area ip caches ((area, ranges) ∷ left) =
    let rest = find_area ip caches left in if is_cached_area_ip area ip caches then area else rest

unfoldable pub cached_area : ℕ → DefaultCaches → Text
cached_area ip caches = if ltb 0 ip then find_area ip caches caches else []

-- `get_area` in the addresses from the network
unfoldable pub net_area : ℕ → NetCaches → Text
net_area ip [] = []
net_area ip ((other, area) ∷ caches) =
    let rest = net_area ip caches in if other == ip then area else rest

abbrev pub default_area : Text
default_area = b'd' ∷ b'e' ∷ b'f' ∷ b'a' ∷ b'u' ∷ b'l' ∷ b't' ∷ []

-- `get_area(ip)`
unfoldable pub get_area : NetCaches → DefaultCaches → ℕ → Text
get_area net caches ip =
    let known = net_area ip net in
    let area = if ip == 0 then [] else if is_empty known then cached_area ip caches else known in
    if is_empty area then default_area else area

-- `is_area_ip(areas, ip)`
unfoldable pub is_area_ip : NetCaches → DefaultCaches → List Text → ℕ → Bool
is_area_ip net caches areas ip = elim areas [
  | [] ↦ true
  | area_reg ∷ others ↦
      let area = get_area net caches ip in
      if text_eq area default_area then false else is_match_areas (area_reg ∷ others) area
]

unfoldable pub parse_lines : List Text → Text → Outcome (List AreaIpRange)
parse_lines [] area = ok []
parse_lines (line ∷ lines) area =
    let rest = parse_lines lines area in
    if is_empty line
    then rest
    else parse_range line area >>= λ r. rest >>= λ ranges. ok (r ∷ ranges)

-- `load_area_ips`: `none` stands for a path that is empty. A table without ranges is removed.
unfoldable pub load_area_ips :
    Option (List Text) → Text → DefaultCaches → Outcome (Bool × DefaultCaches)
load_area_ips lines area_reg caches =
    let area = get_area_code area_reg in
    elim (lookup area caches) [
      | some ranges ↦ ok (true, caches)
      | none ↦ elim lines [
        | none ↦ ok (false, caches)
        | some read ↦ parse_lines read area >>= λ ranges.
            ok (
              true,
              if length ranges == 0 then remove_key area caches else assign area ranges caches,
            )
      ]
    ]

-- `area_to_code` and `code_to_area`
unfoldable pub area_to_code : Text → ℕ
area_to_code (a ∷ b ∷ []) =
    if leb b'A' a && leb b'A' b && leb b b'Z' && leb a b'Z' then (a - b'A') * 26 + (b - b'A') else 0
area_to_code area = 0

unfoldable pub code_to_area : ℕ → Text
code_to_area mark =
    if leb mark (26 * 26 - 1) then (b'A' + mark / 26) ∷ (b'A' + mark % 26) ∷ [] else []
