-- ===== src/Utils/AreaIp/Known.antt =====
-- The lines of the file of src/common/main/utils/area_ip.cpp are read back, and what a table knows.
use st_dns.Base.{
  ℕ, ◌^◌, ◌<◌, ◌≡◌, refl, ◌∙◌, inl, List, [], ◌∷◌, ◌++◌, append-nil, append_assoc, Bool, true,
  false, some, ok, length, ◌==◌, map, if◌then◌else◌, if_either, All, arith,
}
use st_dns.Base.Text.{Text, is_empty}
use st_dns.Utils.Ipv4.{ip_to_str}
use st_dns.Utils.Ipv4.RoundTrip.{str_to_ip-ip_to_str}
use st_dns.Utils.Ipv4.Chars.{ip_to_str-Plain, find_not-Plain, ip_to_str_nonempty}
use st_dns.Utils.Strings.Split.{glue}
use st_dns.Utils.Strings.Join.{IsItem, split-Items}
use st_dns.Utils.AreaIp.{NetCaches}
use st_dns.Utils.AreaIp.Sync.{net_line, assign_net, read_record, rebuild}

-- An entry whose line is read back: not of the address 9, which the code leaves out.
pub record IsEntry (entry : ℕ × Text) : Type 0 where
  pub small : entry.0 < 2 ^ 32
  pub kept : (entry.0 == 9) ≡ false
  pub area : IsItem b'\t' entry.1

abbrev pub Entries : List (ℕ × Text) → Type 0
Entries entries = All IsEntry entries

unfoldable pub is_known : ℕ → NetCaches → Bool
is_known ip [] = false
is_known ip ((other, area) ∷ caches) =
    let rest = is_known ip caches in if other == ip then true else rest

pub read_record-net_line :
    (entry : ℕ × Text) → IsEntry entry → read_record (net_line entry) ≡ ok (some entry)
unfolding read_record glue
read_record-net_line (ip, area) h =
    rw
      (
        split-Items b'\t' (ip_to_str ip) (area ∷ []) (ip_item, (h.area, tt)),
        str_to_ip-ip_to_str ip h.small,
        h.kept,
        some_area area h.area.some_ch,
      )
      refl
  where
    ip_item : IsItem b'\t' (ip_to_str ip)
    ip_item = record {
      some_ch = ip_to_str_nonempty ip;
      not_found = find_not-Plain b'\t' (ip_to_str ip) (inl (omega arith)) (ip_to_str-Plain ip);
    }

    some_area : (t : Text) → 0 < length t → is_empty t ≡ false
    some_area [] k = absurd (omega (arith, k))
    some_area (ch ∷ t) k = refl

-- The table of these entries, in their order.
unfoldable pub table : List (ℕ × Text) → NetCaches → NetCaches
table [] caches = caches
table ((ip, area) ∷ entries) caches = table entries (assign_net ip area caches)

pub rebuild-net_line :
    (entries : List (ℕ × Text)) (written : List Text) (caches : NetCaches)
    → Entries entries
    → rebuild (map net_line entries) (written, caches)
      ≡ ok (written ++ map net_line entries, table entries caches)
unfolding rebuild table
rebuild-net_line [] written caches h = rw (append-nil written) refl
rebuild-net_line (entry ∷ entries) written caches h = rw (read_record-net_line entry h.0) (
    rebuild-net_line entries (written ++ (net_line entry ∷ [])) (assign_net entry.0 entry.1 caches)
      h.1
    ∙ rw (append_assoc written (net_line entry ∷ []) (map net_line entries)) refl)

is_known-assign_net :
    (ip other : ℕ) (area : Text) (caches : NetCaches)
    → is_known ip (assign_net other area caches)
      ≡ (if other == ip then true else is_known ip caches)
unfolding is_known assign_net
is_known-assign_net ip other area [] = refl
is_known-assign_net ip other area ((o, a) ∷ caches) =
    if_either
      (λ (l : NetCaches).
        is_known ip l ≡ (if other == ip then true else is_known ip ((o, a) ∷ caches)))
      (o == other) (λ e. ground (arith, e))
      (λ e. ground (arith, e, is_known-assign_net ip other area caches))

pub is_known-table :
    (ip : ℕ) (entries : List (ℕ × Text)) (caches : NetCaches)
    → is_known ip (table entries caches)
      ≡ (if is_known ip entries then true else is_known ip caches)
unfolding is_known table
is_known-table ip [] caches = refl
is_known-table ip ((other, area) ∷ entries) caches =
    is_known-table ip entries (assign_net other area caches)
    ∙ ground (arith, is_known-assign_net ip other area caches)
