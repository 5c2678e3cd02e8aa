-- ===== src/Utils/AreaIp/Merge.antt =====
-- No address that is known is forgotten when the file and the table of
-- src/common/main/utils/area_ip.cpp are brought together.
use st_dns.Base.{
  ℕ, ◌<◌, ◌≡◌, refl, ap, ◌∙◌, List, [], ◌∷◌, ◌++◌, Bool, true, false, some, Option, Outcome, ok,
  ◌>>=◌, length, ◌==◌, map, if◌then◌else◌, arith,
}
use st_dns.Base.Text.{Text, is_empty}
use st_dns.Utils.Ipv4.{ip_to_str}
use st_dns.Utils.Ipv4.Chars.{ip_to_str_nonempty}
use st_dns.Utils.AreaIp.{NetCaches}
use st_dns.Utils.AreaIp.Sync.{
  emplace_line, read_lines, net_line, merge_caches, rebuild, sync_net_area_ip,
}
use st_dns.Utils.AreaIp.Known.{Entries, is_known, is_known-table, table, rebuild-net_line}
use st_dns.Utils.AreaIp.Entries.{
  add_entry, emplace_line-net_line, is_known-add_entry, add_entry-Entries,
}

unfoldable add_entries : List (ℕ × Text) → List (ℕ × Text) → List (ℕ × Text)
add_entries [] entries = entries
add_entries (entry ∷ more) entries = add_entries more (add_entry entry entries)

merge_caches-net_line :
    (more entries : List (ℕ × Text))
    → merge_caches more (map net_line entries) ≡ map net_line (add_entries more entries)
unfolding merge_caches add_entries
merge_caches-net_line [] entries = refl
merge_caches-net_line (entry ∷ more) entries =
    rw (emplace_line-net_line entry entries) (merge_caches-net_line more (add_entry entry entries))

read_lines-net_line :
    (more entries : List (ℕ × Text))
    → read_lines (map net_line more) (map net_line entries)
      ≡ map net_line (add_entries more entries)
unfolding read_lines add_entries
read_lines-net_line [] entries = refl
read_lines-net_line (entry ∷ more) entries =
    ap (read_lines (map net_line more)) added ∙ read_lines-net_line more (add_entry entry entries)
  where
    not_empty : (t : Text) → 0 < length t → is_empty (t ++ (b'\t' ∷ entry.1)) ≡ false
    not_empty [] k = absurd (omega (arith, k))
    not_empty (ch ∷ t) k = refl

    added :
        (if is_empty (net_line entry)
          then map net_line entries
          else emplace_line (net_line entry) (map net_line entries))
        ≡ map net_line (add_entry entry entries)
    added =
        rw (not_empty (ip_to_str entry.0) (ip_to_str_nonempty entry.0))
          (emplace_line-net_line entry entries)

add_entries-Entries :
    (more entries : List (ℕ × Text))
    → Entries more
    → Entries entries
    → Entries (add_entries more entries)
unfolding add_entries
add_entries-Entries [] entries h k = k
add_entries-Entries (entry ∷ more) entries h k =
    add_entries-Entries more (add_entry entry entries) h.1 (add_entry-Entries entry entries h.0 k)

is_known-add_entries :
    (ip : ℕ) (more entries : List (ℕ × Text))
    → Entries more
    → Entries entries
    → (if is_known ip more then true else is_known ip entries) ≡ true
    → is_known ip (add_entries more entries) ≡ true
unfolding add_entries is_known
is_known-add_entries ip [] entries h k e = e
is_known-add_entries ip (entry ∷ more) entries h k e =
    is_known-add_entries ip more (add_entry entry entries) h.1
      (add_entry-Entries entry entries h.0 k) (by_more (is_known ip more) refl)
  where
    by_more :
        (b : Bool)
        → is_known ip more ≡ b
        → (if b then true else is_known ip (add_entry entry entries)) ≡ true
    by_more true e' = refl
    by_more false e' = is_known-add_entry ip entry entries h.0 k (ground (arith, e, e'))

-- For a file whose lines are written from entries, and a table of entries, with addresses of 32
-- bits other than 9 and areas that are not empty and have no tab, sync_net_area_ip reads nothing
-- outside of a line, and an address that the table knows is known to the table that it leaves.
pub sync_net_area_ip-is_known :
    (is_old : Bool) (old caches : List (ℕ × Text)) (ip : ℕ)
    → Entries old
    → Entries caches
    → is_known ip caches ≡ true
    → (file : List Text) × (new : NetCaches) × ((sync_net_area_ip is_old
            (some (map net_line old))
            caches
          ≡ ok (some file, new))
        × (is_known ip new ≡ true))
unfolding sync_net_area_ip
sync_net_area_ip-is_known is_old old caches ip h k e =
    let (file, new, (e', known')) =
      by_sizes (length (map net_line ori) == length (map net_line all)) in
    let same : sync_net_area_ip is_old (some (map net_line old)) caches ≡ ok (some file, new) =
      (λ i. after (is_ori i) (is_all i)) ∙ e' in
    (file, new, (same, known'))
  where
    after : List Text → List Text → Outcome (Option (List Text) × NetCaches)
    after lines final_record = elim (length lines == length final_record) [
      | true ↦ ok (some (map net_line old), caches)
      | false ↦ rebuild final_record ([], []) >>= λ (written, new_caches).
          ok (some (if is_old then written else map net_line old), new_caches)
    ]

    ori : List (ℕ × Text)
    ori = add_entries old []

    all : List (ℕ × Text)
    all = add_entries caches ori

    is_ori : read_lines (map net_line old) [] ≡ map net_line ori
    is_ori = read_lines-net_line old []

    is_all : merge_caches caches (read_lines (map net_line old) []) ≡ map net_line all
    is_all = ap (merge_caches caches) is_ori ∙ merge_caches-net_line caches ori

    entries : Entries ori
    entries = add_entries-Entries old [] h tt

    rebuilt : rebuild (map net_line all) ([], []) ≡ ok (map net_line all, table all [])
    rebuilt = rebuild-net_line all [] [] (add_entries-Entries caches ori k entries)

    known : is_known ip all ≡ true
    known = is_known-add_entries ip caches ori k entries (ground (arith, e))

    by_sizes :
        (b : Bool)
        → (file : List Text) × (new : NetCaches) × (((elim b
                as (λ x. Outcome (Option (List Text) × NetCaches)) [
                  | true ↦ ok (some (map net_line old), caches)
                  | false ↦ rebuild (map net_line all) ([], []) >>= λ (written, new_caches).
                      ok (some (if is_old then written else map net_line old), new_caches)
                ])
              ≡ ok (some file, new))
            × (is_known ip new ≡ true))
    by_sizes true = (map net_line old, caches, (refl, e))
    by_sizes false = (
      if is_old then map net_line all else map net_line old,
      table all [],
      (rw rebuilt refl, is_known-table ip all [] ∙ rw known refl),
    )
