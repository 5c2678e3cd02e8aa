-- ===== src/Utils/AreaIp/Entries.antt =====
-- A line that is added to those of the file of src/common/main/utils/area_ip.cpp, as an entry.
use st_dns.Base.{
  ℕ, ◌≡◌, refl, sym, ap, ◌∙◌, List, [], ◌∷◌, ◌++◌, Bool, true, false, some, ok, ◌==◌, eq→==, map,
  if◌then◌else◌, if_either, All-append, arith,
}
use st_dns.Base.Text.{Text, text_eq, text_eq→eq}
use st_dns.Utils.AreaIp.Sync.{has_line, emplace_line, net_line, read_record}
use st_dns.Utils.AreaIp.Known.{IsEntry, Entries, is_known, read_record-net_line}

-- `emplace` of a line, on the entries.
unfoldable pub add_entry : ℕ × Text → List (ℕ × Text) → List (ℕ × Text)
add_entry entry entries =
    if has_line (net_line entry) (map net_line entries) then entries else entries ++ (entry ∷ [])

map-append :
    (entries more : List (ℕ × Text))
    → map net_line (entries ++ more) ≡ map net_line entries ++ map net_line more
map-append [] more = refl
map-append (entry ∷ entries) more =
    ap (λ (l : List Text). net_line entry ∷ l) (map-append entries more)

pub emplace_line-net_line :
    (entry : ℕ × Text) (entries : List (ℕ × Text))
    → emplace_line (net_line entry) (map net_line entries) ≡ map net_line (add_entry entry entries)
unfolding emplace_line add_entry
emplace_line-net_line entry entries = by_test (has_line (net_line entry) (map net_line entries))
  where
    by_test :
        (b : Bool)
        → (if b then map net_line entries else map net_line entries ++ (net_line entry ∷ []))
          ≡ map net_line (if b then entries else entries ++ (entry ∷ []))
    by_test true = refl
    by_test false = sym (map-append entries (entry ∷ []))

-- Entries with the same line are the same.
has_line-is_known :
    (entry : ℕ × Text) (entries : List (ℕ × Text))
    → IsEntry entry
    → Entries entries
    → has_line (net_line entry) (map net_line entries) ≡ true
    → is_known entry.0 entries ≡ true
unfolding has_line is_known
has_line-is_known entry [] h k e = cc
has_line-is_known entry (other ∷ entries) h k e =
    by_first (text_eq (net_line other) (net_line entry))
      (text_eq→eq (net_line other) (net_line entry)) (has_line-is_known entry entries h k.1) e
  where
    same : net_line other ≡ net_line entry → (other.0 == entry.0) ≡ true
    same l =
        let e' : ok (some other) ≡ ok (some entry) =
          sym (read_record-net_line other k.0) ∙ ap read_record l ∙ read_record-net_line entry h in
        let e'' : other ≡ entry = cc in eq→== other.0 entry.0 (ap (λ (x : ℕ × Text). x.0) e'')

    by_first :
        (b : Bool)
        → (b ≡ true → net_line other ≡ net_line entry)
        → (has_line (net_line entry) (map net_line entries) ≡ true
            → is_known entry.0 entries ≡ true)
        → (if b then true else has_line (net_line entry) (map net_line entries)) ≡ true
        → (if other.0 == entry.0 then true else is_known entry.0 entries) ≡ true
    by_first true l later e' = rw (same (l refl)) refl
    by_first false l later e' = ground (arith, later e')

is_known-append :
    (ip : ℕ) (entries more : List (ℕ × Text))
    → is_known ip (entries ++ more) ≡ (if is_known ip entries then true else is_known ip more)
unfolding is_known
is_known-append ip [] more = refl
is_known-append ip (entry ∷ entries) more = ground (arith, is_known-append ip entries more)

pub is_known-add_entry :
    (ip : ℕ) (entry : ℕ × Text) (entries : List (ℕ × Text))
    → IsEntry entry
    → Entries entries
    → (if entry.0 == ip then true else is_known ip entries) ≡ true
    → is_known ip (add_entry entry entries) ≡ true
unfolding add_entry is_known
is_known-add_entry ip entry entries h k e =
    if_either (λ (l : List (ℕ × Text)). is_known ip l ≡ true)
      (has_line (net_line entry) (map net_line entries))
      (λ b. ground (arith, e, has_line-is_known entry entries h k b))
      (λ b. ground (arith, e, is_known-append ip entries (entry ∷ [])))

pub add_entry-Entries :
    (entry : ℕ × Text) (entries : List (ℕ × Text))
    → IsEntry entry
    → Entries entries
    → Entries (add_entry entry entries)
unfolding add_entry
add_entry-Entries entry entries h k =
    if_either Entries (has_line (net_line entry) (map net_line entries)) (λ b. k)
      (λ b. All-append IsEntry entries (entry ∷ []) k (h, tt))
