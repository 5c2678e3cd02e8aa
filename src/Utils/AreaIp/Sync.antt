-- ===== src/Utils/AreaIp/Sync.antt =====
-- The file of addresses from the network: `sync_net_area_ip` of src/common/main/utils/area_ip.cpp, on
-- the lines of the file. A set of lines is a list without repetitions.
use st_dns.Base.{
  ℕ, List, [], ◌∷◌, ◌++◌, Bool, true, false, not, ◌&&◌, Option, none, some, Outcome, ok, err,
  out_of_bounds, ◌>>=◌, length, ◌==◌, if◌then◌else◌,
}
use st_dns.Base.Text.{Text, text_eq, is_empty}
use st_dns.Utils.Ipv4.{ip_to_str, str_to_ip}
use st_dns.Utils.Strings.{split}
use st_dns.Utils.AreaIp.{NetCaches}

unfoldable pub has_line : Text → List Text → Bool
has_line line [] = false
has_line line (other ∷ lines) =
    let rest = has_line line lines in if text_eq other line then true else rest

-- `final_record.emplace(line)`
unfoldable pub emplace_line : Text → List Text → List Text
emplace_line line lines = if has_line line lines then lines else lines ++ (line ∷ [])

-- The lines of the file, but the empty ones.
unfoldable pub read_lines : List Text → List Text → List Text
read_lines [] final_record = final_record
read_lines (line ∷ lines) final_record =
    read_lines lines (if is_empty line then final_record else emplace_line line final_record)

abbrev pub net_line : ℕ × Text → Text
net_line (ip, area) = ip_to_str ip ++ (b'\t' ∷ area)

unfoldable pub merge_caches : NetCaches → List Text → List Text
merge_caches [] final_record = final_record
merge_caches (entry ∷ caches) final_record =
    merge_caches caches (emplace_line (net_line entry) final_record)

-- `new_caches[uip] = area`
unfoldable pub assign_net : ℕ → Text → NetCaches → NetCaches
assign_net ip area [] = (ip, area) ∷ []
assign_net ip area ((other, other_area) ∷ caches) =
    let rest = assign_net ip area caches in
    if other == ip then (ip, area) ∷ caches else (other, other_area) ∷ rest

-- One record: whether it is written, and its entry. The second part is read before the number of the
-- parts is tested.
unfoldable pub read_record : Text → Outcome (Option (ℕ × Text))
read_record line = do
  splits ← split line (b'\t' ∷ []) 0 0
  elim splits [
    | [] ↦ err out_of_bounds
    | first ∷ others ↦ str_to_ip first >>= λ uip. (elim others [
      | [] ↦ err out_of_bounds
      | area ∷ more ↦ ok (
          if length more == 0 && not (uip == 9) && not (is_empty area)
          then some (uip, area)
          else none)
    ])
  ]

-- The loop over the records: the lines of the new file, and the new table.
unfoldable pub rebuild : List Text → List Text × NetCaches → Outcome (List Text × NetCaches)
rebuild [] result = ok result
rebuild (line ∷ lines) (written, caches) = read_record line >>= λ entry. rebuild lines (elim entry [
  | none ↦ (written, caches)
  | some (uip, area) ↦ (written ++ (line ∷ []), assign_net uip area caches)
])

-- `sync_net_area_ip`. `none` is a file that cannot be opened, and `is_old` whether the file was last
-- written before the new one was made, which takes its place then.
unfoldable pub sync_net_area_ip :
    Bool → Option (List Text) → NetCaches → Outcome (Option (List Text) × NetCaches)
sync_net_area_ip is_old none caches = ok (some [], caches)
sync_net_area_ip is_old (some lines) caches =
    let ori = read_lines lines [] in
    let final_record = merge_caches caches ori in
    elim (length ori == length final_record) [
      | true ↦ ok (some lines, caches)
      | false ↦ rebuild final_record ([], []) >>= λ (written, new_caches).
          ok (some (if is_old then written else lines), new_caches)
    ]
