-- ===== src/Utils/Strings.antt =====
-- Splitting and joining of texts: src/common/main/utils/string_utils.h.
pub mod Split
pub mod Join
mod Tests
use st_dns.Base.{
  ℕ, zero, suc, ◌+◌, List, [], ◌∷◌, ◌++◌, Bool, true, false, not, ◌&&◌, Option, none, some, Outcome,
  ok, err, out_of_fuel, ◌>>=◌, take, drop, length, leb, ◌==◌, if◌then◌else◌,
}
use st_dns.Base.Text.{Text, is_empty, starts_with}

-- What stands before the first place of a separator, and behind it: `str.find(separator, pos)` with the
-- `substr` of a line, from `pos` on.
unfoldable pub find_cut : Text → Text → Option (Text × Text)
find_cut separator [] = if is_empty separator then some ([], []) else none
find_cut separator (ch ∷ text) =
    let rest = find_cut separator text in
    if starts_with separator (ch ∷ text)
    then some ([], drop (length separator) (ch ∷ text))
    else elim rest [ none ↦ none | some (line, text') ↦ some (ch ∷ line, text') ]

-- The loop of `split`. `front` is the text before `pos` that belongs to the line, which is only in the
-- first round some text: that before `start`.
unfoldable pub split_loop : ℕ → Text → Text → Text → ℕ → ℕ → Outcome (List Text)
split_loop zero separator front text s_cnt spit_cnt = err out_of_fuel
split_loop (suc fuel) separator front text s_cnt spit_cnt = elim (find_cut separator text) [
  | none ↦ ok ((front ++ text) ∷ [])
  | some (line, rest) ↦ elim (not (spit_cnt == 0) && leb spit_cnt (s_cnt + 1)) [
    | true ↦ ok ((front ++ line) ∷ rest ∷ [])
    | false ↦ split_loop fuel separator [] rest (s_cnt + 1) spit_cnt >>= λ lines.
        ok ((front ++ line) ∷ lines)
  ]
]

-- `split(str, separator, start, spit_cnt)`
unfoldable pub split : Text → Text → ℕ → ℕ → Outcome (List Text)
split str separator start spit_cnt =
    if is_empty str
    then ok []
    else split_loop (length str + 1) separator (take start str) (drop start str) 0 spit_cnt

-- The loop of `join`, with the result so far.
unfoldable pub join_loop : List Text → Text → Text → Text
join_loop [] delimit result = result
join_loop (value ∷ lists) delimit result =
    join_loop lists delimit ((if is_empty result then result else result ++ delimit) ++ value)

unfoldable pub join : List Text → Text → Text
join lists delimit = join_loop lists delimit []
