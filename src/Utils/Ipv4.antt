-- ===== src/Utils/Ipv4.antt =====
-- Addresses as text: src/common/main/utils/ipv4.h.
pub mod Digits
pub mod RoundTrip
pub mod Chars
pub mod Several
mod Tests
use st_dns.Base.{
  ℕ, zero, suc, ◌+◌, ◌-◌, ◌*◌, ◌/◌, ◌%◌, ◌^◌, List, [], ◌∷◌, ◌++◌, Bool, true, false, ◌&&◌, Option,
  none, some, Outcome, ok, err, thrown, ◌>>=◌, bit_or, take, drop, length, ltb, leb, ◌==◌,
  if◌then◌else◌,
}
use st_dns.Base.Text.{Text, is_empty, find}

-- `to_string`, of a number with ten digits at most.
unfoldable pub digits : ℕ → ℕ → Text → Text
digits zero n text = text
digits (suc left) n text =
    let rest = digits left (n / 10) ((b'0' + n % 10) ∷ text) in
    if ltb n 10 then (b'0' + n % 10) ∷ text else rest

abbrev pub to_string : ℕ → Text
to_string n = digits 10 n []

-- `ip_to_str`: the masks and shifts give the four bytes.
unfoldable pub ip_to_str : ℕ → Text
ip_to_str ip =
    to_string (ip / 2 ^ 24 % 2 ^ 8)
    ++ (b'.' ∷ to_string (ip / 2 ^ 16 % 2 ^ 8)
        ++ (b'.' ∷ to_string (ip / 2 ^ 8 % 2 ^ 8) ++ (b'.' ∷ to_string (ip % 2 ^ 8))))

abbrev pub is_digit : ℕ → Bool
is_digit ch = leb b'0' ch && leb ch b'9'

-- The digits that `stoi` reads, for a text that begins with one.
unfoldable pub number : ℕ → Text → ℕ
number acc [] = acc
number acc (ch ∷ text) =
    let rest = number (acc * 10 + (ch - b'0')) text in if is_digit ch then rest else acc

-- Whether the text is empty, or the loop over it finds its first character to be no digit.
unfoldable pub is_rejected : Text → Bool
is_rejected [] = true
is_rejected (ch ∷ text) = if is_digit ch then false else true

-- The loop of `str_to_ip` with `left` rounds to go, in round `num` and at `last`. The second argument
-- of `substr` is the place of the dot, where a count is meant; behind the last number `pos + 1` is 0.
unfoldable pub read_segments : ℕ → ℕ → ℕ → ℕ → Text → Outcome ℕ
read_segments zero num last ip text = ok ip
read_segments (suc left) num last ip text =
    let segment : Text → ℕ → Outcome ℕ = λ chars next.
      if is_rejected chars
      then ok 0
      else if leb (2 ^ 31) (number 0 chars)
      then err thrown
      else if ltb 255 (number 0 chars)
      then ok 0
      else read_segments left (num + 1) next (bit_or ip (number 0 chars * 2 ^ (32 - 8 * (num + 1))))
          text in
    if ltb last (length text)
    then (elim (find b'.' (drop last text)) [
      | none ↦ if num == 3 then segment (drop last text) 0 else ok 0
      | some i ↦
          if num == 3 then ok 0 else segment (take (last + i) (drop last text)) (last + i + 1)
    ])
    else ok ip

-- `str_to_ip`
unfoldable pub str_to_ip : Text → Outcome ℕ
str_to_ip text = read_segments 4 0 0 0 text

-- `ips_to_str`: `substr(0, length - 1)`, where the length of nothing wraps around.
unfoldable pub ips_text : List ℕ → Text
ips_text [] = []
ips_text (ip ∷ ips) = ip_to_str ip ++ (b',' ∷ ips_text ips)

unfoldable pub ips_to_str : List ℕ → Text
ips_to_str ips = let text = ips_text ips in take (length text - 1) text
