-- ===== src/Protocol/Domain.antt =====
-- Domain names on the wire: class dns_domain of src/core/protocol/dns_message.h and dns_message.cpp.
pub mod Generate
pub mod Labels
pub mod RoundTrip
pub mod Total
pub mod Safety
pub mod Suffix
use st_dns.Base.{
  ℕ, zero, suc, ◌+◌, ◌-◌, ◌*◌, ◌/◌, ◌%◌, ◌^◌, List, [], ◌∷◌, ◌++◌, map, Bool, true, false, Option,
  none, some, bit_and, bit_or, Outcome, Error, ok, err, ◌>>=◌, out_of_fuel, load, store, ltb, ◌==◌,
  if◌then◌else◌, length, take, drop,
}
use st_dns.Base.Text.{Text, is_empty, to_upper, find, find_last}

-- The fields of a dns_domain that its users read; `valid` and `len` are those of basic_data.
pub record DnsDomain : Type 0 where
  pub domain : Text
  pub len : ℕ
  pub valid : Bool

-- The labels of `generate`: the first and the last index of each, kept in an `unsigned char`. The
-- index before 0 is -1, which is 255 there.
unfoldable pub sub_lens : ℕ → ℕ → Text → List (ℕ × ℕ)
sub_lens i last_begin [] = (last_begin % 256, (i + 255) % 256) ∷ []
sub_lens i last_begin (ch ∷ host) =
    let rest = sub_lens (i + 1) (if ch == b'.' then i + 1 else last_begin) host in
    if ch == b'.' then (last_begin % 256, (i + 255) % 256) ∷ rest else rest

-- How many characters are no dots.
unfoldable pub total_chars : Text → ℕ
total_chars [] = 0
total_chars (ch ∷ host) = let rest = total_chars host in if ch == b'.' then rest else rest + 1

-- `n` bytes from address `i` on.
unfoldable pub load_range : List ℕ → ℕ → ℕ → Outcome Text
load_range buf i zero = ok []
load_range buf i (suc n) = do b ← load buf i; rest ← load_range buf (i + 1) n; ok (b ∷ rest)

-- A label is its length, cut to a byte, and the characters from the first to the last index.
unfoldable pub put_labels : Text → List (ℕ × ℕ) → Outcome Text
put_labels chars [] = ok []
put_labels chars ((first, last) ∷ pairs) = do
  label ← load_range chars first (last + 1 - first)
  rest ← put_labels chars pairs
  ok (((last + 257 - first) % 256) ∷ (label ++ rest))

-- `strlen`: what stands before the first 0.
unfoldable pub c_str : Text → Text
c_str [] = []
c_str (ch ∷ s) = let rest = c_str s in if ch == 0 then [] else ch ∷ rest

-- The bytes that `generate` writes. `host.data()` ends in a 0.
unfoldable pub generate_bytes : Text → Outcome Text
generate_bytes host = do
  labels ← put_labels (host ++ (0 ∷ [])) (sub_lens 0 0 (c_str host))
  ok (labels ++ (0 ∷ []))

unfoldable pub final_data_len : Text → ℕ
final_data_len host = length (sub_lens 0 0 (c_str host)) + total_chars (c_str host) + 1

-- `dns_domain::generate(data + at, host)`
unfoldable pub generate : List ℕ → ℕ → Text → Outcome (DnsDomain × List ℕ)
generate buf at host = do
  bytes ← generate_bytes host
  buf' ← store buf at bytes
  ok (record { domain = host; len = final_data_len host; valid = true }, buf')

-- a - b on uint64_t.
abbrev pub sub64 : ℕ → ℕ → ℕ
sub64 a b = (a + 2 ^ 64 - b) % 2 ^ 64

-- One round of the loop of `parseRe`: it ends with `actualLen` and the domain, or goes on with them.
pub data Step : Type 0 where
  stop : ℕ → Text → Step
  more : ℕ → Text → Step

-- `domain += "."` unless it is empty, and then the label.
abbrev pub add_label : Text → Text → Text
add_label domain label = (if is_empty domain then domain else domain ++ (b'.' ∷ [])) ++ label

-- A label of `frame_len` bytes. Its copy is a C string: a 0 in it ends it.
unfoldable pub label_step : List ℕ → ℕ → ℕ → ℕ → ℕ → Text → Outcome Step
label_step buf start max_parse frame_len actual_len domain =
    if frame_len == 0
    then ok (stop actual_len domain)
    else if ltb (max_parse - actual_len) frame_len
    then ok (stop 0 domain)
    else (do
      label ← load_range buf (start + actual_len) frame_len
      ok (more (actual_len + frame_len) (add_label domain (c_str label))))

-- What follows once the domain that a pointer names is read.
unfoldable pub join_step : ℕ → Text → ℕ → Text → Step
join_step actual_len domain consume domain_re =
    if consume == 0
    then stop 0 domain
    else if is_empty domain
    then stop actual_len domain_re
    else more actual_len (domain ++ (b'.' ∷ domain_re))

-- A compression pointer. `again pos max` is the call of `parseRe` at the next depth.
unfoldable pub pointer_step :
    (ℕ → ℕ → Outcome (ℕ × Text)) → List ℕ → ℕ → ℕ → ℕ → ℕ → ℕ → Text → Outcome Step
pointer_step again buf start size begin frame_len actual_len domain = do
  low ← load buf (start + actual_len + 1)
  let pos = bit_or (bit_or 0 (bit_and frame_len 0x3f * 2 ^ 8)) low
  if pos == begin then ok (stop (actual_len + 2) domain) else (do
    (consume, domain_re) ← again pos (sub64 size pos)
    ok (join_step (actual_len + 2) domain consume domain_re))

unfoldable pub parse_step :
    (ℕ → ℕ → Outcome (ℕ × Text)) → List ℕ → ℕ → ℕ → ℕ → ℕ → ℕ → Text → Outcome Step
parse_step again buf start size begin max_parse actual_len domain = do
  frame_len ← load buf (start + actual_len)
  if bit_and frame_len 0xc0 == 0xc0
      then pointer_step again buf start size begin frame_len actual_len domain
      else if bit_and frame_len 0xc0 == 0
      then label_step buf start max_parse frame_len (actual_len + 1) domain
      else ok (stop actual_len domain)

-- `while (actualLen < maxParse)`, with `fuel` rounds at most.
unfoldable pub parse_loop :
    (ℕ → ℕ → Outcome (ℕ × Text)) → ℕ → List ℕ → ℕ → ℕ → ℕ → ℕ → ℕ → Text → Outcome (ℕ × Text)
parse_loop again zero buf start size begin max_parse actual_len domain = err out_of_fuel
parse_loop again (suc fuel) buf start size begin max_parse actual_len domain =
    elim (ltb actual_len max_parse) [
      | false ↦ ok (actual_len, domain)
      | true ↦ parse_step again buf start size begin max_parse actual_len domain >>= elim [
        | stop actual_len' domain' ↦ ok (actual_len', domain')
        | more actual_len' domain' ↦
            parse_loop again fuel buf start size begin max_parse actual_len' domain'
      ]
    ]

-- `parseRe(buf + base, size, begin, maxParse, domain, depth)` with `21 - depth` calls left. A round
-- takes a byte of the buffer at least, so the buffer's length is fuel enough.
unfoldable pub parse_re : ℕ → List ℕ → ℕ → ℕ → ℕ → ℕ → Text → Outcome (ℕ × Text)
parse_re zero buf base size begin max_parse domain = ok (0, domain)
parse_re (suc left) buf base size begin max_parse domain =
    parse_loop (λ pos max_parse'. parse_re left buf base size pos max_parse' []) (suc (length buf))
      buf (base + begin) size begin max_parse 0 domain

-- `depth > 20` is refused.
abbrev pub max_depth : ℕ
max_depth = 21

-- The static `dns_domain::parse`: the bytes consumed, 0 on failure, and the domain.
unfoldable pub parse : List ℕ → ℕ → ℕ → ℕ → ℕ → Text → Outcome (ℕ × Text)
parse buf base size begin max_parse domain = parse_re max_depth buf base size begin max_parse domain

-- The constructors and `parse()`: no bytes consumed marks the object invalid, with length 0.
unfoldable pub parse_domain : List ℕ → ℕ → ℕ → ℕ → ℕ → Outcome DnsDomain
parse_domain buf base size begin max_parse = do
  (actual_len, domain) ← parse buf base size begin max_parse []
  if actual_len == 0
      then ok (record { domain = domain; len = 0; valid = false })
      else ok (record { domain = domain; len = actual_len; valid = true })

unfoldable pub get_fi_domain : Text → Text
get_fi_domain domain = elim (find_last b'.' domain) [
  | none ↦ []
  | some pos ↦ map to_upper (drop (pos + 1) domain)
]

unfoldable pub remove_fi_domain : Text → Text
remove_fi_domain domain = elim (find_last b'.' domain) [
  | none ↦ domain
  | some pos ↦ take pos domain
]
