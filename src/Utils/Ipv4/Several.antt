-- ===== src/Utils/Ipv4/Several.antt =====
-- Several addresses as a text: `str_to_ips` of src/common/main/utils/ipv4.h reads what `ips_to_str`
-- writes.
use st_dns.Base.{
  ℕ, ◌-◌, ◌^◌, ◌<◌, ◌≡◌, refl, sym, ap, ◌∙◌, inl, List, [], ◌∷◌, ◌++◌, append_assoc, map, Outcome,
  ok, ◌>>=◌, take, take-append, length, length-append, ltb, lt→ltb, if◌then◌else◌, All, arith,
}
use st_dns.Base.Text.{Text}
use st_dns.Utils.Ipv4.{ip_to_str, str_to_ip, ips_text, ips_to_str}
use st_dns.Utils.Ipv4.RoundTrip.{str_to_ip-ip_to_str}
use st_dns.Utils.Ipv4.Chars.{ip_to_str-Plain, ip_to_str_nonempty, find_not-Plain}
use st_dns.Utils.Strings.{split}
use st_dns.Utils.Strings.Split.{glue}
use st_dns.Utils.Strings.Join.{Items, split-Items}

-- The loop of `str_to_ips`. A text that is no address gives 0 and is left out.
unfoldable pub read_ips : List Text → Outcome (List ℕ)
read_ips [] = ok []
read_ips (text ∷ texts) =
    let rest = read_ips texts in
    str_to_ip text >>= λ ip. rest >>= λ ips. ok (if ltb 0 ip then ip ∷ ips else ips)

-- `str_to_ips`
unfoldable pub str_to_ips : Text → Outcome (List ℕ)
str_to_ips text = split text (b',' ∷ []) 0 0 >>= λ texts. read_ips texts

-- An address of 32 bits that is not 0.
abbrev pub Address : ℕ → Type 0
Address ip = (0 < ip) × (ip < 2 ^ 32)

ips_text-glue :
    (ip : ℕ) (ips : List ℕ)
    → ips_text (ip ∷ ips) ≡ glue (b',' ∷ []) (map ip_to_str (ip ∷ ips)) ++ (b',' ∷ [])
unfolding ips_text glue
ips_text-glue ip [] = refl
ips_text-glue ip (next ∷ ips) =
    ap (λ (t : Text). ip_to_str ip ++ (b',' ∷ t)) (ips_text-glue next ips)
    ∙ sym (
        append_assoc (ip_to_str ip) (b',' ∷ glue (b',' ∷ []) (map ip_to_str (next ∷ ips)))
          (b',' ∷ []))

ips_to_str-glue :
    (ip : ℕ) (ips : List ℕ) → ips_to_str (ip ∷ ips) ≡ glue (b',' ∷ []) (map ip_to_str (ip ∷ ips))
unfolding ips_to_str
ips_to_str-glue ip ips =
    let text : Text = glue (b',' ∷ []) (map ip_to_str (ip ∷ ips)) in
    ap (λ (t : Text). take (length t - 1) t) (ips_text-glue ip ips)
    ∙ take-append text (b',' ∷ []) (length (text ++ (b',' ∷ [])) - 1)
        (omega (arith, length-append text (b',' ∷ [])))

map-Items : (ips : List ℕ) → Items b',' (map ip_to_str ips)
map-Items [] = tt
map-Items (ip ∷ ips) = (
  record {
    some_ch = ip_to_str_nonempty ip;
    not_found = find_not-Plain b',' (ip_to_str ip) (inl (omega arith)) (ip_to_str-Plain ip);
  },
  map-Items ips,
)

read_ips-map : (ips : List ℕ) → All Address ips → read_ips (map ip_to_str ips) ≡ ok ips
unfolding read_ips
read_ips-map [] h = refl
read_ips-map (ip ∷ ips) h =
    rw (str_to_ip-ip_to_str ip h.0.1, read_ips-map ips h.1, lt→ltb 0 ip h.0.0) refl

several :
    (ip : ℕ) (ips : List ℕ)
    → All Address (ip ∷ ips)
    → str_to_ips (ips_to_str (ip ∷ ips)) ≡ ok (ip ∷ ips)
unfolding str_to_ips
several ip ips h =
    rw
      (
        ips_to_str-glue ip ips,
        split-Items b',' (ip_to_str ip) (map ip_to_str ips) (map-Items (ip ∷ ips)),
      )
      (read_ips-map (ip ∷ ips) h)

-- Addresses of 32 bits other than 0 are read back from the text of them all, none included.
pub str_to_ips-ips_to_str : (ips : List ℕ) → All Address ips → str_to_ips (ips_to_str ips) ≡ ok ips
unfolding str_to_ips ips_to_str ips_text split read_ips
str_to_ips-ips_to_str [] h = refl
str_to_ips-ips_to_str (ip ∷ ips) h = several ip ips h
