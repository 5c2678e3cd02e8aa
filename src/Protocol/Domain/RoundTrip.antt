-- ===== src/Protocol/Domain/RoundTrip.antt =====
-- `parse` reads back the name that `generate` wrote.
use st_dns.Base.{
  true, ℕ, suc, ◌+◌, ◌≤◌, ◌<◌, ◌≡◌, refl, sym, ap, ◌∙◌, inl, inr, List, [], ◌∷◌, ◌++◌, append_assoc,
  append-nil, ok, length, length-append, arith, ◌==◌, ==_iff, Bool-cases, All, ne→==,
}
use st_dns.Base.Text.{Text}
use st_dns.Protocol.Domain.{parse_domain, parse_re, parse}
use st_dns.Protocol.Domain.Generate.{split, wire_labels, wire_name, split-cons}
use st_dns.Protocol.Domain.Labels.{IsLabel, add_labels, parse_loop-wire_labels}

-- The labels behind the first one, each after a dot.
abbrev dotted : List Text → Text
dotted [] = []
dotted (label ∷ labels) = b'.' ∷ (label ++ dotted labels)

add_labels-dotted :
    (ch : ℕ) (domain : Text) (labels : List Text)
    → add_labels (ch ∷ domain) labels ≡ ch ∷ (domain ++ dotted labels)
add_labels-dotted ch domain [] = ap (◌∷◌ ch) (sym (append-nil domain))
add_labels-dotted ch domain (label ∷ labels) =
    add_labels-dotted ch ((domain ++ (b'.' ∷ [])) ++ label) labels ∙ ap (◌∷◌ ch) (simp append_assoc)

abbrev join : List Text → Text
join [] = []
join (label ∷ labels) = label ++ dotted labels

join-split : (host : Text) → join (split host) ≡ host
unfolding split
join-split [] = refl
join-split (ch ∷ host) =
    let (label, labels, e) = split-cons host in
    let ih : join (label ∷ labels) ≡ host = rw e at (join-split host) in
    elim (Bool-cases (ch == b'.')) [
      | inl dot ↦ rw (dot, e, ih) (ap (λ (c : ℕ). c ∷ host) (sym ((==_iff ch b'.').0 dot)))
      | inr plain ↦ rw (plain, e, ih)
    ]

add_labels-join : (labels : List Text) → All IsLabel labels → add_labels [] labels ≡ join labels
add_labels-join [] h = refl
add_labels-join ([] ∷ labels) h = absurd (omega (arith, h.0.nonempty))
add_labels-join ((ch ∷ label) ∷ labels) h = add_labels-dotted ch label labels

length-labels-le : (labels : List Text) → length labels ≤ length (wire_labels labels)
length-labels-le [] = omega arith
length-labels-le (label ∷ labels) =
    omega (arith, length-labels-le labels, length-append label (wire_labels labels))

-- A host whose parts are all labels.
abbrev pub IsHost : Text → Type 0
IsHost host = All IsLabel (split host)

pub parse_re-wire_name :
    (left : ℕ) (front rest host : Text) (base size begin max_parse : ℕ)
    → base + begin ≡ length front
    → length (wire_name host) ≤ max_parse
    → IsHost host
    → parse_re (suc left) (front ++ (wire_name host ++ rest)) base size begin max_parse []
      ≡ ok (length (wire_name host), host)
unfolding parse_re
parse_re-wire_name left front rest host base size begin max_parse hb hm hl =
    parse_loop-wire_labels _ (base + begin) size begin max_parse (split host) front rest [] 0 _
      (omega arith) (omega (arith, written)) enough hl
    ∙ ap (λ (n : ℕ). ok (n, add_labels [] (split host))) (omega (arith, written))
    ∙ ap (λ (d : Text). ok (length (wire_name host), d))
        (add_labels-join (split host) hl ∙ join-split host)
  where
    written : length (wire_name host) ≡ length (wire_labels (split host)) + 1
    written = length-append (wire_labels (split host)) (0 ∷ [])

    enough : length (split host) < suc (length (front ++ (wire_name host ++ rest)))
    enough = omega (
      arith,
      written,
      length-labels-le (split host),
      length-append front (wire_name host ++ rest),
      length-append (wire_name host) rest,
    )

-- `parse` reads the name written for a host whose parts are labels of at most 63 characters, at
-- any place of a buffer and if the name is not longer than it may read: it consumes just that name
-- and returns the host.
pub parse-wire_name :
    (front rest host : Text) (base size begin max_parse : ℕ)
    → base + begin ≡ length front
    → length (wire_name host) ≤ max_parse
    → IsHost host
    → parse (front ++ (wire_name host ++ rest)) base size begin max_parse []
      ≡ ok (length (wire_name host), host)
unfolding parse
parse-wire_name front rest host base size begin max_parse hb hm hl =
    parse_re-wire_name 20 front rest host base size begin max_parse hb hm hl

-- So does the object's constructor.
pub parse_domain-wire_name :
    (front rest host : Text) (base size begin max_parse : ℕ)
    → base + begin ≡ length front
    → length (wire_name host) ≤ max_parse
    → IsHost host
    → parse_domain (front ++ (wire_name host ++ rest)) base size begin max_parse
      ≡ ok (record { domain = host; len = length (wire_name host); valid = true })
unfolding parse_domain
parse_domain-wire_name front rest host base size begin max_parse hb hm hl = rw (
  parse-wire_name front rest host base size begin max_parse hb hm hl,
  ne→== (length (wire_name host)) 0
      (omega (arith, length-append (wire_labels (split host)) (0 ∷ []))),
)
