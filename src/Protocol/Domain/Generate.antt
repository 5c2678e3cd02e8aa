-- ===== src/Protocol/Domain/Generate.antt =====
-- The bytes that `generate` writes are the labels of the host, each behind its length, and a 0.
use st_dns.Base.{
  ℕ, zero, suc, ◌+◌, ◌-◌, ◌%◌, ◌<◌, ◌≡◌, refl, sym, ap, ◌∙◌, ◌≢◌, ◌⊎◌, inl, inr, List, [], ◌∷◌,
  ◌++◌, append_assoc, append-nil, append-cons_shift, true, Outcome, ok, ◌>>=◌, load-append_at,
  length, length-append, arith, ◌==◌, ==_iff, if◌then◌else◌, Bool-cases, All,
}
use st_dns.Base.Text.{Text}
use st_dns.Protocol.Domain.{
  sub_lens, total_chars, load_range, put_labels, c_str, generate_bytes, final_data_len,
}

-- A character put before the first label.
abbrev pub onto : ℕ → List Text → List Text
onto ch [] = (ch ∷ []) ∷ []
onto ch (label ∷ labels) = (ch ∷ label) ∷ labels

-- The parts of a text between its dots.
unfoldable pub split : Text → List Text
split [] = [] ∷ []
split (ch ∷ host) = let rest = split host in if ch == b'.' then [] ∷ rest else onto ch rest

abbrev pub wire_labels : List Text → Text
wire_labels [] = []
wire_labels (label ∷ labels) = length label ∷ (label ++ wire_labels labels)

pub load_range-append :
    (front xs rest : Text) (i n : ℕ)
    → i ≡ length front
    → n ≡ length xs
    → load_range (front ++ (xs ++ rest)) i n ≡ ok xs
unfolding load_range
load_range-append front [] rest i zero hi hn = refl
load_range-append front [] rest i (suc n) hi hn = absurd (omega arith)
load_range-append front (x ∷ xs) rest i zero hi hn = absurd (omega arith)
load_range-append front (x ∷ xs) rest i (suc n) hi hn =
    rw (load-append_at front (xs ++ rest) x i hi) (
      ap (λ (r : Outcome Text). r >>= λ tail. ok (x ∷ tail))
        (ap (λ (l : Text). load_range l (i + 1) n) (append-cons_shift front x xs rest)
          ∙ load_range-append (front ++ (x ∷ [])) xs rest (i + 1) n
              (omega (arith, length-append front (x ∷ []))) (omega arith)))

put_labels-cons :
    (front label rest : Text) (pairs : List (ℕ × ℕ)) (i last_begin : ℕ)
    → last_begin ≡ length front
    → i ≡ last_begin + length label
    → 0 < i
    → i < 256
    → put_labels (front ++ (label ++ rest)) ((last_begin % 256, (i + 255) % 256) ∷ pairs) ≡ (
        put_labels (front ++ (label ++ rest)) pairs >>= λ tail. ok (length label ∷ (label ++ tail)))
unfolding put_labels
put_labels-cons front label rest pairs i last_begin hb hi h0 h1 =
    let first : last_begin % 256 ≡ length front = omega arith in
    let count : (i + 255) % 256 + 1 - length front ≡ length label = omega arith in
    let size : ((i + 255) % 256 + 257 - length front) % 256 ≡ length label = omega arith in
    rw (
      first,
      count,
      size,
      load_range-append front label rest (length front) (length label) refl refl,
    )

-- A host that does not begin with a dot and is not empty.
abbrev pub StartsLabel : Text → Type 0
StartsLabel [] = ⊥
StartsLabel (ch ∷ host) = ch ≢ b'.'

-- The label read so far, put before the first label of what is left.
abbrev prepend : Text → List Text → List Text
prepend label [] = label ∷ []
prepend label (first ∷ labels) = (label ++ first) ∷ labels

pub split-cons :
    (host : Text) → (label : Text) × (labels : List Text) × (split host ≡ label ∷ labels)
unfolding split
split-cons [] = ([], [], refl)
split-cons (ch ∷ host) =
    let (label, labels, e) = split-cons host in
    elim (Bool-cases (ch == b'.')) [
      | inl dot ↦ ([], split host, rw dot)
      | inr plain ↦ (ch ∷ label, labels, rw (plain, e))
    ]

put_labels-nil : (chars : Text) → put_labels chars [] ≡ ok []
unfolding put_labels
put_labels-nil chars = refl

prepend-nil : (host : Text) → prepend [] (split host) ≡ split host
prepend-nil host = let (label, labels, e) = split-cons host in rw e

prepend-onto :
    (label host : Text) (ch : ℕ)
    → prepend (label ++ (ch ∷ [])) (split host) ≡ prepend label (onto ch (split host))
prepend-onto label host ch =
    let (first, labels, e) = split-cons host in rw (e, append_assoc label (ch ∷ []) first)

scan :
    (host front label : Text) (i last_begin : ℕ)
    → last_begin ≡ length front
    → i ≡ last_begin + length label
    → i + length host < 256
    → (0 < i) ⊎ StartsLabel host
    → put_labels (front ++ (label ++ (host ++ (0 ∷ [])))) (sub_lens i last_begin host)
      ≡ ok (wire_labels (prepend label (split host)))
unfolding sub_lens split
scan [] front label i last_begin hb hi hl (inr h) = absurd h
scan [] front label i last_begin hb hi hl (inl h) =
    put_labels-cons front label (0 ∷ []) [] i last_begin hb hi h (omega arith)
    ∙ rw (put_labels-nil (front ++ (label ++ (0 ∷ [])))) (simp append-nil)
scan (ch ∷ host) front label i last_begin hb hi hl h = elim (Bool-cases (ch == b'.')) [
  | inl dot ↦ rw dot (
      put_labels-cons front label (ch ∷ (host ++ (0 ∷ []))) (sub_lens (i + 1) (i + 1) host) i
        last_begin hb hi (begun dot h) (omega arith)
      ∙ rw
          (tail (
            scan host front' [] (i + 1) (i + 1) length-front' (omega arith) (omega arith)
              (inl (omega arith))))
          (simp append-nil))
  | inr plain ↦ rw plain (
      ap (λ (l : Text). put_labels (front ++ l) (sub_lens (i + 1) last_begin host))
        (sym (append_assoc label (ch ∷ []) (host ++ (0 ∷ []))))
      ∙ scan host front (label ++ (ch ∷ [])) (i + 1) last_begin hb
          (omega (arith, length-append label (ch ∷ []))) (omega arith) (inl (omega arith))
      ∙ ap (λ (ls : List Text). ok (wire_labels ls)) (prepend-onto label host ch))
]
  where
    begun : (ch == b'.') ≡ true → (0 < i) ⊎ StartsLabel (ch ∷ host) → 0 < i
    begun dot (inl p) = p
    begun dot (inr ne) = absurd (ne ((==_iff ch b'.').0 dot))

    front' : Text
    front' = front ++ (label ++ (ch ∷ []))

    length-front' : i + 1 ≡ length front'
    length-front' =
        omega (arith, length-append front (label ++ (ch ∷ [])), length-append label (ch ∷ []))

    assoc : front ++ (label ++ (ch ∷ (host ++ (0 ∷ [])))) ≡ front' ++ (host ++ (0 ∷ []))
    assoc = simp append_assoc

    tail :
        put_labels (front' ++ (host ++ (0 ∷ []))) (sub_lens (i + 1) (i + 1) host)
          ≡ ok (wire_labels (prepend [] (split host)))
        → put_labels (front ++ (label ++ (ch ∷ (host ++ (0 ∷ []))))) (sub_lens (i + 1) (i + 1) host)
          ≡ ok (wire_labels (split host))
    tail ih =
        ap (λ (l : Text). put_labels l (sub_lens (i + 1) (i + 1) host)) assoc
        ∙ ih
        ∙ ap (λ (ls : List Text). ok (wire_labels ls)) (prepend-nil host)

-- The name that `generate` writes for a host: its labels, and the empty one.
abbrev pub wire_name : Text → Text
wire_name host = wire_labels (split host) ++ (0 ∷ [])

pub c_str-whole : (s : Text) → All (λ (ch : ℕ). ch ≢ 0) s → c_str s ≡ s
unfolding c_str
c_str-whole [] h = refl
c_str-whole (ch ∷ s) h = ground (arith, c_str-whole s h.1, h.0)

-- A host of at most 255 characters that neither is empty nor begins with a dot is written as its
-- labels, each behind its length, and a last 0.
pub generate_bytes-wire_name :
    (host : Text)
    → length host < 256
    → StartsLabel host
    → All (λ (ch : ℕ). ch ≢ 0) host
    → generate_bytes host ≡ ok (wire_name host)
unfolding generate_bytes
generate_bytes-wire_name host hl hs hz =
    rw (c_str-whole host hz, scan host [] [] 0 0 refl refl (omega arith) (inr hs), prepend-nil host)

-- `finalDataLen` is the number of the bytes written.
length-scan :
    (host : Text) (i last_begin : ℕ)
    → length (sub_lens i last_begin host) + total_chars host ≡ length (wire_labels (split host))
unfolding sub_lens total_chars split
length-scan [] i last_begin = refl
length-scan (ch ∷ host) i last_begin = elim (Bool-cases (ch == b'.')) [
  | inl dot ↦ rw dot (omega (arith, length-scan host (i + 1) (i + 1)))
  | inr plain ↦
      let (label, labels, e) = split-cons host in
      let ih : length (sub_lens (i + 1) last_begin host) + total_chars host
          ≡ length (wire_labels (label ∷ labels)) =
        rw e at (length-scan host (i + 1) last_begin) in
      rw (plain, e) (omega (arith, ih))
]

pub length-wire_labels : (host : Text) → length (wire_labels (split host)) ≡ length host + 1
unfolding split
length-wire_labels [] = refl
length-wire_labels (ch ∷ host) = elim (Bool-cases (ch == b'.')) [
  | inl dot ↦ rw dot (omega (arith, length-wire_labels host))
  | inr plain ↦
      let (label, labels, e) = split-cons host in
      let ih : length (wire_labels (label ∷ labels)) ≡ length host + 1 =
        rw e at (length-wire_labels host) in
      rw (plain, e) (omega (arith, ih))
]

-- For a host without a 0 character the length that `generate` gives the object is that of the name
-- written, two more than the host's.
pub final_data_len-wire_name :
    (host : Text)
    → All (λ (ch : ℕ). ch ≢ 0) host
    → (final_data_len host ≡ length (wire_name host)) × (length (wire_name host) ≡ length host + 2)
unfolding final_data_len
final_data_len-wire_name host hz = rw (c_str-whole host hz) (
    omega (
      arith,
      length-scan host 0 0,
      length-wire_labels host,
      length-append (wire_labels (split host)) (0 ∷ []),
    ))
