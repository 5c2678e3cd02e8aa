-- ===== src/Protocol/Resource/RoundTrip.antt =====
-- An address record written by `generate` is read back by `parse`.
use st_dns.Base.{
  ℕ, ◌+◌, ◌*◌, ◌^◌, ◌≤◌, ◌<◌, ◌≡◌, refl, sym, ap, ◌∙◌, ◌≢◌, [], ◌∷◌, ◌++◌, append_assoc, true,
  Outcome, ok, length, length-append, arith, some, none,
}
use st_dns.Base.Text.{Text}
use st_dns.Utils.Bytes.{read, read-write, write, length-write}
use st_dns.Protocol.Header.{default_len}
use st_dns.Protocol.Domain.{stop, parse_step, parse_re, parse, parse_domain, sub64}
use st_dns.Protocol.Domain.Generate.{wire_name, wire_labels, split}
use st_dns.Protocol.Domain.RoundTrip.{IsHost, parse_re-wire_name}
use st_dns.Protocol.Domain.Labels.{parse_loop_stop}
use st_dns.Protocol.Domain.Suffix.{first_pointer_round}
use st_dns.Protocol.Resource.{
  DnsResourceZone, resource_bytes, parse_resource, parse_content, read_ips, default_single_ip_len,
}
use st_dns.Protocol.Query.{type_a}

length-wire_name-pos : (host : Text) → 0 < length (wire_name host)
length-wire_name-pos host = omega (arith, length-append (wire_labels (split host)) (0 ∷ []))

-- A buffer whose message begins at `base`, with the name of `host` behind the header.
module _ (lead host mid : Text) (base : ℕ) (placed : base + default_len ≡ length lead)
    (named : IsHost host) where
  abbrev before : Text
  before = lead ++ (wire_name host ++ mid)

  found :
      (rest : Text) (original_max : ℕ)
      → original_max < 2 ^ 64
      → default_len + length (wire_name host) ≤ original_max
      → parse_re 20
          (before ++ (0xc0 ∷ default_len ∷ rest))
          base
          original_max
          default_len
          (sub64 original_max default_len)
          []
        ≡ ok (length (wire_name host), host)
  found rest original_max hs hn =
      ap
        (λ (b : Text).
          parse_re 20 b base original_max default_len (sub64 original_max default_len) [])
        (simp append_assoc)
      ∙ parse_re-wire_name 19 lead (mid ++ (0xc0 ∷ default_len ∷ rest)) host base original_max
          default_len (sub64 original_max default_len) placed (omega arith) named

  -- The pointer that every answer begins with leads to that name.
  pub parse_domain-pointer :
      (rest : Text) (original_max begin : ℕ)
      → base + begin ≡ length before
      → begin < original_max
      → original_max < 2 ^ 64
      → default_len + length (wire_name host) ≤ original_max
      → parse_domain
          (before ++ (0xc0 ∷ default_len ∷ rest))
          base
          original_max
          begin
          (sub64 original_max begin)
        ≡ ok (record { domain = host; len = 2; valid = true })
  unfolding parse_domain parse parse_re
  parse_domain-pointer rest original_max begin hb hm hs hn = rw (
      parse_loop_stop again (base + begin) original_max begin (sub64 original_max begin) buf 0
        (length buf) [] (omega arith) step)
    where
      again : ℕ → ℕ → Outcome (ℕ × Text)
      again pos max =
          parse_re 20 (before ++ (0xc0 ∷ default_len ∷ rest)) base original_max pos max []

      buf : Text
      buf = before ++ (0xc0 ∷ default_len ∷ rest)

      other : default_len ≢ begin
      other e = omega (
        arith,
        e,
        length-append lead (wire_name host ++ mid),
        length-append (wire_name host) mid,
        length-wire_name-pos host,
      )

      step :
          parse_step again buf (base + begin) original_max begin (sub64 original_max begin) 0 []
          ≡ ok (stop 2 host)
      step =
          first_pointer_round again (base + begin) original_max begin (sub64 original_max begin)
            before rest host 0xc0 default_len (length (wire_name host)) hb refl other
            (found rest original_max hs hn) (length-wire_name-pos host)

  abbrev pub answer : ℕ → ℕ → DnsResourceZone
  answer ip expire = record {
    len = default_single_ip_len;
    valid = true;
    domain = some (record { domain = host; len = 2; valid = true });
    cname = none;
    kind = type_a;
    resource = 1;
    live_time = expire;
    length = 4;
    ipv4s = ip ∷ [];
  }

  -- The bytes of an answer, with what follows.
  abbrev answer_bytes : ℕ → ℕ → Text → Text
  answer_bytes ip expire rest =
      0xc0
      ∷ default_len
      ∷ (write 2 type_a ++ (write 2 1 ++ (write 4 expire ++ (write 2 4 ++ (write 4 ip ++ rest)))))

  field :
      (front after buf : Text) (n value at : ℕ)
      → buf ≡ before ++ (front ++ (write n value ++ after))
      → at ≡ length before + length front
      → value < 2 ^ (n * 8)
      → read buf n at 0 ≡ ok value
  field front after buf n value at hb ha hv =
      ap (λ (b : Text). read b n at 0)
        (hb ∙ sym (append_assoc before front (write n value ++ after)))
      ∙ read-write (before ++ front) after n at value (omega (arith, length-append before front)) hv

  parse_resource-answer_bytes :
      (rest : Text) (ip expire original_max begin : ℕ)
      → base + begin ≡ length before
      → begin < original_max
      → original_max < 2 ^ 64
      → default_len + length (wire_name host) ≤ original_max
      → ip < 2 ^ 32
      → expire < 2 ^ 32
      → parse_resource (before ++ answer_bytes ip expire rest) base original_max begin
        ≡ ok (answer ip expire)
  unfolding parse_resource parse_content read_ips
  parse_resource-answer_bytes rest ip expire original_max begin hb hm hs hn hi he =
      rw
        (parse_domain-pointer _ original_max begin hb hm hs hn, kind, resource, time, size, content)
    where
      buf : Text
      buf = before ++ answer_bytes ip expire rest

      f1 : Text
      f1 = 0xc0 ∷ default_len ∷ []

      f2 : Text
      f2 = f1 ++ write 2 type_a

      f3 : Text
      f3 = f2 ++ write 2 1

      f4 : Text
      f4 = f3 ++ write 4 expire

      f5 : Text
      f5 = f4 ++ write 2 4

      l2 : length f2 ≡ 4
      l2 = omega (arith, length-append f1 (write 2 type_a), length-write 2 type_a)

      l3 : length f3 ≡ 6
      l3 = omega (arith, l2, length-append f2 (write 2 1), length-write 2 1)

      l4 : length f4 ≡ 10
      l4 = omega (arith, l3, length-append f3 (write 4 expire), length-write 4 expire)

      l5 : length f5 ≡ 12
      l5 = omega (arith, l4, length-append f4 (write 2 4), length-write 2 4)

      kind : read buf 2 (base + begin + 2) 0 ≡ ok type_a
      kind = field f1 _ buf 2 type_a (base + begin + 2) refl (omega arith) (omega arith)

      resource : read buf 2 (base + begin + 2 + 2) 0 ≡ ok 1
      resource =
          field f2 (write 4 expire ++ (write 2 4 ++ (write 4 ip ++ rest))) buf 2 1
            (base + begin + 2 + 2) (simp append_assoc) (omega (arith, l2)) (omega arith)

      time : read buf 4 (base + begin + 2 + 4) 0 ≡ ok expire
      time =
          field f3 (write 2 4 ++ (write 4 ip ++ rest)) buf 4 expire (base + begin + 2 + 4)
            (simp append_assoc) (omega (arith, l3)) he

      size : read buf 2 (base + begin + 2 + 8) 0 ≡ ok 4
      size =
          field f4 (write 4 ip ++ rest) buf 2 4 (base + begin + 2 + 8) (simp append_assoc)
            (omega (arith, l4)) (omega arith)

      content : read buf 4 (base + (begin + 2 + 10)) 0 ≡ ok ip
      content =
          field f5 rest buf 4 ip (base + (begin + 2 + 10)) (simp append_assoc) (omega (arith, l5))
            hi

  -- Where the name of the host stands behind the header, an answer with a time to live and an
  -- address of 32 bits, written behind it, is read back: the host, the time to live, the address.
  pub parse_resource-resource_bytes :
      (rest : Text) (ip expire original_max begin : ℕ)
      → base + begin ≡ length before
      → begin < original_max
      → original_max < 2 ^ 64
      → default_len + length (wire_name host) ≤ original_max
      → ip < 2 ^ 32
      → expire < 2 ^ 32
      → parse_resource (before ++ (resource_bytes ip expire ++ rest)) base original_max begin
        ≡ ok (answer ip expire)
  unfolding resource_bytes
  parse_resource-resource_bytes rest ip expire original_max begin hb hm hs hn hi he =
      ap (λ (b : Text). parse_resource b base original_max begin) (simp append_assoc)
      ∙ parse_resource-answer_bytes rest ip expire original_max begin hb hm hs hn hi he
