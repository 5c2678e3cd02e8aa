-- ===== src/Protocol/Resource.antt =====
-- Resource records: class dns_resource_zone of src/core/protocol/dns_message.h.
pub mod RoundTrip
use st_dns.Base.{
  ℕ, zero, suc, ◌+◌, ◌*◌, ◌/◌, ◌%◌, List, [], ◌∷◌, ◌++◌, Bool, true, false, Option, none, some,
  Outcome, ok, ◌>>=◌, store, ◌==◌, if◌then◌else◌,
}
use st_dns.Utils.Bytes.{read, write}
use st_dns.Protocol.Header.{default_len}
use st_dns.Protocol.Domain.{DnsDomain, parse_domain, sub64}
use st_dns.Protocol.Query.{type_cname, type_a}

pub record DnsResourceZone : Type 0 where
  pub len : ℕ
  pub valid : Bool
  pub domain : Option DnsDomain
  pub cname : Option DnsDomain
  pub kind : ℕ
  pub resource : ℕ
  pub live_time : ℕ
  pub length : ℕ
  pub ipv4s : List ℕ

-- DEFAULT_SINGLE_IP_LEN and MAX_LEN
abbrev pub default_single_ip_len : ℕ
default_single_ip_len = 2 + 2 + 2 + 4 + 2 + 4

abbrev pub max_len : ℕ
max_len = 512

-- `n` addresses from `at` on.
unfoldable pub read_ips : List ℕ → ℕ → ℕ → Outcome (List ℕ)
read_ips buf at zero = ok []
read_ips buf at (suc n) = do ipv4 ← read buf 4 at 0; ips ← read_ips buf (at + 4) n; ok (ipv4 ∷ ips)

-- What the record holds: the name of a CNAME, and else addresses, whatever the type.
unfoldable pub parse_content : List ℕ → ℕ → ℕ → ℕ → ℕ → DnsResourceZone → Outcome DnsResourceZone
parse_content buf base original_max cur size zone =
    if zone.kind == type_cname
    then (do
      name ← parse_domain buf base original_max cur zone.length
      if name.valid
          then ok (record zone { cname = some name; len = size })
          else ok (record zone { cname = some name; len = 0; valid = false }))
    else if zone.length % 4 == 0
    then (do
      ips ← read_ips buf (base + cur) (zone.length / 4)
      ok (record zone { ipv4s = ips; len = size }))
    else ok (record zone { len = 0; valid = false })

-- `dns_resource_zone(buf + base, originalMax, begin)`
unfoldable pub parse_resource : List ℕ → ℕ → ℕ → ℕ → Outcome DnsResourceZone
parse_resource buf base original_max begin = do
  name ← parse_domain buf base original_max begin (sub64 original_max begin)
  let blank : DnsResourceZone = record {
    len = sub64 original_max begin;
    valid = true;
    domain = some name;
    cname = none;
    kind = 0;
    resource = 0;
    live_time = 0;
    length = 0;
    ipv4s = [];
  }
  if name.valid
      then (do
        kind ← read buf 2 (base + begin + name.len) 0
        resource ← read buf 2 (base + begin + name.len + 2) 0
        live_time ← read buf 4 (base + begin + name.len + 4) 0
        length ← read buf 2 (base + begin + name.len + 8) 0
        parse_content buf base original_max (begin + name.len + 10) (name.len + 10 + length)
            (record blank {
              kind = kind;
              resource = resource;
              live_time = live_time;
              length = length;
            }))
      else ok (record blank { len = 0; valid = false })

-- The bytes that `generate` writes: a pointer to the name of the first question, then the fields.
unfoldable pub resource_bytes : ℕ → ℕ → List ℕ
resource_bytes ip expire =
    0xc0
    ∷ default_len
    ∷ (write 2 type_a ++ (write 2 1 ++ (write 4 expire ++ (write 2 4 ++ write 4 ip))))

-- `dns_resource_zone::generate(buf + at, ip, expire)`
unfoldable pub generate_resource : List ℕ → ℕ → ℕ → ℕ → Outcome (DnsResourceZone × List ℕ)
generate_resource buf at ip expire = do
  buf' ← store buf at (resource_bytes ip expire)
  ok (
    record {
      len = default_single_ip_len;
      valid = true;
      domain = none;
      cname = none;
      kind = type_a;
      resource = 1;
      live_time = expire;
      length = 0;
      ipv4s = ip ∷ [];
    },
    buf',
  )
