-- ===== src/Protocol/Query.antt =====
-- Questions: classes dns_query and dns_query_zone of src/core/protocol/dns_message.h. An object's
-- `data` pointer is the address `at` in the buffer.
pub mod RoundTrip
use st_dns.Base.{
  ℕ, zero, suc, ◌+◌, ◌-◌, ◌%◌, ◌^◌, List, [], ◌∷◌, ◌++◌, Bool, true, false, Option, none, some,
  Outcome, ok, ◌>>=◌, load, store, ◌==◌, if◌then◌else◌, length,
}
use st_dns.Base.Text.{Text}
use st_dns.Utils.Bytes.{read}
use st_dns.Protocol.Domain.{DnsDomain, parse_domain, load_range, generate}

-- The members of `Type` that the code names elsewhere; any other number is kept as it is.
abbrev pub type_a : ℕ
type_a = 0x01

abbrev pub type_cname : ℕ
type_cname = 0x05

abbrev pub type_aaaa : ℕ
type_aaaa = 0x1c

pub record DnsQuery : Type 0 where
  pub at : ℕ
  pub len : ℕ
  pub valid : Bool
  pub domain : Option DnsDomain
  pub query_type : ℕ
  pub query_type_value : ℕ

abbrev pub default_flags_size : ℕ
default_flags_size = 4

abbrev pub default_flags : List ℕ
default_flags = 0x00 ∷ 0x01 ∷ 0x00 ∷ 0x01 ∷ []

-- `dns_query(buf + at, len)`
abbrev pub fresh_query : ℕ → ℕ → DnsQuery
fresh_query at len = record {
  at = at;
  len = len;
  valid = true;
  domain = none;
  query_type = type_a;
  query_type_value = type_a;
}

-- `dns_query::parse`, which looks for the type behind the name without a test of the length.
unfoldable pub parse_query : List ℕ → ℕ → ℕ → Outcome DnsQuery
parse_query buf at len = do
  dns_domain ← parse_domain buf at len 0 len
  if dns_domain.valid
      then (do
        type_value ← read buf 2 (at + dns_domain.len) 0
        ok (record (fresh_query at len) {
          len = dns_domain.len + default_flags_size;
          domain = some dns_domain;
          query_type = type_value;
          query_type_value = type_value;
        }))
      else ok (record (fresh_query at len) { len = 0; valid = false })

-- `dns_query::generateDomain(buf + at, host)`
unfoldable pub generate_domain : List ℕ → ℕ → Text → Outcome (DnsQuery × List ℕ)
generate_domain buf at host = do
  (domain, buf') ← generate buf at host
  buf'' ← store buf' (at + domain.len) default_flags
  ok (record (fresh_query at (domain.len + default_flags_size)) { domain = some domain }, buf'')

pub record DnsQueryZone : Type 0 where
  pub at : ℕ
  pub len : ℕ
  pub valid : Bool
  pub queries : List DnsQuery
  pub hosts : List Text

-- a - b on uint32_t.
abbrev pub sub32 : ℕ → ℕ → ℕ
sub32 a b = (a + 2 ^ 32 - b) % 2 ^ 32

-- The loop of the constructor that parses, with `left` queries still wanted: the queries read, the
-- bytes they take and whether all were valid. Each query may read up to the zone's whole length.
unfoldable pub parse_zone_loop :
    ℕ → List ℕ → ℕ → ℕ → ℕ → ℕ → List DnsQuery → Outcome (List DnsQuery × ℕ × Bool)
parse_zone_loop zero buf at len reset_size real_size queries = ok (queries, real_size, true)
parse_zone_loop (suc left) buf at len reset_size real_size queries = elim (reset_size == 0) [
  | true ↦ ok (queries, real_size, true)
  | false ↦ parse_query buf at len >>= λ query. elim query.valid [
    | true ↦
        parse_zone_loop left buf (at + query.len) len (sub32 reset_size query.len)
          ((real_size + query.len) % 2 ^ 32) (queries ++ (query ∷ []))
    | false ↦ ok (queries, real_size, false)
  ]
]

-- `dns_query_zone(buf + at, len, size)`
unfoldable pub parse_zone : List ℕ → ℕ → ℕ → ℕ → Outcome DnsQueryZone
parse_zone buf at len size = do
  (queries, real_size, valid) ← parse_zone_loop size buf at len (len % 2 ^ 32) 0 []
  ok (record { at = at; len = real_size; valid = valid; queries = queries; hosts = [] })

-- The first loop of `dns_query_zone::generate`: the queries, one behind the other.
unfoldable pub generate_queries : List ℕ → ℕ → List Text → Outcome (List DnsQuery × ℕ × ℕ × List ℕ)
generate_queries buf at [] = ok ([], at, 0, buf)
generate_queries buf at (host ∷ hosts) = do
  (query, buf') ← generate_domain buf at host
  (queries, end, size, buf'') ← generate_queries buf' (at + query.len) hosts
  ok (query ∷ queries, end, query.len + size, buf'')

-- The second loop: each query is copied to the zone's own place.
unfoldable pub copy_queries : List ℕ → ℕ → List DnsQuery → Outcome (List ℕ)
copy_queries buf to [] = ok buf
copy_queries buf to (query ∷ queries) = do
  bytes ← load_range buf query.at query.len
  buf' ← store buf to bytes
  copy_queries buf' (to + query.len) queries

-- `dns_query_zone::generate(buf + at, hosts)`: `data` has moved behind the queries when the zone is
-- made, so the zone is a second copy of them.
unfoldable pub generate_zone : List ℕ → ℕ → List Text → Outcome (DnsQueryZone × List ℕ)
generate_zone buf at hosts = do
  (queries, end, size, buf') ← generate_queries buf at hosts
  buf'' ← copy_queries buf' end queries
  ok (record { at = end; len = size; valid = true; queries = queries; hosts = hosts }, buf'')

-- `zone->copy(to + at)` from the buffer `from`.
unfoldable pub copy_zone : List ℕ → DnsQueryZone → List ℕ → ℕ → Outcome (DnsQueryZone × List ℕ)
copy_zone from zone to at = do
  bytes ← load_range from zone.at zone.len
  to' ← store to at bytes
  ok (record { at = at; len = zone.len; valid = true; queries = []; hosts = [] }, to')
