-- ===== src/Protocol/Request.antt =====
-- Requests: src/core/protocol/request.h and request.cpp. An object's bytes are a buffer of their own,
-- passed beside the object.
pub mod RoundTrip
use st_dns.Base.{
  ℕ, ◌+◌, ◌-◌, ◌*◌, ◌/◌, ◌%◌, ◌^◌, List, [], ◌∷◌, ◌++◌, Bool, true, false, Option, none, some,
  Outcome, ok, err, out_of_bounds, ◌>>=◌, store, bit_and, ltb, if◌then◌else◌, replicate, length,
}
use st_dns.Base.Text.{Text, is_empty}
use st_dns.Utils.Bytes.{to_bytes}
use st_dns.Protocol.Header.{DnsHeader, default_len, generate_query}
use st_dns.Protocol.Header
use st_dns.Protocol.Domain.{DnsDomain}
use st_dns.Protocol.Query.{DnsQuery, DnsQueryZone, generate_zone, parse_zone}

pub record UdpRequest : Type 0 where
  pub header : Option DnsHeader
  pub query_zone : Option DnsQueryZone
  pub hosts : List Text
  pub len : ℕ
  pub valid : Bool

-- `udp_request::init(buf + at, hosts)`; `id16` is the number of the id generator.
unfoldable pub init : List ℕ → ℕ → ℕ → List Text → Outcome (UdpRequest × List ℕ)
init buf at id16 hosts = do
  (header, buf') ← generate_query buf at id16 (length hosts)
  (zone, buf'') ← generate_zone buf' (at + default_len) hosts
  ok (
    record {
      header = some header;
      query_zone = some zone;
      hosts = hosts;
      len = default_len + zone.len;
      valid = true;
    },
    buf'',
  )

-- `udp_request(hosts)`
unfoldable pub udp_request : ℕ → List Text → Outcome (UdpRequest × List ℕ)
udp_request id16 hosts = init (replicate 1024 0) 0 id16 hosts

-- The domains of the queries that are not empty.
unfoldable pub query_hosts : List DnsQuery → List Text
query_hosts [] = []
query_hosts (query ∷ queries) =
    let rest = query_hosts queries in
    elim query.domain [ none ↦ rest | some d ↦ if is_empty d.domain then rest else d.domain ∷ rest ]

-- `udp_request::parse(n)`. The header's own length is passed where the message's is meant.
unfoldable pub parse : List ℕ → ℕ → Outcome UdpRequest
parse buf n =
    let invalid : UdpRequest = record {
      header = none;
      query_zone = none;
      hosts = [];
      len = n;
      valid = false;
    } in
    if ltb default_len n
    then (do
      header ← Header.parse buf 0 default_len
      elim header [
        | none ↦ ok invalid
        | some h ↦ parse_zone buf default_len (n - default_len) h.question_count >>= λ zone. ok (
            if zone.valid
            then (elim zone.queries [
              | [] ↦ record invalid { header = some h }
              | query ∷ queries ↦ record {
                header = some h;
                query_zone = some zone;
                hosts = query_hosts (query ∷ queries);
                len = n;
                valid = true;
              }
            ])
            else record invalid { header = some h })
      ])
    else ok invalid

unfoldable pub get_host : UdpRequest → Text
get_host request = elim request.hosts [ [] ↦ [] | host ∷ hosts ↦ host ]

-- `query_zone->querys[0]`, which needs a zone with a query.
unfoldable pub first_query : UdpRequest → Outcome DnsQuery
first_query request = elim request.query_zone [
  | none ↦ err out_of_bounds
  | some zone ↦ elim zone.queries [ [] ↦ err out_of_bounds | query ∷ queries ↦ ok query ]
]

unfoldable pub get_query_type : UdpRequest → Outcome ℕ
get_query_type request = do query ← first_query request; ok query.query_type

unfoldable pub get_query_type_value : UdpRequest → Outcome ℕ
get_query_type_value request = do query ← first_query request; ok query.query_type_value

-- SIZE_HEADER
abbrev pub size_header : ℕ
size_header = 2

-- `tcp_request(hosts)`: the message behind its length.
unfoldable pub tcp_request : ℕ → List Text → Outcome (UdpRequest × List ℕ)
tcp_request id16 hosts = do
  (request, buf) ← init (replicate (1024 + size_header) 0) 2 id16 hosts
  buf' ← store buf 0 (to_bytes 2 (request.len % 2 ^ 16))
  ok (record request { len = request.len + size_header }, buf')

-- `EDNSAdditionalZone::generate(ip)`: an OPT record with a client-subnet option.
unfoldable pub edns_bytes : ℕ → List ℕ
edns_bytes ip =
    -- name, type, udp size
    0
    ∷ 0
    ∷ 41
    ∷ 0x10
    ∷ 0
    -- header, length
    ∷ 0
    ∷ 0
    ∷ 0
    ∷ 0
    ∷ 0
    ∷ 12
    -- option, its length
    ∷ 0
    ∷ 0x08
    ∷ 0
    ∷ 8
    -- family, address length
    ∷ 0
    ∷ 1
    ∷ 0
    ∷ 0
    -- the address
    ∷ bit_and (ip / 2 ^ (8 * 3)) 0xff
    ∷ bit_and (ip / 2 ^ (8 * 2)) 0xff
    ∷ bit_and (ip / 2 ^ (8 * 1)) 0xff
    ∷ bit_and ip 0xff
    ∷ []
