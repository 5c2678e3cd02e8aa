-- ===== src/Records/Stats.antt =====
-- The lists and the statistics that the console asks for: dns_record::transform and stats of
-- src/core/dns_record_manager.cpp.
use st_dns.Base.{ℕ, ◌+◌, ◌%◌, ◌^◌, List, [], ◌∷◌, Bool, true, false, none, some, ltb, if◌then◌else◌}
use st_dns.Base.Text.{Text, is_empty}
use st_dns.Base.Assoc.{lookup}
use st_dns.Config.{RemoteDnsServer, select_servers}
use st_dns.Records.{StoredRecord, DnsRecord, transform}
use st_dns.Records.Store.{RecordsMessage, Wire}

unfoldable pub any_area_ip : (List Text → ℕ → Bool) → List Text → List ℕ → Bool
any_area_ip is_area_ip areas [] = false
any_area_ip is_area_ip areas (ip ∷ ips) =
    let rest = any_area_ip is_area_ip areas ips in if is_area_ip areas ip then true else rest

-- The record of one server's addresses, with the clock in seconds.
abbrev pub server_record :
    (List Text → ℕ → Bool) → ℕ → Text → RemoteDnsServer → StoredRecord → DnsRecord
server_record is_area_ip now domain server r = record {
  ips = r.ips;
  expire_time = r.expire;
  server = server.id;
  domain = domain;
  servers = [];
  expire = ltb r.expire now;
  match_area = any_area_ip is_area_ip server.areas r.ips;
  trusted_ip_count = 0;
  total_ip_count = 0;
}

unfoldable pub server_records :
    (List Text → ℕ → Bool) → ℕ → RecordsMessage → List RemoteDnsServer → List DnsRecord
server_records is_area_ip now message [] = []
server_records is_area_ip now message (server ∷ servers) =
    let rest = server_records is_area_ip now message servers in
    elim (lookup server.id message.map) [
      | none ↦ rest
      | some r ↦ server_record is_area_ip now message.domain server r ∷ rest
    ]

-- `dns_record::transform`
unfoldable pub record_list :
    (List Text → ℕ → Bool) → ℕ → RecordsMessage → List RemoteDnsServer → List DnsRecord
record_list is_area_ip now message servers =
    if is_empty message.domain then [] else server_records is_area_ip now message servers

pub record DnsRecordStats : Type 0 where
  pub total_domain : ℕ
  pub trusted_domain : ℕ
  pub total_ip : ℕ
  pub trusted_ip : ℕ

abbrev pub no_stats : DnsRecordStats
no_stats = record { total_domain = 0; trusted_domain = 0; total_ip = 0; trusted_ip = 0 }

-- One record is counted. `trusted_ip` has 16 bits, the others have 32.
unfoldable pub count_record : DnsRecord → DnsRecordStats → DnsRecordStats
count_record r stats = record {
  total_domain = (stats.total_domain + 1) % 2 ^ 32;
  trusted_domain =
      if r.match_area then (stats.trusted_domain + 1) % 2 ^ 32 else stats.trusted_domain;
  total_ip = (stats.total_ip + r.total_ip_count) % 2 ^ 32;
  trusted_ip = (stats.trusted_ip + r.trusted_ip_count) % 2 ^ 16;
}

-- `stats`, on what `list` hands to its consumer.
unfoldable pub count_all :
    (List Text → ℕ → Bool)
    → (List ℕ → List ℕ)
    → (Text → Text → Bool)
    → List RemoteDnsServer
    → ℕ
    → Wire RecordsMessage
    → List (Text × Text)
    → DnsRecordStats
    → DnsRecordStats
count_all is_area_ip shuffle regex_match servers now wire [] stats = stats
count_all is_area_ip shuffle regex_match servers now wire ((key, value) ∷ items) stats =
    let message = wire.parse_message value in
    let r =
      transform is_area_ip shuffle now (λ server. lookup server message.map)
        (select_servers regex_match message.domain servers) message.domain in
    count_all is_area_ip shuffle regex_match servers now wire items
      (if is_empty message.domain then stats else count_record r stats)
