-- ===== src/Records.antt =====
-- The addresses of a resolved name: src/core/dns_record_manager.h and dns_record_manager.cpp.
pub mod Compare
pub mod Choose
pub mod Store
pub mod Stored
pub mod Sourced
pub mod Resolve
pub mod Unique
pub mod Fetched
pub mod Stats
pub mod StoreTests
mod Tests
use st_dns.Base.{
  ℕ, ◌+◌, ◌%◌, ◌^◌, List, [], ◌∷◌, ◌++◌, Bool, true, false, not, ◌&&◌, Option, none, some, ltb,
  ◌==◌, if◌then◌else◌,
}
use st_dns.Config.{RemoteDnsServer}
use st_dns.Base.Text.{Text, text_eq, is_empty}

pub record DnsIpRecord : Type 0 where
  pub ip : ℕ
  pub match_area : Bool
  pub forbid : Bool
  pub expire : Bool
  pub expire_time : ℕ
  pub server : Text
  pub server_order : ℕ

abbrev pub same : Bool → Bool → Bool
same true b = b
same false b = not b

-- `dns_ip_record::compare`
unfoldable pub compare : DnsIpRecord → DnsIpRecord → Bool
compare a b =
    if not (same a.match_area b.match_area)
    then (if a.match_area then true else false)
    else if not (same a.forbid b.forbid)
    then (if b.forbid then true else false)
    else ltb a.server_order b.server_order

-- `std::sort` with `compare`; among records that it does not tell apart the order stays.
unfoldable pub insert_record : DnsIpRecord → List DnsIpRecord → List DnsIpRecord
insert_record item [] = item ∷ []
insert_record item (other ∷ items) =
    let rest = insert_record item items in
    if compare other item then other ∷ rest else item ∷ other ∷ items

unfoldable pub sort_records : List DnsIpRecord → List DnsIpRecord
sort_records [] = []
sort_records (item ∷ items) = insert_record item (sort_records items)

-- `std::find` over the addresses.
unfoldable pub has_ip : ℕ → List ℕ → Bool
has_ip ip [] = false
has_ip ip (other ∷ ips) = let rest = has_ip ip ips in if other == ip then true else rest

-- The variables of the first loop over the sorted records.
pub record Chosen : Type 0 where
  pub server : Text
  pub ips : List ℕ
  pub trusted_ip_count : ℕ
  pub total_ip_count : ℕ

abbrev pub none_chosen : Chosen
none_chosen = record { server = []; ips = []; trusted_ip_count = 0; total_ip_count = 0 }

-- One round of it: the addresses of one server that lie in its areas.
unfoldable pub choose_step : DnsIpRecord → Chosen → Chosen
choose_step item chosen =
    let counted : Chosen = record chosen {
      total_ip_count = (chosen.total_ip_count + 1) % 2 ^ 32;
    } in
    if item.match_area && not item.forbid
    then (if not (is_empty chosen.server) && not (text_eq item.server chosen.server)
        then chosen
        else if has_ip item.ip chosen.ips
        then chosen
        else record counted {
          trusted_ip_count = (chosen.trusted_ip_count + 1) % 2 ^ 32;
          ips = chosen.ips ++ (item.ip ∷ []);
          server = item.server;
        })
    else counted

unfoldable pub choose : List DnsIpRecord → Chosen → Chosen
choose [] chosen = chosen
choose (item ∷ items) chosen = choose items (choose_step item chosen)

-- The second loop, when the first found nothing: every address once.
unfoldable pub add_ips : List DnsIpRecord → List ℕ → List ℕ
add_ips [] ips = ips
add_ips (item ∷ items) ips =
    add_ips items (if has_ip item.ip ips then ips else ips ++ (item.ip ∷ []))

-- The addresses that `transform` sends for its sorted records, before they are shuffled.
unfoldable pub select_ips : List DnsIpRecord → List ℕ
select_ips items =
    let chosen = choose items none_chosen in
    elim chosen.ips [ [] ↦ add_ips items [] | ip ∷ ips ↦ ip ∷ ips ]

-- A message `record` of the store.
pub record StoredRecord : Type 0 where
  pub ips : List ℕ
  pub expire : ℕ

pub record DnsRecord : Type 0 where
  pub ips : List ℕ
  pub expire_time : ℕ
  pub server : Text
  pub domain : Text
  pub servers : List Text
  pub expire : Bool
  pub match_area : Bool
  pub trusted_ip_count : ℕ
  pub total_ip_count : ℕ

-- The records of one server's addresses.
unfoldable pub ip_records :
    (List Text → ℕ → Bool) → ℕ → RemoteDnsServer → ℕ → ℕ → List ℕ → List DnsIpRecord
ip_records is_area_ip now server order expire [] = []
ip_records is_area_ip now server order expire (ip ∷ ips) =
    record {
      ip = ip;
      match_area = is_area_ip server.areas ip;
      forbid = false;
      expire = ltb expire now;
      expire_time = expire;
      server = server.id;
      server_order = order;
    }
    ∷ ip_records is_area_ip now server order expire ips

-- The loop over the servers; `order` is a `uint8_t`, `stored` the lookup in the map of the message.
unfoldable pub gather :
    (List Text → ℕ → Bool)
    → (Text → Option StoredRecord)
    → ℕ
    → ℕ
    → List RemoteDnsServer
    → List DnsIpRecord
gather is_area_ip stored now order [] = []
gather is_area_ip stored now order (server ∷ servers) =
    let rest = gather is_area_ip stored now ((order + 1) % 2 ^ 8) servers in
    elim (stored server.id) [
      | none ↦ rest
      | some r ↦ ip_records is_area_ip now server ((order + 1) % 2 ^ 8) r.expire r.ips ++ rest
    ]

unfoldable pub source_servers : List DnsIpRecord → List Text
source_servers [] = []
source_servers (item ∷ items) = item.server ∷ source_servers items

-- `transform`: the area test, the shuffle and the clock, in seconds, are arguments, as are the
-- servers that `select_servers` chose. The set `servers` is a list.
unfoldable pub transform :
    (List Text → ℕ → Bool)
    → (List ℕ → List ℕ)
    → ℕ
    → (Text → Option StoredRecord)
    → List RemoteDnsServer
    → Text
    → DnsRecord
transform is_area_ip shuffle now stored servers domain =
    let found = gather is_area_ip stored now 0 servers in
    let items = sort_records found in
    let chosen = choose items none_chosen in
    let blank : DnsRecord = record {
      ips = shuffle (select_ips items);
      expire_time = 0;
      server = [];
      domain = domain;
      servers = source_servers found;
      expire = false;
      match_area = false;
      trusted_ip_count = chosen.trusted_ip_count;
      total_ip_count = chosen.total_ip_count;
    } in
    elim items [
      | [] ↦ blank
      | item ∷ others ↦ record blank {
        match_area = item.match_area;
        expire_time = item.expire_time;
        server = item.server;
        expire = item.expire;
      }
    ]
