-- ===== src/Server.antt =====
-- The decisions of the server: src/core/dns_server.cpp.
pub mod Expire
pub mod Sync
pub mod Started
pub mod Schedule
pub mod Session
pub mod Fetch
mod Tests
use st_dns.Base.{
  ℕ, ◌+◌, ◌-◌, ◌*◌, ◌%◌, ◌^◌, List, [], ◌∷◌, ◌++◌, Bool, true, false, Option, none, some, ◌==◌,
  ◌||◌, if◌then◌else◌, min, max,
}
use st_dns.Base.Text.{Text, text_eq, is_empty}
use st_dns.Protocol.Domain.{get_fi_domain, remove_fi_domain}
use st_dns.Protocol.Query.{type_a, type_aaaa}
use st_dns.Config.{RemoteDnsServer, has_text, lan, select_servers}
use st_dns.Records.{DnsRecord}
use st_dns.TaskQueue.{Queue, PriorityTask, pending, submit}

-- `process_type` of a session
pub data ProcessType : Type 0 where
  query : ProcessType
  forward : ProcessType
  drop_query : ProcessType

-- The branches of `process_session`.
unfoldable pub process_type : ℕ → ProcessType
process_type query_type =
    if query_type == type_a then query else if query_type == type_aaaa then drop_query else forward

-- `cal_expire`, with the configured `dns_cache_expire`.
unfoldable pub cal_expire : ℕ → DnsRecord → ℕ
cal_expire dns_cache_expire record' =
    let expire = if record'.match_area then dns_cache_expire else 1 in
    min (max expire (1 * 10)) (10 * 60)

-- `query_record_from_cache`, where `resolve` is the record manager's.
unfoldable pub query_record_from_cache : (Text → DnsRecord) → Text → DnsRecord
query_record_from_cache resolve host =
    let found = resolve host in
    elim found.ips [
      | [] ↦
          if text_eq (get_fi_domain host) lan
            || text_eq (get_fi_domain host) (b'l' ∷ b'a' ∷ b'n' ∷ [])
          then record (resolve (remove_fi_domain host)) { domain = host }
          else found
      | ip ∷ ips ↦ found
    ]

-- MAX_PRIORITY
abbrev pub max_priority : ℕ
max_priority = 100

-- A task's id comes from an atomic counter of 64 bits, here `next_id`.
abbrev pub server_task : Text → RemoteDnsServer → ℕ → ℕ → PriorityTask (Text × RemoteDnsServer)
server_task host server priority next_id = record {
  input = (host, server);
  priority = priority;
  id = next_id;
  pk = host ++ (b'/' ∷ server.id);
  status = pending;
}

-- The loop of `sync_dns_record_from_remote`: a task for each server, each of lower priority.
unfoldable pub submit_all :
    Text
    → List RemoteDnsServer
    → ℕ
    → ℕ
    → Queue (Text × RemoteDnsServer)
    → Queue (Text × RemoteDnsServer)
submit_all host [] priority next_id q = q
submit_all host (server ∷ servers) priority next_id q =
    submit_all host servers ((priority + 2 ^ 32 - 1) % 2 ^ 32) ((next_id + 1) % 2 ^ 64)
      (submit (server_task host server priority next_id) q).1

unfoldable pub sync_dns_record_from_remote :
    (Text → Text → Bool)
    → List RemoteDnsServer
    → Text
    → ℕ
    → Queue (Text × RemoteDnsServer)
    → Queue (Text × RemoteDnsServer)
sync_dns_record_from_remote regex_match servers host next_id q =
    submit_all host (select_servers regex_match host servers) max_priority next_id q

-- The servers of `sync_loss_dns_record_from_remote`: those that the record does not come from.
unfoldable pub lost_servers : List RemoteDnsServer → DnsRecord → List RemoteDnsServer
lost_servers [] record' = []
lost_servers (server ∷ servers) record' =
    let rest = lost_servers servers record' in
    if has_text server.id record'.servers then rest else server ∷ rest

unfoldable pub sync_loss_dns_record_from_remote :
    (Text → Text → Bool)
    → List RemoteDnsServer
    → Text
    → DnsRecord
    → ℕ
    → Queue (Text × RemoteDnsServer)
    → Queue (Text × RemoteDnsServer)
sync_loss_dns_record_from_remote regex_match servers host record' next_id q =
    submit_all host (lost_servers (select_servers regex_match host servers) record') max_priority
      next_id q
