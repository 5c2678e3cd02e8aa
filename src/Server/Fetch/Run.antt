-- ===== src/Server/Fetch/Run.antt =====
-- What the run of a task leaves in the stores and the queue: src/core/dns_server.cpp.
use st_dns.Base.{
  ℕ, ◌/◌, ◌<◌, ◌≡◌, refl, ap, ◌∙◌, List, [], ◌∷◌, Bool, false, ◌||◌, length, arith, ◌==◌,
  if◌then◌else◌,
}
use st_dns.Base.Text.{Text, text_eq, is_empty}
use st_dns.Protocol.Domain.{c_str, get_fi_domain, remove_fi_domain}
use st_dns.Config.{RemoteDnsServer, lan}
use st_dns.Kv.{Db, Codec, IsDb, IsCodec}
use st_dns.Records.{DnsRecord}
use st_dns.Records.Store.{Stores, add, RecordsMessage, ReverseMessage, Wire, get_dns_records_pb}
use st_dns.Records.Stored.{added, updated, get_dns_records_pb-added}
use st_dns.TaskQueue.{running, PriorityTask, complete}
use st_dns.Server.{query_record_from_cache, server_task}
use st_dns.Server.Session.{World, Tasks}
use st_dns.Server.Fetch.{reply_calls, multi_area_complete, run_calls, run_task}

pub query_record_from_cache-hit :
    (resolve : Text → DnsRecord) (host : Text)
    → 0 < length (resolve host).ips
    → query_record_from_cache resolve host ≡ resolve host
unfolding query_record_from_cache
query_record_from_cache-hit resolve host h = by_ips (resolve host).ips h
  where
    by_ips :
        (ips : List ℕ)
        → 0 < length ips
        → (elim ips as (λ x. DnsRecord) [
          | [] ↦
              if text_eq (get_fi_domain host) lan
                || text_eq (get_fi_domain host) (b'l' ∷ b'a' ∷ b'n' ∷ [])
              then record (resolve (remove_fi_domain host)) { domain = host }
              else resolve host
          | ip ∷ ips ↦ resolve host
        ])
          ≡ resolve host
    by_ips [] k = absurd (omega (arith, k))
    by_ips (ip ∷ ips) k = refl

-- How long a server's addresses are kept.
abbrev pub kept : RemoteDnsServer → Bool → ℕ
kept server load_all = if load_all then server.dns_cache_expire else server.dns_cache_expire / 2

module _ {ℓ} {S : Type ℓ} (db : Db S) (codec : Codec) (wire : Wire RecordsMessage)
    (reverse_wire : Wire ReverseMessage) (is_area_ip : List Text → ℕ → Bool)
    (shuffle : List ℕ → List ℕ) (w : World) (hash_order : List ℕ → List ℕ) where
  pub run_task-once :
      IsDb db
      → IsCodec codec
      → (now : ℕ) (host : Text) (server : RemoteDnsServer) (priority next_id first : ℕ)
      → (others : List ℕ) (load_all : Bool) (replies : List (List ℕ)) (stores : Stores S)
      → (tasks : Tasks) → reply_calls hash_order server replies ≡ (first ∷ others, load_all) ∷ []
      → let ips = first ∷ others in
        let old = (get_dns_records_pb db codec wire now stores.records host).0 in
        let new = updated old server.id (added now ips (kept server load_all)) in
        wire.parse_message (wire.serialize_message new) ≡ new
        → is_empty (wire.serialize_message new) ≡ false
        → c_str (wire.serialize_message new) ≡ wire.serialize_message new
        → let task = record (server_task host server priority next_id) { status = running } in
          run_task db codec wire reverse_wire is_area_ip shuffle w hash_order now task replies
            (stores, tasks)
          ≡ (
            add db codec wire reverse_wire now stores host ips server.id (kept server load_all),
            complete task tasks,
          )
  unfolding run_task run_calls multi_area_complete add
  run_task-once lawful read_back now host server priority next_id first others load_all replies
        stores tasks once parsed full plain =
      ap run once
      ∙ rw some_ip refl
      ∙ ap with_records (
          get_dns_records_pb-added db codec wire lawful read_back now now stores.records host
            (first ∷ others) server.id (kept server load_all) parsed full plain)
    where
      task : PriorityTask (Text × RemoteDnsServer)
      task = record (server_task host server priority next_id) { status = running }

      run : List (List ℕ × Bool) → Stores S × Tasks
      run calls =
          run_calls db codec wire reverse_wire is_area_ip shuffle w now task calls (stores, tasks)

      some_ip : (length (first ∷ others) == 0) ≡ false
      some_ip = ground arith

      with_records : RecordsMessage × S → Stores S × Tasks
      with_records r = (
        record (add db codec wire reverse_wire now stores host (first ∷ others) server.id
            (kept server load_all)) { records = r.1 },
        complete task tasks,
      )
