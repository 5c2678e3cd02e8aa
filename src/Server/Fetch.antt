-- ===== src/Server/Fetch.antt =====
-- A task of the server at work: the handler of the queue and the three-argument
-- `sync_dns_record_from_remote` of src/core/dns_server.cpp.
pub mod Run
pub mod Answer
mod Tests
use st_dns.Base.{ℕ, ◌/◌, List, [], ◌∷◌, Bool, true, length, ◌==◌, if◌then◌else◌}
use st_dns.Base.Text.{Text, text_eq}
use st_dns.Config.{RemoteDnsServer}
use st_dns.Kv.{Db, Codec}
use st_dns.Records.{DnsRecord}
use st_dns.Records.Store.{
  RecordsMessage, ReverseMessage, Wire, Stores, add, get_dns_records_pb, resolve_record,
}
use st_dns.Client.{collect_tcp, collect_tls}
use st_dns.TaskQueue.{PriorityTask, complete}
use st_dns.Server.Session.{World, Tasks, udp_type}

abbrev pub tcp_type : Text
tcp_type = b'T' ∷ b'C' ∷ b'P' ∷ []

abbrev pub tcp_ssl_type : Text
tcp_ssl_type = b'T' ∷ b'C' ∷ b'P' ∷ b'_' ∷ b'S' ∷ b'S' ∷ b'L' ∷ []

-- The handler of `udp_dns`: every reply counts as a whole one.
unfoldable pub whole_replies : List (List ℕ) → List (List ℕ × Bool)
whole_replies [] = []
whole_replies (ips ∷ replies) = (ips, true) ∷ whole_replies replies

-- How the handler is called for the replies of a server, by its type; `hash_order` is the order of an
-- unordered set.
unfoldable pub reply_calls :
    (List ℕ → List ℕ) → RemoteDnsServer → List (List ℕ) → List (List ℕ × Bool)
reply_calls hash_order server replies =
    let areas = length server.resolve_optimize_areas in
    if text_eq server.type tcp_ssl_type
    then collect_tls hash_order areas replies
    else if text_eq server.type tcp_type
    then collect_tcp areas replies
    else if text_eq server.type udp_type
    then whole_replies replies
    else []

module _ {ℓ} {S : Type ℓ} (db : Db S) (codec : Codec) (wire : Wire RecordsMessage)
    (reverse_wire : Wire ReverseMessage) where
  module _ (is_area_ip : List Text → ℕ → Bool) (shuffle : List ℕ → List ℕ) (w : World) where
    -- `multi_area_complete_handler`: the record for the complete handler, and the stores.
    unfoldable pub multi_area_complete :
        ℕ → Text → RemoteDnsServer → List ℕ × Bool → Stores S → DnsRecord × Stores S
    multi_area_complete now host server (ips, load_all) stores =
        let kept = if load_all then server.dns_cache_expire else server.dns_cache_expire / 2 in
        let stores' =
          if length ips == 0
          then stores
          else add db codec wire reverse_wire now stores host ips server.id kept in
        (
          resolve_record db codec wire is_area_ip shuffle w.regex_match w.servers now
              stores'.records host,
          record stores' {
            records = (get_dns_records_pb db codec wire now stores'.records host).1;
          },
        )

    -- Each call of the handler is followed by `complete` of the queue.
    unfoldable pub run_calls :
        ℕ
        → PriorityTask (Text × RemoteDnsServer)
        → List (List ℕ × Bool)
        → Stores S × Tasks
        → Stores S × Tasks
    run_calls now task [] r = r
    run_calls now task (call ∷ calls) (stores, tasks) =
        run_calls now task calls
          ((multi_area_complete now task.input.0 task.input.1 call stores).1, complete task tasks)

    -- The executor of a task, with the replies of its server.
    unfoldable pub run_task :
        (List ℕ → List ℕ)
        → ℕ
        → PriorityTask (Text × RemoteDnsServer)
        → List (List ℕ)
        → Stores S × Tasks
        → Stores S × Tasks
    run_task hash_order now task replies r =
        run_calls now task (reply_calls hash_order task.input.1 replies) r

    -- What the server sees with this store at this time.
    abbrev pub world_at : ℕ → S → World
    world_at now s = record w {
      resolve = λ domain.
          resolve_record db codec wire is_area_ip shuffle w.regex_match w.servers now s domain;
    }
