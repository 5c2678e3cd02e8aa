-- ===== src/Server/Fetch/Answer.antt =====
-- A session that waits for a task: src/core/dns_server.cpp.
use st_dns.Base.{
  ℕ, ◌+◌, ◌≤◌, some, none, ◌^◌, ◌<◌, ◌≡◌, refl, sym, ◌∙◌, ◌⊎◌, List, [], ◌∷◌, Bool, true, false,
  not, ok, length, All, arith, subst, ◌==◌,
}
use st_dns.Base.Text.{Text, text_eq, is_empty}
use st_dns.Protocol.Domain.{c_str}
use st_dns.Protocol.Domain.RoundTrip.{IsHost}
use st_dns.Protocol.Query.RoundTrip.{IsWritable}
use st_dns.Protocol.Request.RoundTrip.{query_message}
use st_dns.Protocol.Response.{limit_ips}
use st_dns.Protocol.Response.Build.{response_message}
use st_dns.Config.{RemoteDnsServer, select_servers}
use st_dns.Kv.{Db, Codec, IsDb, IsCodec}
use st_dns.Records.{DnsRecord, has_ip}
use st_dns.Records.Sourced.{Sourced}
use st_dns.Records.Resolve.{IsShuffle}
use st_dns.Records.Store.{Stores, add, RecordsMessage, ReverseMessage, Wire, get_dns_records_pb}
use st_dns.Records.Stored.{added, updated}
use st_dns.Records.Fetched.{stored_in, resolve_record-add_record}
use st_dns.TaskQueue.{running, PriorityTask, find_task, has_pk, dispatch, complete}
use st_dns.TaskQueue.Top.{Entry}
use st_dns.TaskQueue.Invariant.{IsQueue}
use st_dns.Server.{
  cal_expire, query_record_from_cache, sync_dns_record_from_remote, server_task, max_priority,
}
use st_dns.Server.Sync.{Below}
use st_dns.Server.Started.{sync-Started}
use st_dns.Server.Session.{
  Session, World, Tasks, new_session, localhost, ended, received, timer_expired, end_session,
}
use st_dns.Server.Session.Answer.{received-remote}
use st_dns.Server.Fetch.Run.{query_record_from_cache-hit, kept, run_task-once}
use st_dns.Server.Fetch.{reply_calls, run_task, world_at}

module _ {ℓ} {S : Type ℓ} (db : Db S) (codec : Codec) (wire : Wire RecordsMessage)
    (reverse_wire : Wire ReverseMessage) (is_area_ip : List Text → ℕ → Bool)
    (shuffle : List ℕ → List ℕ) (w : World) (hash_order : List ℕ → List ℕ) where
  -- A query for a host of which the cache has no address submits tasks for its servers, and the
  -- next dispatch of the queue starts the one of the first server. Once it has run, and the
  -- server's replies gave one call of the handler with some addresses, the task is gone from the
  -- queue, as many tasks run as before the query, and the queue is well formed; when the timer
  -- then runs out, the session is answered with the record that the stores hold: it has some
  -- address, and every address is one of those that the server gave or one that was stored for a
  -- server of the host before; the response has the first five of them at most, and the session
  -- ends with success. The id has 16 bits, the host is not localhost, and it is one that generate
  -- can write and whose parts are labels. The queue is well formed and has room and a key for one
  -- more task, the tasks that wait have priorities below 100, none has the key of the task, the
  -- ids are below the counter, which does not wrap around, and at most 100 servers are asked.
  -- Leveldb and protobuf keep what they are given, the message is serialized to some bytes without
  -- a 0 and read back, and shuffle only reorders.
  pub received-fetched :
      IsDb db
      → IsCodec codec
      → IsShuffle shuffle
      → (now later id : ℕ) (host : Text) (server : RemoteDnsServer) (first : ℕ)
      → (others : List ℕ) (load_all : Bool) (replies : List (List ℕ)) (stores : Stores S)
      → (tasks : Tasks) (after : List RemoteDnsServer) → IsWritable host
      → id < 2 ^ 16
      → IsHost host
      → text_eq host localhost ≡ false
      → let w' = world_at db codec wire reverse_wire is_area_ip shuffle w now stores.records in
        length (query_record_from_cache w'.resolve host).ips ≡ 0
        → select_servers w.regex_match host w.servers ≡ server ∷ after
        → 1 + length after ≤ max_priority
        → w.next_id + (1 + length after) < 2 ^ 64
        → IsQueue tasks
        → Below w.next_id tasks.tasks
        → All (λ (entry : Entry). entry.1 < max_priority) tasks.p_queue
        → has_pk (server_task host server max_priority w.next_id).pk tasks.task_pks ≡ false
        → tasks.running_count < tasks.max_running
        → reply_calls hash_order server replies ≡ (first ∷ others, load_all) ∷ []
        → let ips = first ∷ others in
          let old = (get_dns_records_pb db codec wire now stores.records host).0 in
          let new = updated old server.id (added now ips (kept server load_all)) in
          wire.parse_message (wire.serialize_message new) ≡ new
          → is_empty (wire.serialize_message new) ≡ false
          → c_str (wire.serialize_message new) ≡ wire.serialize_message new
          → let asked_tasks =
              sync_dns_record_from_remote w.regex_match w.servers host w.next_id tasks in
            let task = record (server_task host server max_priority w.next_id) {
              status = running;
            } in
            (started : Tasks) × ((dispatch true asked_tasks ≡ ok (some task, started))
              × (let done =
                    run_task db codec wire reverse_wire is_area_ip shuffle w hash_order now task
                      replies
                      (stores, started) in
                  let w'' =
                    world_at db codec wire reverse_wire is_area_ip shuffle w later done.0.records in
                  let found = w''.resolve host in
                  (s s' : Session) × ((received w' false (query_message id host) new_session tasks
                      ≡ ok (s, asked_tasks))
                    × IsQueue done.1
                    × (done.1.running_count ≡ tasks.running_count)
                    × (find_task w.next_id done.1.tasks ≡ none)
                    × (timer_expired w'' s ≡ ok s')
                    × (s'.sent
                        ≡ response_message id host
                            (cal_expire w.dns_cache_expire found)
                            (limit_ips found.ips)
                          ∷ [])
                    × (end_session s' ≡ ok (record s' { phase = ended; success = true }))
                    × (0 < length found.ips)
                    × All
                        (λ (ip : ℕ).
                          (has_ip ip ips ≡ true)
                          ⊎ Sourced
                              (stored_in old)
                              ip
                              (select_servers w.regex_match host w.servers))
                        found.ips)))
  unfolding add
  received-fetched lawful read_back mixed now later id host server first others load_all replies
        stores tasks after writable small labels other none_found among few fits queue below lower
        new_key room once parsed full plain =
      (
        run.0,
        (
          run.1.0,
          subst Goal (sym is_done) (
            s,
            s',
            (
              remote.2.0, run.1.1, run.1.2, run.1.3, remote.2.2, remote.2.3, ended_well,
              found_some.0, found_some.1,
            ),
          ),
        ),
      )
    where
      chosen : List RemoteDnsServer
      chosen = select_servers w.regex_match host w.servers

      asked_tasks : Tasks
      asked_tasks = sync_dns_record_from_remote w.regex_match w.servers host w.next_id tasks

      task : PriorityTask (Text × RemoteDnsServer)
      task = record (server_task host server max_priority w.next_id) { status = running }

      run :
          (started : Tasks) × ((dispatch true asked_tasks ≡ ok (some task, started))
            × IsQueue (complete task started)
            × ((complete task started).running_count ≡ tasks.running_count)
            × (find_task w.next_id (complete task started).tasks ≡ none))
      run =
          sync-Started w.regex_match w.servers host w.next_id server after tasks among few fits
            queue below lower new_key room

      done : Stores S × Tasks
      done =
          run_task db codec wire reverse_wire is_area_ip shuffle w hash_order now task replies
            (stores, run.0)

      added_all : Stores S
      added_all =
          add db codec wire reverse_wire now stores host (first ∷ others) server.id
            (kept server load_all)

      is_done : done ≡ (added_all, complete task run.0)
      is_done =
          run_task-once db codec wire reverse_wire is_area_ip shuffle w hash_order lawful read_back
            now host server max_priority w.next_id first others load_all replies stores run.0 once
            parsed full plain

      w' : World
      w' = world_at db codec wire reverse_wire is_area_ip shuffle w now stores.records

      seen : S → World
      seen = world_at db codec wire reverse_wire is_area_ip shuffle w later

      From : ℕ → Type 0
      From ip =
          (has_ip ip (first ∷ others) ≡ true)
          ⊎ Sourced (stored_in (get_dns_records_pb db codec wire now stores.records host).0) ip
              chosen

      Goal : Stores S × Tasks → Type 0
      Goal r =
          let found = (seen r.0.records).resolve host in
          (s s' : Session) × ((received w' false (query_message id host) new_session tasks
              ≡ ok (s, asked_tasks))
            × IsQueue r.1
            × (r.1.running_count ≡ tasks.running_count)
            × (find_task w.next_id r.1.tasks ≡ none)
            × (timer_expired (seen r.0.records) s ≡ ok s')
            × (s'.sent
                ≡ response_message id host (cal_expire w.dns_cache_expire found)
                    (limit_ips found.ips)
                  ∷ [])
            × (end_session s' ≡ ok (record s' { phase = ended; success = true }))
            × (0 < length found.ips)
            × All From found.ips)

      w'' : World
      w'' = seen added_all.records

      found_some : (0 < length (w''.resolve host).ips) × All From (w''.resolve host).ips
      found_some =
          resolve_record-add_record db codec wire is_area_ip shuffle w.regex_match w.servers lawful
            read_back mixed now later stores.records host first others server (kept server load_all)
            [] after among parsed full plain

      Asked : DnsRecord → Type 0
      Asked found =
          (s s' : Session) × ((received w' false (query_message id host) new_session tasks
              ≡ ok (s, asked_tasks))
            × (s.sent ≡ [])
            × (timer_expired w'' s ≡ ok s')
            × (s'.sent
                ≡ response_message id host (cal_expire w.dns_cache_expire found)
                    (limit_ips found.ips)
                  ∷ [])
            × (end_session s'
                ≡ ok (record s' { phase = ended; success = not (length found.ips == 0) })))

      remote : Asked (w''.resolve host)
      remote =
          subst Asked (query_record_from_cache-hit w''.resolve host found_some.0)
            (received-remote w' w'' id host tasks writable small labels other none_found)

      s : Session
      s = remote.0

      s' : Session
      s' = remote.1

      ended_well : end_session s' ≡ ok (record s' { phase = ended; success = true })
      ended_well =
          let some_ip : not (length (w''.resolve host).ips == 0) ≡ true =
            ground (arith, found_some.0) in
          remote.2.4 ∙ rw some_ip refl
