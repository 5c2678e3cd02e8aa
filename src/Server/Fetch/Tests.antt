-- ===== src/Server/Fetch/Tests.antt =====
-- The theorems on tasks and on what is resolved behind them, at one name and one server.
use st_dns.Base.{
  ℕ, ◌+◌, ◌<◌, ◌≡◌, refl, ◌⊎◌, List, [], ◌∷◌, Bool, true, false, ok, some, none, length, All, arith,
  ap,
}
use st_dns.Base.Text.{Text, find_last, to_upper}
use st_dns.Base.Assoc.{lookup, assign}
use st_dns.Protocol.Domain.{c_str, get_fi_domain}
use st_dns.Protocol.Tests.{host, host-IsHost, host-IsWritable}
use st_dns.Protocol.Request.RoundTrip.{query_message}
use st_dns.Protocol.Response.{limit_ips}
use st_dns.Protocol.Response.Build.{response_message}
use st_dns.Config.{
  RemoteDnsServer, new_server, select_servers, select_loop, is_foreign, in_whitelist, has_text,
}
use st_dns.Kv.{get}
use st_dns.Kv.Tests.{list_db, list_codec, list_db-IsDb, list_codec-IsCodec}
use st_dns.Records.{
  has_ip, transform, gather, sort_records, choose, select_ips, add_ips, source_servers,
}
use st_dns.Records.Sourced.{Sourced}
use st_dns.Records.Resolve.{IsShuffle}
use st_dns.Records.Store.{Stores, ReverseMessage, Wire, get_dns_records_pb, resolve_record, add}
use st_dns.Records.Choose.{Once}
use st_dns.Records.Unique.{resolve_record-Once}
use st_dns.Records.StoreTests.{plain_wire}
use st_dns.Records.Fetched.{stored_in}
use st_dns.TaskQueue.{running, empty_queue, find_task, has_pk, dispatch}
use st_dns.TaskQueue.Invariant.{IsQueue, empty_queue-IsQueue}
use st_dns.Server.{cal_expire, query_record_from_cache, sync_dns_record_from_remote, server_task}
use st_dns.Server.Session.{
  Session, World, Tasks, new_session, ended, received, timer_expired, end_session, udp_type,
}
use st_dns.Server.Fetch.{reply_calls, whole_replies, run_task, world_at}
use st_dns.Server.Fetch.Answer.{received-fetched}

abbrev same_order : List ℕ → List ℕ
same_order ips = ips

same_order-IsShuffle : IsShuffle same_order
same_order-IsShuffle = record {
  has_ip-shuffle = λ ip ips. refl;
  count_ip-shuffle = λ ip ips. refl;
  length-shuffle = λ ips. refl;
}

abbrev in_no_area : List Text → ℕ → Bool
in_no_area areas ip = false

abbrev server : RemoteDnsServer
server = record (new_server (1 ∷ []) 53 udp_type) { id = 5 ∷ [] }

abbrev world : World
world = record {
  dns_cache_expire = 300;
  servers = server ∷ [];
  regex_match = λ text pattern. false;
  resolve = λ name. new_session.dns_record;
  next_id = 1;
}

abbrev tasks : Tasks
tasks = empty_queue 4

abbrev reverse_wire : Wire ReverseMessage
reverse_wire = record {
  serialize_message = λ m. (m.ip + 1) ∷ [];
  parse_message = λ bytes. record { ip = 0; domains = [] };
}

abbrev stores : Stores (List (Text × Text))
stores = record { records = []; reverse = [] }

nothing_stored :
    (query_record_from_cache
      (world_at list_db list_codec plain_wire reverse_wire in_no_area same_order world 1000
        []).resolve
      host).ips
    ≡ []
unfolding query_record_from_cache resolve_record get_dns_records_pb get transform gather
    sort_records choose select_ips add_ips source_servers lookup select_servers select_loop
    is_foreign in_whitelist has_text get_fi_domain find_last to_upper
nothing_stored = refl

chosen : select_servers world.regex_match host world.servers ≡ server ∷ []
unfolding select_servers select_loop is_foreign in_whitelist has_text get_fi_domain find_last
    to_upper
chosen = refl

abbrev Fetched : Type 0
Fetched =
    let w' =
      world_at list_db list_codec plain_wire reverse_wire in_no_area same_order world 1000 [] in
    let old = (get_dns_records_pb list_db list_codec plain_wire 1000 [] host).0 in
    let asked_tasks =
      sync_dns_record_from_remote world.regex_match world.servers host world.next_id tasks in
    let task = record (server_task host server 100 1) { status = running } in
    (started : Tasks) × ((dispatch true asked_tasks ≡ ok (some task, started))
      × (let done =
            run_task list_db list_codec plain_wire reverse_wire in_no_area same_order world
              same_order 1000 task ((11 ∷ 12 ∷ []) ∷ []) (stores, started) in
          let w'' =
            world_at list_db list_codec plain_wire reverse_wire in_no_area same_order world 9000
              done.0.records in
          let found = w''.resolve host in
          (s s' : Session) × ((received w' false (query_message 7 host) new_session tasks
              ≡ ok (s, asked_tasks))
            × IsQueue done.1
            × (done.1.running_count ≡ 0)
            × (find_task 1 done.1.tasks ≡ none)
            × (timer_expired w'' s ≡ ok s')
            × (s'.sent
                ≡ response_message 7 host (cal_expire world.dns_cache_expire found)
                    (limit_ips found.ips)
                  ∷ [])
            × (end_session s' ≡ ok (record s' { phase = ended; success = true }))
            × (0 < length found.ips)
            × All
                (λ (ip : ℕ).
                  (has_ip ip (11 ∷ 12 ∷ []) ≡ true)
                  ⊎ Sourced (stored_in old) ip
                      (select_servers world.regex_match host world.servers))
                found.ips)))

one_call : reply_calls same_order server ((11 ∷ 12 ∷ []) ∷ []) ≡ (11 ∷ 12 ∷ [], true) ∷ []
unfolding reply_calls whole_replies
one_call = refl

received-fetched_example : Fetched
unfolding get_dns_records_pb get lookup assign c_str has_pk
received-fetched_example =
    received-fetched list_db list_codec plain_wire reverse_wire in_no_area same_order world
      same_order list_db-IsDb list_codec-IsCodec same_order-IsShuffle 1000 9000 7 host server 11
      (12 ∷ []) true ((11 ∷ 12 ∷ []) ∷ []) stores tasks [] host-IsWritable (omega arith) host-IsHost
      refl (ap length nothing_stored) chosen (omega arith) (omega arith)
      (empty_queue-IsQueue 4 (omega arith)) tt tt refl (omega arith) one_call refl refl refl

abbrev stored : List (Text × Text)
stored =
    (add list_db list_codec plain_wire reverse_wire 1000 stores host (11 ∷ 12 ∷ 11 ∷ []) server.id
      300).records

resolve_record-Once_example :
    let ips =
      (resolve_record list_db list_codec plain_wire in_no_area same_order world.regex_match
        world.servers 2000 stored host).ips in
    Once ips × Once (limit_ips ips)
resolve_record-Once_example =
    resolve_record-Once list_db list_codec plain_wire in_no_area same_order world.regex_match
      world.servers 2000 stored host same_order-IsShuffle
