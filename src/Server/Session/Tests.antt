-- ===== src/Server/Session/Tests.antt =====
-- The theorems on sessions at one query and one world.
use st_dns.Base.{
  ℕ, ◌+◌, ◌≤◌, ◌==◌, ◌≡◌, refl, ap, List, [], ◌∷◌, true, false, not, ◌||◌, none, ok, err,
  out_of_bounds, length, arith, if◌then◌else◌,
}
use st_dns.Base.Text.{Text, find_last, to_upper}
use st_dns.Protocol.Tests.{host, host-IsHost, host-IsWritable}
use st_dns.Protocol.Domain.{get_fi_domain}
use st_dns.Protocol.Request.{UdpRequest}
use st_dns.Protocol.Request
use st_dns.Protocol.Request.RoundTrip.{query_message}
use st_dns.Protocol.Response.{limit_ips}
use st_dns.Protocol.Response.Build.{response_message}
use st_dns.Records.{DnsRecord}
use st_dns.TaskQueue.{empty_queue}
use st_dns.Server.{
  cal_expire, query_record_from_cache, sync_dns_record_from_remote,
  sync_loss_dns_record_from_remote,
}
use st_dns.Server.Session.{
  sending, ended, Session, World, Tasks, new_session, empty_record, end_session, received,
  timer_expired,
}
use st_dns.Server.Session.Steps.{
  datagram, awaits_datagram, handle, remaining, Steps, no_step, one_more, step,
}
use st_dns.Server.Session.Bound.{Steps-remaining}
use st_dns.Server.Session.Answer.{received-cached, received-remote}
use st_dns.Server.Session.Invalid.{received-invalid}

abbrev two_ips : Text → DnsRecord
two_ips name = record empty_record { domain = name; ips = 11 ∷ 12 ∷ []; match_area = true }

abbrev no_ips : Text → DnsRecord
no_ips name = record empty_record { domain = name }

abbrev world : (Text → DnsRecord) → World
world resolve = record {
  dns_cache_expire = 300;
  servers = [];
  regex_match = λ text pattern. false;
  resolve = resolve;
  next_id = 1;
}

abbrev tasks : Tasks
tasks = empty_queue 4

abbrev sent_session : Session
sent_session = record new_session { phase = sending; sent = (1 ∷ []) ∷ [] }

found_ips : (query_record_from_cache two_ips host).ips ≡ 11 ∷ 12 ∷ []
unfolding query_record_from_cache
found_ips = refl

missed : (query_record_from_cache no_ips host).ips ≡ []
unfolding query_record_from_cache get_fi_domain find_last to_upper
missed = refl

abbrev short_datagram : List ℕ
short_datagram = 9 ∷ []

abbrev rejected : UdpRequest
rejected = record { header = none; query_zone = none; hosts = []; len = 1; valid = false }

received-invalid_example :
    received (world no_ips) false short_datagram new_session tasks ≡ err out_of_bounds
unfolding Request.parse
received-invalid_example =
    received-invalid (world no_ips) false short_datagram tasks rejected (omega arith) refl refl

abbrev Answered : Type 0
Answered =
    let w = world two_ips in
    let found = query_record_from_cache w.resolve host in
    (s : Session) × ((received w false (query_message 7 host) new_session tasks
        ≡ ok (
          s,
          if found.expire || not found.match_area
              then sync_dns_record_from_remote w.regex_match w.servers host w.next_id tasks
              else sync_loss_dns_record_from_remote w.regex_match w.servers host found w.next_id
                  tasks,
        ))
      × (s.sent
          ≡ response_message 7 host (cal_expire w.dns_cache_expire found) (limit_ips found.ips)
            ∷ [])
      × (end_session s ≡ ok (record s { phase = ended; success = true })))

received-cached_example : Answered
received-cached_example =
    received-cached (world two_ips) 7 host tasks host-IsWritable (omega arith) host-IsHost refl
      (omega (arith, ap length found_ips))

abbrev AnsweredLater : Type 0
AnsweredLater =
    let w = world no_ips in
    let w' = world two_ips in
    let found = query_record_from_cache w'.resolve host in
    (s s' : Session) × ((received w false (query_message 7 host) new_session tasks
        ≡ ok (s, sync_dns_record_from_remote w.regex_match w.servers host w.next_id tasks))
      × (s.sent ≡ [])
      × (timer_expired w' s ≡ ok s')
      × (s'.sent
          ≡ response_message 7 host (cal_expire w'.dns_cache_expire found) (limit_ips found.ips)
            ∷ [])
      × (end_session s' ≡ ok (record s' { phase = ended; success = not (length found.ips == 0) })))

received-remote_example : AnsweredLater
received-remote_example =
    received-remote (world no_ips) (world two_ips) 7 host tasks host-IsWritable (omega arith)
      host-IsHost refl (ap length missed)

after_datagram : Answered
after_datagram =
    received-cached (world two_ips) 7 host tasks host-IsWritable (omega arith) host-IsHost refl
      (omega (arith, ap length found_ips))

abbrev tasks_after : Tasks
tasks_after =
    let w = world two_ips in
    let found = query_record_from_cache w.resolve host in
    if found.expire || not found.match_area
    then sync_dns_record_from_remote w.regex_match w.servers host w.next_id tasks
    else sync_loss_dns_record_from_remote w.regex_match w.servers host found w.next_id tasks

first_step : Steps 1 (new_session, tasks) (after_datagram.0, tasks_after)
unfolding handle
first_step =
    one_more 0 (new_session, tasks) (after_datagram.0, tasks_after) (after_datagram.0, tasks_after)
      (step (world two_ips) (datagram false (query_message 7 host)) new_session tasks
        (after_datagram.0, tasks_after) (awaits_datagram false (query_message 7 host))
        after_datagram.1.0)
      (no_step (after_datagram.0, tasks_after))

Steps-remaining_example :
    (1 + remaining (after_datagram.0).phase ≤ 3) × (length (after_datagram.0).sent ≤ 1)
Steps-remaining_example = Steps-remaining 1 tasks (after_datagram.0, tasks_after) first_step
