-- ===== src/Server/Session.antt =====
-- A session of the server: `receive`, `process_session`, `query_dns_record`, `forward_dns_request` and
-- `end_session` of src/core/dns_server.cpp, and the fields of src/core/session.h that they use.
pub mod Ends
pub mod Steps
pub mod Bound
pub mod Answer
pub mod Invalid
mod Tests
use st_dns.Base.{
  ℕ, ◌+◌, ◌^◌, ◌-◌, List, [], ◌∷◌, ◌++◌, Bool, true, false, not, ◌&&◌, ◌||◌, Option, none, some,
  Outcome, ok, ◌>>=◌, store, replicate, take, length, ltb, ◌==◌, if◌then◌else◌,
}
use st_dns.Base.Text.{Text, text_eq}
use st_dns.Protocol.Request.{UdpRequest, get_host, get_query_type, get_query_type_value}
use st_dns.Protocol.Request
use st_dns.Protocol.Response.{udp_response}
use st_dns.Config.{RemoteDnsServer}
use st_dns.Records.{DnsRecord}
use st_dns.Client.{Forwarded}
use st_dns.TaskQueue.{Queue}
use st_dns.Server.{
  ProcessType, query, forward, drop_query, process_type, cal_expire, query_record_from_cache,
  sync_dns_record_from_remote, sync_loss_dns_record_from_remote,
}

-- What a session waits for: its datagram, the timer of 100 ms, the answer of a remote server, or the
-- end of the sending. In `ended` the session is deleted.
pub data Phase : Type 0 where
  receiving : Phase
  waiting : Phase
  forwarding : Phase
  sending : Phase
  ended : Phase

-- A `session`. `sent` are the datagrams handed to `async_send_to`, and `success` is what `end_session`
-- reports.
pub record Session : Type 0 where
  pub phase : Phase
  pub buf : List ℕ
  pub request : UdpRequest
  pub dns_record : DnsRecord
  pub process : ProcessType
  pub response : Option Forwarded
  pub sent : List (List ℕ)
  pub success : Bool

-- What the handlers read of the server: the configuration, the matching of its regular expressions,
-- and the record manager's `resolve` at the time.
pub record World : Type 0 where
  pub dns_cache_expire : ℕ
  pub servers : List RemoteDnsServer
  pub regex_match : Text → Text → Bool
  pub resolve : Text → DnsRecord
  pub next_id : ℕ

abbrev pub Tasks : Type 0
Tasks = Queue (Text × RemoteDnsServer)

abbrev pub empty_record : DnsRecord
empty_record = record {
  ips = [];
  expire_time = 0;
  server = [];
  domain = [];
  servers = [];
  expire = false;
  match_area = false;
  trusted_ip_count = 0;
  total_ip_count = 0;
}

-- A session as `receive` builds it.
abbrev pub new_session : Session
new_session = record {
  phase = receiving;
  buf = replicate 1024 0;
  request = record { header = none; query_zone = none; hosts = []; len = 1024; valid = true };
  dns_record = empty_record;
  process = query;
  response = none;
  sent = [];
  success = false;
}

abbrev pub localhost : Text
localhost = b'l' ∷ b'o' ∷ b'c' ∷ b'a' ∷ b'l' ∷ b'h' ∷ b'o' ∷ b's' ∷ b't' ∷ []

abbrev pub st_dns_name : Text
st_dns_name = b's' ∷ b't' ∷ b'-' ∷ b'd' ∷ b'n' ∷ b's' ∷ []

abbrev pub udp_type : Text
udp_type = b'U' ∷ b'D' ∷ b'P' ∷ []

-- `new udp_response(request, record, cal_expire(record))`
unfoldable pub build_response : World → Session → Outcome Forwarded
build_response w s = do
  (response, buf) ←
      udp_response s.buf s.request s.dns_record.ips (cal_expire w.dns_cache_expire s.dns_record)
  ok (record { buf = buf; len = response.len })

abbrev pub send_response : Session → Forwarded → Session
send_response s r = record s {
  phase = sending;
  response = some r;
  sent = s.sent ++ (take r.len r.buf ∷ []);
}

-- `complete` of `process_session`: a response is built if there is none, and sent.
unfoldable pub complete : World → Session → Outcome Session
complete w s = elim s.response [
  | none ↦ build_response w s >>= λ r. ok (send_response s r)
  | some r ↦ ok (send_response s r)
]

-- `complete` of `query_dns_record`
unfoldable pub complete_query : World → Session → Outcome Session
complete_query w s = build_response w s >>= λ r. complete w (record s { response = some r })

abbrev pub local_record : Session → DnsRecord
local_record s = record (s.dns_record) {
  server = st_dns_name;
  domain = get_host s.request;
  expire_time = 2 ^ 64 - 1;
}

-- `query_dns_record`
unfoldable pub query_dns_record : World → Session → Tasks → Outcome (Session × Tasks)
query_dns_record w s tasks =
    let host = get_host s.request in
    let found = query_record_from_cache w.resolve host in
    if text_eq host localhost
    then (complete_query w (record s { dns_record = local_record s }) >>= λ s'. ok (s', tasks))
    else if length found.ips == 0
    then ok (
      record s { phase = waiting },
      sync_dns_record_from_remote w.regex_match w.servers host w.next_id tasks,
    )
    else complete_query w (record s { dns_record = found }) >>= λ s'. ok (
      s',
      if found.expire || not found.match_area
          then sync_dns_record_from_remote w.regex_match w.servers host w.next_id tasks
          else sync_loss_dns_record_from_remote w.regex_match w.servers host found w.next_id tasks,
    )

-- The timer of `query_dns_record` has run out.
unfoldable pub timer_expired : World → Session → Outcome Session
timer_expired w s =
    complete_query w
      (record s { dns_record = query_record_from_cache w.resolve (get_host s.request) })

unfoldable pub has_udp_server : List RemoteDnsServer → Bool
has_udp_server [] = false
has_udp_server (server ∷ servers) = text_eq server.type udp_type || has_udp_server servers

-- `forward_dns_request`: to the first UDP server, if there is one.
unfoldable pub forward_dns_request : World → Session → Outcome Session
forward_dns_request w s =
    if has_udp_server w.servers then ok (record s { phase = forwarding }) else complete w s

-- The handler that `forward_dns_request` gives to `forward_udp`.
unfoldable pub forwarded : World → Option Forwarded → Session → Outcome Session
forwarded w response s = complete w (record s { response = response })

-- `process_session`
unfoldable pub process_session : World → Session → Tasks → Outcome (Session × Tasks)
process_session w s tasks = do
  query_type_value ← get_query_type_value s.request
  query_type ← get_query_type s.request
  let s' : Session = record s {
    dns_record = record (s.dns_record) { domain = get_host s.request };
    process = process_type query_type;
  }
  elim (process_type query_type) [
    | query ↦ query_dns_record w s' tasks
    | drop_query ↦ complete w s' >>= λ s''. ok (s'', tasks)
    | forward ↦ forward_dns_request w s' >>= λ s''. ok (s'', tasks)
  ]

abbrev pub is_some {ℓ} : {A : Type ℓ} → Option A → Bool
is_some none = false
is_some (some a) = true

abbrev pub is_success : Session → Bool
is_success s =
    is_some s.response && (elim s.process [ query ↦ not (length s.dns_record.ips == 0) | _ ↦ true ])

-- `end_session`, which reads the type of the query for its log before it deletes the session.
unfoldable pub end_session : Session → Outcome Session
end_session s = do
  query_type ← get_query_type s.request
  ok (record s { phase = ended; success = is_success s })

-- The handler of `receive`.
unfoldable pub received : World → Bool → List ℕ → Session → Tasks → Outcome (Session × Tasks)
received w failed bytes s tasks = do
  buf ← store s.buf 0 bytes
  let s' : Session = record s { buf = buf }
  if not failed && ltb 0 (length bytes)
      then (Request.parse buf (length bytes) >>= λ request.
          let s'' : Session = record s' { request = request } in
          if request.valid
          then process_session w s'' tasks
          else end_session s'' >>= λ s3. ok (s3, tasks))
      else (end_session s' >>= λ s''. ok (s'', tasks))
