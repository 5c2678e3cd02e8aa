-- ===== src/Server/Session/Answer.antt =====
-- A session for a query of the type A: from the cache, or after the timer.
use st_dns.Base.{
  ℕ, ◌+◌, ◌-◌, ◌*◌, ◌^◌, ◌≤◌, ◌<◌, ◌≡◌, refl, sym, ◌∙◌, List, [], ◌∷◌, ◌++◌, true, false, not, ◌||◌,
  some, ok, store, store_zeros, replicate, take, length, take-append, ltb, lt→ltb, if◌then◌else◌,
  arith, ◌==◌, eq→==,
}
use st_dns.Base.Text.{Text, text_eq}
use st_dns.Protocol.Header.{default_len}
use st_dns.Protocol.Domain.RoundTrip.{IsHost}
use st_dns.Protocol.Query.RoundTrip.{question, IsWritable, length-question}
use st_dns.Protocol.Request.{get_query_type, get_query_type_value, first_query, get_host}
use st_dns.Protocol.Request
use st_dns.Protocol.Request.RoundTrip.{
  query_message, parsed_request, parse-query_message, length-query_message,
}
use st_dns.Protocol.Response.{udp_response, limit_ips}
use st_dns.Protocol.Response.Build.{response_message, udp_response-query, built_response}
use st_dns.Protocol.Response.RoundTrip.{length-response_message}
use st_dns.Records.{DnsRecord}
use st_dns.Server.{
  process_type, cal_expire, query_record_from_cache, sync_dns_record_from_remote,
  sync_loss_dns_record_from_remote,
}
use st_dns.Server.Session.{
  Phase, receiving, waiting, sending, ended, Session, World, Tasks, new_session, localhost,
  build_response, complete, complete_query, query_dns_record, process_session, received,
  timer_expired, end_session, empty_record,
}

-- The session with its parsed query and this record.
abbrev pub asked : ℕ → Text → DnsRecord → Session
asked id host found = record new_session {
  buf = query_message id host ++ replicate (1024 - length (query_message id host)) 0;
  request = parsed_request id host;
  dns_record = found;
}

-- The same behind the sending of the response.
abbrev pub answered : World → ℕ → Text → DnsRecord → List ℕ → Session
answered w id host found tail =
    let expire = cal_expire w.dns_cache_expire found in
    let message = response_message id host expire (limit_ips found.ips) in
    record (asked id host found) {
      phase = sending;
      response = some (record { buf = message ++ tail; len = length message });
      sent = message ∷ [];
    }

module _ (w : World) (id : ℕ) (host : Text) (writable : IsWritable host) where
  complete_query-answered :
      (p : Phase) (found : DnsRecord)
      → (tail : List ℕ) × (complete_query w (record (asked id host found) { phase = p })
          ≡ ok (answered w id host found tail))
  unfolding complete_query build_response complete
  complete_query-answered p found = (built.0, rw (built.1, size, taken) refl)
    where
      expire : ℕ
      expire = cal_expire w.dns_cache_expire found

      message : List ℕ
      message = response_message id host expire (limit_ips found.ips)

      built :
          (tail : List ℕ) × (udp_response
              (query_message id host ++ replicate (1024 - length (query_message id host)) 0)
              (parsed_request id host)
              found.ips
              expire
            ≡ ok (built_response id host expire (limit_ips found.ips), message ++ tail))
      built = udp_response-query id expire host _ found.ips writable

      size :
          default_len + length (question host) + 16 * length (limit_ips found.ips) ≡ length message
      size = sym (length-response_message id expire host (limit_ips found.ips))

      taken : take (length message) (message ++ built.0) ≡ message
      taken = take-append message built.0 _ refl

  module _ (small : id < 2 ^ 16) (labels : IsHost host) (tasks : Tasks) where
    received-query :
        received w false (query_message id host) new_session tasks
        ≡ query_dns_record w (asked id host (record empty_record { domain = host })) tasks
    unfolding received process_session get_query_type_value get_query_type first_query process_type
        get_host
    received-query = rw (stored, some_bytes, parsed) refl
      where
        some_bytes : ltb 0 (length (query_message id host)) ≡ true
        some_bytes = lt→ltb 0 _ (omega (arith, length-query_message id host))

        room : length (query_message id host) ≤ 1024
        room =
            omega
              (arith, length-query_message id host, length-question host writable, writable.short)

        stored :
            store (replicate 1024 0) 0 (query_message id host)
            ≡ ok (query_message id host ++ replicate (1024 - length (query_message id host)) 0)
        stored = store_zeros [] _ 0 1024 _ refl (omega (arith, room))

        parsed :
            Request.parse
              (query_message id host ++ replicate (1024 - length (query_message id host)) 0)
              (length (query_message id host))
            ≡ ok (parsed_request id host)
        parsed = parse-query_message _ host id _ small refl (omega (arith, room)) labels

-- A query for the type A of a host with addresses in the cache is answered at once, with the first
-- five of these addresses at most and cal_expire's time to live; a task fetches it again if the
-- record has expired or is outside of its area, else from the servers it lacks; the session then
-- ends with success. The id has 16 bits, the host is not localhost, and it is one that generate
-- can write and whose parts are labels.
pub received-cached :
    (w : World) (id : ℕ) (host : Text) (tasks : Tasks)
    → IsWritable host
    → id < 2 ^ 16
    → IsHost host
    → text_eq host localhost ≡ false
    → 0 < length (query_record_from_cache w.resolve host).ips
    → let found = query_record_from_cache w.resolve host in
      (s : Session) × ((received w false (query_message id host) new_session tasks
          ≡ ok (
            s,
            if found.expire || not found.match_area
                then sync_dns_record_from_remote w.regex_match w.servers host w.next_id tasks
                else sync_loss_dns_record_from_remote w.regex_match w.servers host found w.next_id
                    tasks,
          ))
        × (s.sent
            ≡ response_message id host (cal_expire w.dns_cache_expire found) (limit_ips found.ips)
              ∷ [])
        × (end_session s ≡ ok (record s { phase = ended; success = true })))
unfolding query_dns_record end_session get_query_type first_query get_host
received-cached w id host tasks writable small labels other some_ip =
    let found = query_record_from_cache w.resolve host in
    let hit : (length found.ips == 0) ≡ false = ground (arith, some_ip) in
    let (tail, done) = complete_query-answered w id host writable receiving found in
    (
      answered w id host found tail,
      (
        received-query w id host writable small labels tasks ∙ rw (other, hit, done) refl,
        refl,
        rw hit refl,
      ),
    )

-- Without addresses in the cache nothing is sent and tasks fetch the host; when the timer runs out
-- the answer has what the cache then holds, five addresses at most, and the session ends with
-- success if there are any. The conditions on id and host are those of received-cached.
pub received-remote :
    (w w' : World) (id : ℕ) (host : Text) (tasks : Tasks)
    → IsWritable host
    → id < 2 ^ 16
    → IsHost host
    → text_eq host localhost ≡ false
    → length (query_record_from_cache w.resolve host).ips ≡ 0
    → let found = query_record_from_cache w'.resolve host in
      (s s' : Session) × ((received w false (query_message id host) new_session tasks
          ≡ ok (s, sync_dns_record_from_remote w.regex_match w.servers host w.next_id tasks))
        × (s.sent ≡ [])
        × (timer_expired w' s ≡ ok s')
        × (s'.sent
            ≡ response_message id host (cal_expire w'.dns_cache_expire found) (limit_ips found.ips)
              ∷ [])
        × (end_session s'
            ≡ ok (record s' { phase = ended; success = not (length found.ips == 0) })))
unfolding query_dns_record end_session get_query_type first_query get_host timer_expired
received-remote w w' id host tasks writable small labels other none_found =
    let found = query_record_from_cache w'.resolve host in
    let miss : (length (query_record_from_cache w.resolve host).ips == 0) ≡ true =
      eq→== _ 0 none_found in
    let (tail, done) = complete_query-answered w' id host writable waiting found in
    (
      record (asked id host (record empty_record { domain = host })) { phase = waiting },
      answered w' id host found tail,
      (
        received-query w id host writable small labels tasks ∙ rw (other, miss) refl,
        refl,
        done,
        refl,
        refl,
      ),
    )
