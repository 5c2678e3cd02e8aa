-- ===== src/Client/Exchange.antt =====
-- A name is resolved: the client's request goes to the server, and the server's response comes back.
use st_dns.Base.{
  ℕ, ◌+◌, ◌-◌, ◌*◌, ◌^◌, ◌≤◌, ◌<◌, ◌≡◌, refl, sym, List, [], ◌∷◌, ◌++◌, false, Outcome, ok, ◌>>=◌,
  store, store_zeros, replicate, arith, length, take, take-append, All, eq→==, le→leb,
}
use st_dns.Base.Text.{Text}
use st_dns.Protocol.Header.{default_len}
use st_dns.Protocol.Domain.RoundTrip.{IsHost}
use st_dns.Protocol.Query.RoundTrip.{question, IsWritable, length-question}
use st_dns.Protocol.Request.{udp_request, init}
use st_dns.Protocol.Request
use st_dns.Protocol.Request.RoundTrip.{
  query_message, parsed_request, init-query, parse-query_message, length-query_message,
}
use st_dns.Protocol.Response.{udp_response, limit_ips}
use st_dns.Protocol.Response
use st_dns.Protocol.Response.Build.{
  response_message, udp_response-query, length-limit_ips, built_response,
}
use st_dns.Protocol.Response.Answers.{Word}
use st_dns.Protocol.Response.RoundTrip.{
  read_response, parse-response_message, length-response_message, limit_ips-All, limit_ips-nonempty,
}
use st_dns.Client.{Completion, is_timeout_or_error, stage, udp_received, udp_dns}

-- The completion of a transfer of these bytes.
abbrev pub arrived : ℕ → List ℕ → Completion
arrived cost bytes = record { failed = false; cost = cost; size = length bytes; bytes = bytes }

-- A query for the addresses of a host: the server parses it and builds the response from its record,
-- and the client takes what comes back.
unfoldable pub resolve : ℕ → ℕ → ℕ → ℕ → ℕ → Text → List ℕ → Outcome (List (List ℕ))
resolve timeout id expire sent_cost received_cost host record_ips = do
  (request, query) ← udp_request id (host ∷ [])
  asked ← Request.parse query request.len
  (response, reply) ← udp_response query asked record_ips expire
  udp_dns timeout id (
      arrived sent_cost (take request.len query)
      ∷ arrived received_cost (take response.len reply)
      ∷ [])

module _ (id expire : ℕ) (host : Text) (ips : List ℕ) (hi : id < 2 ^ 16) (he : expire < 2 ^ 32)
    (w : IsWritable host) (hh : IsHost host) (words : All Word ips) (some_ip : 0 < length ips)
    (few : length ips ≤ 5) where
  abbrev message : Text
  message = response_message id host expire ips

  size : length message ≡ default_len + length (question host) + 16 * length ips
  size = length-response_message id expire host ips

  short : length message < 1024
  short = omega (arith, size, few, length-question host w, w.short)

  received : (cost : ℕ) → udp_received id (arrived cost message) ≡ ok (ips ∷ [])
  unfolding udp_received
  received cost = rw (stored, parsed, eq→== id id refl) refl
    where
      stored :
          store (replicate 1024 0) 0 message ≡ ok (message ++ replicate (1024 - length message) 0)
      stored = store_zeros [] message 0 1024 (1024 - length message) refl (omega (arith, short))

      parsed :
          Response.parse (message ++ replicate (1024 - length message) 0) 0 (length message)
          ≡ ok (read_response id host expire ips)
      parsed =
          parse-response_message id expire (length message) host _ ips hi he hh words some_ip
            (omega (arith, few)) refl (omega (arith, short))

-- A name is resolved to the first five addresses at most of the server's record, if both transfers
-- complete in time: the client's query is parsed, the response built, and the client calls its
-- handler once, with these addresses. The id has 16 bits, the time to live and the addresses have
-- 32, there is an address, and the host is one that generate can write and whose parts are labels.
pub resolve-limit_ips :
    (timeout id expire sent_cost received_cost : ℕ) (host : Text) (record_ips : List ℕ)
    → sent_cost ≤ timeout
    → received_cost ≤ timeout
    → id < 2 ^ 16
    → expire < 2 ^ 32
    → IsWritable host
    → IsHost host
    → All Word record_ips
    → 0 < length record_ips
    → resolve timeout id expire sent_cost received_cost host record_ips
      ≡ ok (limit_ips record_ips ∷ [])
unfolding resolve udp_request udp_dns stage is_timeout_or_error
resolve-limit_ips timeout id expire sent_cost received_cost host record_ips hs hr hi he w hh words
      some_ip =
    rw
      (
        init-query [] host id 0 1024 k refl room w,
        asked,
        answered.1,
        taken,
        le→leb sent_cost timeout hs,
        le→leb received_cost timeout hr,
      )
      (received id expire host ips hi he w hh (limit_ips-All record_ips words)
        (limit_ips-nonempty record_ips some_ip) (length-limit_ips record_ips) received_cost)
  where
    k : ℕ
    k = 1012 - 2 * length (question host)

    room : 1024 ≡ default_len + (length (question host) + (length (question host) + k))
    room = omega (arith, length-question host w, w.short)

    ips : List ℕ
    ips = limit_ips record_ips

    asked :
        Request.parse
          (query_message id host ++ (question host ++ replicate k 0))
          (default_len + length (question host))
        ≡ ok (parsed_request id host)
    asked =
        parse-query_message (question host ++ replicate k 0) host id
          (default_len + length (question host)) hi (omega (arith, length-query_message id host))
          (omega (arith, length-question host w, w.short)) hh

    answered :
        (tail : Text) × (udp_response
            (query_message id host ++ (question host ++ replicate k 0))
            (parsed_request id host)
            record_ips
            expire
          ≡ ok (built_response id host expire ips, response_message id host expire ips ++ tail))
    answered = udp_response-query id expire host (question host ++ replicate k 0) record_ips w

    taken :
        take
          (default_len + length (question host) + 16 * length ips)
          (response_message id host expire ips ++ answered.0)
        ≡ response_message id host expire ips
    taken =
        take-append (response_message id host expire ips) answered.0 _
          (sym (length-response_message id expire host ips))
