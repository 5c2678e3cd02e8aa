-- ===== src/Protocol/Response/RoundTrip.antt =====
-- A response that the server builds is a response that the client reads.
use st_dns.Base.{
  ℕ, zero, suc, ◌+◌, ◌-◌, ◌*◌, ◌^◌, ◌≤◌, ◌<◌, ◌≡◌, refl, sym, ap, ◌∙◌, List, [], ◌∷◌, ◌++◌,
  append_assoc, Bool, true, false, ok, ◌>>=◌, length, length-append, length-map, arith,
  if◌then◌else◌, some, map, All, lt→ltb, leb, take, length-take, le→ltb,
}
use st_dns.Base.Text.{Text}
use st_dns.Protocol.Header.{DnsHeader, blank, default_len, init_bytes, length-init_bytes}
use native.Mathlib.Nat.{mod-eq_of_lt}
use st_dns.Protocol.Header
use st_dns.Protocol.Header.RoundTrip.{parse-init_bytes}
use st_dns.Protocol.Domain.RoundTrip.{IsHost}
use st_dns.Protocol.Domain.{sub64}
use st_dns.Protocol.Query.{default_flags}
use st_dns.Protocol.Query.RoundTrip.{question, IsWritable, length-question, parse_zone-question}
use st_dns.Protocol.Query.{parse_zone}
use st_dns.Protocol.Request.RoundTrip.{query_message, parsed_request, host_zone}
use st_dns.Protocol.Response.{
  UdpResponse, limit_ips, parse_answers, parse_round, parse_rounds, parse, udp_response,
}
use st_dns.Protocol.Response.Build.{
  answers_bytes, response_message, length-answers_bytes, length-limit_ips, udp_response-query,
}
use st_dns.Protocol.Response.Answers.{read_answer, Word, parse_answers-answers_bytes}

-- The response that `parse` returns.
abbrev pub read_response : ℕ → Text → ℕ → List ℕ → UdpResponse
read_response id host expire ips = record {
  header =
      some (record blank { id = id; question_count = 1; answer_count = length ips; qr = 0x80 });
  query_zone = some (host_zone default_len host);
  answer_zones = map (read_answer host expire) ips;
  ips = ips;
  len = length (response_message id host expire ips);
  valid = true;
}

pub length-response_message :
    (id expire : ℕ) (host : Text) (ips : List ℕ)
    → length (response_message id host expire ips)
      ≡ default_len + length (question host) + 16 * length ips
length-response_message id expire host ips = omega (
  arith,
  length-append (init_bytes id 1 0 (length ips) true) (question host ++ answers_bytes expire ips),
  length-append (question host) (answers_bytes expire ips),
  length-init_bytes id 1 0 (length ips) true,
  length-answers_bytes expire ips,
)

-- `parse` reads a response to a query for one host, whatever follows it in the buffer.
pub parse-response_message :
    (id expire n : ℕ) (host tail : Text) (ips : List ℕ)
    → id < 2 ^ 16
    → expire < 2 ^ 32
    → IsHost host
    → All Word ips
    → 0 < length ips
    → length ips < 2 ^ 16
    → n ≡ length (response_message id host expire ips)
    → n < 2 ^ 32
    → parse (response_message id host expire ips ++ tail) 0 n
      ≡ ok (read_response id host expire ips)
unfolding parse parse_rounds parse_round
parse-response_message id expire n host tail ips hi he hh words some_ip few hn hs = rw (
  lt→ltb default_len n long,
  headed,
  begin,
  zoned,
  left,
  parse_round,
  lt→ltb 0 (length ips) some_ip,
  all,
  answered,
  le→ltb _ _ none_left,
  sym hn,
)
  where
    head : Text
    head = init_bytes id 1 0 (length ips) true

    buf : Text
    buf = response_message id host expire ips ++ tail

    answers : Text
    answers = answers_bytes expire ips

    size : n ≡ default_len + length (question host) + 16 * length ips
    size = hn ∙ length-response_message id expire host ips

    long : default_len < n
    long = omega (arith, size)

    headed :
        Header.parse (response_message id host expire ips ++ tail) 0 n
        ≡ ok (
            some
              (record blank { id = id; question_count = 1; answer_count = length ips; qr = 0x80 }))
    headed =
        ap (λ (b : Text). Header.parse b 0 n) (append_assoc head (question host ++ answers) tail)
        ∙ parse-init_bytes [] ((question host ++ answers) ++ tail) id 1 0 (length ips) true n 0 refl
            (omega (arith, long)) hi
        ∙ ap
            (λ (m : ℕ).
              ok (some (record blank { id = id; question_count = 1; answer_count = m; qr = 0x80 })))
            (mod-eq_of_lt few)

    begin : 0 + sub64 n (sub64 n default_len) ≡ default_len
    begin = omega (arith, long)

    left : sub64 (sub64 n default_len) (length (question host)) ≡ 16 * length ips
    left = omega (arith, size)

    all : length ips - 0 ≡ length ips
    all = omega arith

    zoned : parse_zone buf default_len (sub64 n default_len) 1 ≡ ok (host_zone default_len host)
    zoned =
        ap (λ (b : Text). parse_zone b default_len (sub64 n default_len) 1) (simp append_assoc)
        ∙ parse_zone-question head (answers ++ tail) host default_len (sub64 n default_len)
            (sym (length-init_bytes id 1 0 (length ips) true)) (omega (arith, size))
            (omega (arith, size)) hh

    asked : UdpResponse
    asked = record (read_response id host expire []) {
      header = (read_response id host expire ips).header;
      len = 0;
    }

    answered :
        parse_answers (length ips) buf 0 n (16 * length ips) asked
        ≡ ok (record (read_response id host expire ips) { len = 0 }, 0)
    answered =
        ap (λ (b : Text). parse_answers (length ips) b 0 n (16 * length ips) asked)
          (simp append_assoc)
        ∙ parse_answers-answers_bytes ips head host default_flags tail expire n (16 * length ips)
            asked (sym (length-init_bytes id 1 0 (length ips) true)) hh refl
            (omega (
              arith,
              size,
              length-init_bytes id 1 0 (length ips) true,
              length-append head (question host),
            ))
            hs he words

    none_left : length ips ≤ length (map (read_answer host expire) ips)
    none_left = omega (arith, length-map (read_answer host expire) ips)

take-All : (n : ℕ) (ips : List ℕ) → All Word ips → All Word (take n ips)
take-All zero ips words = tt
take-All (suc n) [] words = tt
take-All (suc n) (ip ∷ ips) words = (words.0, take-All n ips words.1)

pub limit_ips-All : (ips : List ℕ) → All Word ips → All Word (limit_ips ips)
unfolding limit_ips
limit_ips-All ips words =
    elim (leb 5 (length ips)) as (λ (b : Bool). All Word (if b then take 5 ips else ips)) [
      | true ↦ take-All 5 ips words
      | false ↦ words
    ]

pub limit_ips-nonempty : (ips : List ℕ) → 0 < length ips → 0 < length (limit_ips ips)
unfolding limit_ips
limit_ips-nonempty ips h = ground (arith, length-take 5 ips)

-- The query is for one host that `generate` can write and whose parts are labels of at most 63
-- characters, its id has 16 bits, the time to live and the addresses have 32, and there is at
-- least one address. Then the client reads the response that the server built: the id, the
-- question, the first five addresses at most with their time to live, and all its bytes.
pub parse-udp_response :
    (id expire : ℕ) (host rest : Text) (record_ips : List ℕ)
    → id < 2 ^ 16
    → expire < 2 ^ 32
    → IsWritable host
    → IsHost host
    → All Word record_ips
    → 0 < length record_ips
    → (udp_response (query_message id host ++ rest) (parsed_request id host) record_ips expire
        >>= λ (response, buf). parse buf 0 response.len)
      ≡ ok (read_response id host expire (limit_ips record_ips))
parse-udp_response id expire host rest record_ips hi he w hh words some_ip =
    let (tail, built) = udp_response-query id expire host rest record_ips w in
    let few : length (limit_ips record_ips) ≤ 5 = length-limit_ips record_ips in
    let size = length-response_message id expire host (limit_ips record_ips) in
    rw built (
      parse-response_message id expire
        (default_len + length (question host) + 16 * length (limit_ips record_ips)) host tail
        (limit_ips record_ips) hi he hh (limit_ips-All record_ips words)
        (limit_ips-nonempty record_ips some_ip) (omega (arith, few)) (sym size)
        (omega (arith, few, length-question host w, w.short)))
