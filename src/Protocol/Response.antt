-- ===== src/Protocol/Response.antt =====
-- Responses: src/core/protocol/response.h and response.cpp.
pub mod Build
pub mod Answers
pub mod Reads
pub mod Ends
pub mod Ids
pub mod RoundTrip
use st_dns.Base.{
  ℕ, zero, suc, ◌+◌, ◌-◌, ◌%◌, ◌^◌, List, [], ◌∷◌, ◌++◌, Bool, true, false, Option, none, some,
  Outcome, ok, err, out_of_bounds, out_of_fuel, ◌>>=◌, ltb, leb, ◌==◌, if◌then◌else◌, replicate,
  take, length,
}
use st_dns.Utils.Bytes.{read}
use st_dns.Protocol.Header.{DnsHeader, default_len, generate_answer}
use st_dns.Protocol.Header
use st_dns.Protocol.Domain.{sub64}
use st_dns.Protocol.Query.{DnsQueryZone, copy_zone, parse_zone}
use st_dns.Protocol.Resource.{
  DnsResourceZone, default_single_ip_len, max_len, generate_resource, parse_resource,
}
use st_dns.Protocol.Request.{UdpRequest}

pub record UdpResponse : Type 0 where
  pub header : Option DnsHeader
  pub query_zone : Option DnsQueryZone
  pub answer_zones : List DnsResourceZone
  pub ips : List ℕ
  pub len : ℕ
  pub valid : Bool

abbrev pub blank_response : UdpResponse
blank_response = record {
  header = none;
  query_zone = none;
  answer_zones = [];
  ips = [];
  len = 0;
  valid = true;
}

-- The addresses that are sent: the first five at most.
unfoldable pub limit_ips : List ℕ → List ℕ
limit_ips ips = if leb 5 (length ips) then take 5 ips else ips

-- The answers, from address `cur` on, until the message would reach `max_len`.
unfoldable pub put_answers :
    List ℕ → ℕ → ℕ → ℕ → List ℕ → Outcome (List DnsResourceZone × List ℕ × ℕ × List ℕ)
put_answers buf cur final_len expire [] = ok ([], [], final_len, buf)
put_answers buf cur final_len expire (ip ∷ ips) =
    elim (leb max_len (final_len + default_single_ip_len)) [
      | true ↦ ok ([], [], final_len, buf)
      | false ↦ generate_resource buf cur ip expire >>= λ (answer, buf').
          put_answers buf' (cur + answer.len) (final_len + answer.len) expire ips
          >>= λ (answers, sent, final_len', buf'').
              ok (answer ∷ answers, ip ∷ sent, final_len', buf'')
    ]

-- The question is copied from the request's buffer.
unfoldable pub put_question :
    List ℕ → Option DnsQueryZone → List ℕ → ℕ → Outcome (Option DnsQueryZone × ℕ × List ℕ)
put_question from none buf cur = ok (none, 0, buf)
put_question from (some zone) buf cur = do
  (copy, buf') ← copy_zone from zone buf cur
  ok (some copy, copy.len, buf')

abbrev pub question_count : Option DnsQueryZone → ℕ
question_count none = 0
question_count (some zone) = length zone.queries

-- `udp_response(request, record, expire)`, for the addresses of the record and the request with its
-- buffer `from`. The header counts the addresses before the loop knows how many fit.
unfoldable pub udp_response : List ℕ → UdpRequest → List ℕ → ℕ → Outcome (UdpResponse × List ℕ)
udp_response from request record_ips expire = elim request.header [
  | none ↦ err out_of_bounds
  | some h ↦
      let ips = limit_ips record_ips in
      generate_answer (replicate 1024 0) 0 h.id (question_count request.query_zone) (length ips)
      >>= λ (header, buf).
          put_question from request.query_zone buf default_len >>= λ (zone, zone_len, buf').
          put_answers buf' (default_len + zone_len) (default_len + zone_len) expire ips
          >>= λ (answers, sent, final_len, buf''). ok (
            record {
              header = some header;
              query_zone = zone;
              answer_zones = answers;
              ips = sent;
              len = final_len;
              valid = true;
            },
            buf'',
          )
]

-- The loop over the answers that the header promises, `left` of them.
unfoldable pub parse_answers : ℕ → List ℕ → ℕ → ℕ → ℕ → UdpResponse → Outcome (UdpResponse × ℕ)
parse_answers zero buf base max_readable rest response = ok (response, rest)
parse_answers (suc left) buf base max_readable rest response =
    parse_resource buf base max_readable (sub64 max_readable rest) >>= λ answer. elim answer.valid [
      | true ↦ parse_answers left buf base max_readable (sub64 rest answer.len) (record response {
        answer_zones = response.answer_zones ++ (answer ∷ []);
        ips = response.ips ++ answer.ipv4s;
      })
      | false ↦ ok (record response { valid = false }, rest)
    ]

-- One round of the loop of `parse`: the new state, the bytes left, and whether all is parsed.
unfoldable pub parse_round : List ℕ → ℕ → ℕ → ℕ → UdpResponse → Outcome (UdpResponse × ℕ × Bool)
parse_round buf base max_readable rest response = elim response.header [
  | none ↦ Header.parse buf base rest >>= λ header. ok (elim header [
    | none ↦ (record response { valid = false }, rest, false)
    | some h ↦ (record response { header = some h }, sub64 rest default_len, false)
  ])
  | some h ↦
      if h.response_code == 0
      then (elim response.query_zone [
        | none ↦ parse_zone buf (base + sub64 max_readable rest) rest h.question_count >>= λ zone.
            ok (
              if zone.valid
              then (record response { query_zone = some zone }, sub64 rest zone.len, false)
              else (record response { valid = false }, rest, false))
        | some zone ↦
            if ltb (length response.answer_zones) h.answer_count
            then (do
              (response', rest') ←
                  parse_answers (h.answer_count - length response.answer_zones) buf base
                    max_readable rest response
              ok (response', rest', false))
            else ok (response, rest, true)
      ])
      else ok (response, rest, true)
]

-- `while (this->is_valid() && successParsedAll == false)`
unfoldable pub parse_rounds : ℕ → List ℕ → ℕ → ℕ → ℕ → UdpResponse → Outcome UdpResponse
parse_rounds zero buf base max_readable rest response = err out_of_fuel
parse_rounds (suc fuel) buf base max_readable rest response =
    parse_round buf base max_readable rest response >>= λ (response', rest', parsed_all).
    elim response'.valid [
      | true ↦ elim parsed_all [
        | true ↦ ok response'
        | false ↦ parse_rounds fuel buf base max_readable rest' response'
      ]
      | false ↦ ok response'
    ]

-- The header, the question, the answers and the end take a round each.
abbrev pub parse_fuel : ℕ
parse_fuel = 4

-- `udp_response(buf + base, …).parse(max_readable)`. `dataZone` stands at `max_readable - rest`.
unfoldable pub parse : List ℕ → ℕ → ℕ → Outcome UdpResponse
parse buf base max_readable =
    if ltb default_len max_readable
    then (do
      response ← parse_rounds parse_fuel buf base max_readable max_readable blank_response
      ok (record response { len = max_readable }))
    else ok (record blank_response { len = max_readable; valid = false })

-- `fist_ip`
unfoldable pub fist_ip : UdpResponse → ℕ
fist_ip response = elim response.ips [ [] ↦ 0 | ip ∷ ips ↦ ip ]

pub record TcpResponse : Type 0 where
  pub data_size : ℕ
  pub response : Option UdpResponse
  pub len : ℕ
  pub valid : Bool

-- `tcp_response::parse(max_readable)`
unfoldable pub tcp_parse : List ℕ → ℕ → Outcome TcpResponse
tcp_parse buf max_readable =
    if ltb 2 max_readable
    then (do
      data_size ← read buf 2 0 0
      let blank : TcpResponse = record {
        data_size = data_size;
        response = none;
        len = max_readable;
        valid = false;
      }
      if data_size == max_readable - 2
          then (do
            response ← parse buf 2 data_size
            ok (
                if response.valid
                then record blank { response = some response; valid = true }
                else blank))
          else ok blank)
    else ok (record { data_size = 0; response = none; len = max_readable; valid = false })
