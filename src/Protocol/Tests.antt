-- ===== src/Protocol/Tests.antt =====
-- The theorems on messages at concrete inputs.
use st_dns.Base.{
  ℕ, zero, suc, ◌+◌, ◌≤◌, ◌≡◌, ◌≢◌, ◌⊎◌, refl, List, [], ◌∷◌, ◌++◌, true, ok, err, out_of_bounds,
  ◌>>=◌, load, length, arith, bit_and, replicate, All,
}
use st_dns.Base.Text.{Text}
use st_dns.Utils.Bytes.{write}
use st_dns.Protocol.Domain.{parse, parse_re, parse_loop, parse_step, label_step, load_range, c_str}
use st_dns.Protocol.Domain.Generate.{split, wire_name, StartsLabel}
use st_dns.Protocol.Domain.RoundTrip.{IsHost, parse-wire_name}
use st_dns.Protocol.Domain.Labels.{IsLabel}
use st_dns.Protocol.Domain.Total.{parse-ends}
use st_dns.Protocol.Domain.Safety.{PointsWithin, parse_within, parse_wild_pointer}
use st_dns.Protocol.Domain.Suffix.{parse_suffix_overrun}
use st_dns.Protocol.Query.{generate_zone}
use st_dns.Protocol.Query.RoundTrip.{IsWritable, host_query, question, generate_zone-question}
use st_dns.Protocol.Request.{udp_request, tcp_request}
use st_dns.Protocol.Request
use st_dns.Protocol.Request.RoundTrip.{
  query_message, parsed_request, generated_request, parse-udp_request, tcp_request-query,
}
use st_dns.Protocol.Response.{udp_response, limit_ips}
use st_dns.Protocol.Response
use st_dns.Protocol.Response.Answers.{Word}
use st_dns.Protocol.Response.RoundTrip.{read_response, parse-udp_response}

-- a.bc
abbrev pub host : Text
host = b'a' ∷ b'.' ∷ b'b' ∷ b'c' ∷ []

abbrev label : Text
label = b'a' ∷ []

label-IsLabel : IsLabel label
label-IsLabel = record {
  nonempty = omega arith;
  short = omega arith;
  plain = ((λ e. omega arith), tt);
}

pub host-IsHost : IsHost host
unfolding split
host-IsHost = (
  label-IsLabel,
  (
    record {
      nonempty = omega arith;
      short = omega arith;
      plain = ((λ e. omega arith), ((λ e. omega arith), tt));
    },
    tt,
  ),
)

host-plain : All (λ (ch : ℕ). ch ≢ 0) host
host-plain =
    ((λ e. omega arith), ((λ e. omega arith), ((λ e. omega arith), ((λ e. omega arith), tt))))

host-begins : StartsLabel host
host-begins = λ e. omega arith

pub host-IsWritable : IsWritable host
host-IsWritable = record { begins = host-begins; short = omega arith; plain = host-plain }

parse-wire_name_example :
    parse ((9 ∷ 9 ∷ []) ++ (wire_name host ++ (5 ∷ []))) 1 10 1 9 []
    ≡ ok (length (wire_name host), host)
unfolding split
parse-wire_name_example =
    parse-wire_name (9 ∷ 9 ∷ []) (5 ∷ []) host 1 10 1 9 refl (omega arith) host-IsHost

-- A pointer to itself at address 1.
parse-ends_example :
    ((r : ℕ × Text) × (parse (1 ∷ 0xc0 ∷ 1 ∷ []) 0 3 0 3 [] ≡ ok r))
    ⊎ (parse (1 ∷ 0xc0 ∷ 1 ∷ []) 0 3 0 3 [] ≡ err out_of_bounds)
parse-ends_example = parse-ends (1 ∷ 0xc0 ∷ 1 ∷ []) 0 3 0 3 []

parse_wild_pointer_example : parse (0xc0 ∷ 200 ∷ []) 0 2 0 2 [] ≡ err out_of_bounds
unfolding load
parse_wild_pointer_example =
    parse_wild_pointer (0xc0 ∷ 200 ∷ []) 0 2 0 2 0xc0 200 [] (omega arith) (omega arith)
      (omega arith) refl refl refl (λ e. omega arith) (λ e. omega arith) (omega arith)

-- A label, a pointer to it and a 0 behind the pointer.
abbrev points : Text
points = 1 ∷ b'a' ∷ 0xc0 ∷ 0 ∷ 0 ∷ []

not_pointer :
    {A : Type 0} {frame_len : ℕ} (b : ℕ)
    → ok b ≡ ok frame_len
    → bit_and b 0xc0 ≢ 0xc0
    → bit_and frame_len 0xc0 ≡ 0xc0
    → A
not_pointer {frame_len = frame_len} b h ne e =
    let same : b ≡ frame_len = cc in absurd (ne (rw same e))

points-PointsWithin : PointsWithin points 4
unfolding load
points-PointsWithin zero frame_len low h1 h2 h3 = not_pointer 1 h1 (λ e. omega arith) h3
points-PointsWithin (suc zero) frame_len low h1 h2 h3 = not_pointer b'a' h1 (λ e. omega arith) h3
points-PointsWithin (suc (suc zero)) frame_len low h1 h2 h3 =
    let high : frame_len ≡ 0xc0 = cc in
    let none_more : low ≡ 0 = cc in rw (high, none_more) (omega arith)
points-PointsWithin (suc (suc (suc zero))) frame_len low h1 h2 h3 =
    not_pointer 0 h1 (λ e. omega arith) h3
points-PointsWithin (suc (suc (suc (suc zero)))) frame_len low h1 h2 h3 =
    not_pointer 0 h1 (λ e. omega arith) h3
points-PointsWithin (suc (suc (suc (suc (suc i))))) frame_len low h1 h2 h3 = absurd (bad h1)
  where
    bad : load points (suc (suc (suc (suc (suc i))))) ≢ ok frame_len
    bad = λ e. cc

parse_within_example :
    (consumed : ℕ) × (domain' : Text) × (parse points 0 4 0 4 [] ≡ ok (consumed, domain'))
    × (consumed ≤ 4 + 1)
parse_within_example =
    parse_within points 0 4 0 4 [] (omega arith) (omega arith) (omega arith) points-PointsWithin

generate_zone-question_example :
    generate_zone ((9 ∷ []) ++ replicate 30 0) 1 (host ∷ [])
    ≡ ok (
      record {
        at = 1 + length (question host);
        len = length (question host);
        valid = true;
        queries = host_query 1 host ∷ [];
        hosts = host ∷ [];
      },
      (9 ∷ []) ++ (question host ++ (question host ++ replicate 10 0)),
    )
unfolding split
generate_zone-question_example =
    generate_zone-question (9 ∷ []) host 1 30 10 refl room host-IsWritable
  where
    room : 30 ≡ length (question host) + (length (question host) + 10)
    room = refl

parse-udp_request_example :
    (udp_request 7 (host ∷ []) >>= λ (request, buf). Request.parse buf request.len)
    ≡ ok (parsed_request 7 host)
parse-udp_request_example = parse-udp_request 7 host (omega arith) host-IsWritable host-IsHost

tcp_request-query_example :
    (rest : Text) × (tcp_request 7 (host ∷ [])
      ≡ ok (
        record (generated_request 2 7 host) { len = length (query_message 7 host) + 2 },
        write 2 (length (query_message 7 host)) ++ (query_message 7 host ++ rest),
      ))
tcp_request-query_example = tcp_request-query 7 host host-IsWritable

abbrev six_ips : List ℕ
six_ips = 11 ∷ 12 ∷ 13 ∷ 14 ∷ 15 ∷ 16 ∷ []

parse-udp_response_example :
    (udp_response (query_message 7 host ++ []) (parsed_request 7 host) six_ips 60
      >>= λ (response, buf). Response.parse buf 0 response.len)
    ≡ ok (read_response 7 host 60 (limit_ips six_ips))
parse-udp_response_example =
    parse-udp_response 7 60 host [] six_ips (omega arith) (omega arith) host-IsWritable host-IsHost
      words (omega arith)
  where
    words : All Word six_ips
    words =
        (omega arith, (omega arith, (omega arith, (omega arith, (omega arith, (omega arith, tt))))))

parse_suffix_overrun_example :
    parse
      (replicate 12 0
        ++ (length label ∷ (label ++ (0xc0 ∷ 20 ∷ 0 ∷ 1 ∷ 0 ∷ 0 ∷ 1 ∷ b'b' ∷ 0 ∷ []))))
      0
      23
      12
      10
      []
    ≡ ok (length label + 4, label ++ (b'.' ∷ b'b' ∷ []))
unfolding parse_re parse_loop parse_step label_step load load_range c_str
parse_suffix_overrun_example =
    parse_suffix_overrun (replicate 12 0) label (1 ∷ 0 ∷ 0 ∷ 1 ∷ b'b' ∷ 0 ∷ []) (b'b' ∷ []) 0 23 12
      10 0xc0 20 3 refl label-IsLabel (omega arith) refl (λ e. omega arith) refl (omega arith)
