-- ===== src/Protocol/Response/Answers.antt =====
-- The loop of `parse` over the answers of a response.
use st_dns.Base.{
  ℕ, ◌+◌, ◌*◌, ◌^◌, ◌<◌, ◌≡◌, refl, ap, ◌∙◌, List, [], ◌∷◌, ◌++◌, append_assoc, append-nil, true,
  ok, length, length-append, arith, some, none, map, All,
}
use st_dns.Base.Text.{Text}
use st_dns.Protocol.Header.{default_len}
use st_dns.Protocol.Domain.Generate.{wire_name}
use st_dns.Protocol.Domain.RoundTrip.{IsHost}
use st_dns.Protocol.Domain.{sub64}
use st_dns.Protocol.Query.{type_a}
use st_dns.Protocol.Resource.{
  DnsResourceZone, default_single_ip_len, resource_bytes, parse_resource,
}
use st_dns.Protocol.Resource.RoundTrip.{parse_resource-resource_bytes}
use st_dns.Protocol.Response.{UdpResponse, parse_answers}
use st_dns.Protocol.Response.Build.{answers_bytes, length-resource_bytes}

-- The object that `parse` returns for an answer about `host`.
abbrev pub read_answer : Text → ℕ → ℕ → DnsResourceZone
read_answer host expire ip = record {
  len = default_single_ip_len;
  valid = true;
  domain = some (record { domain = host; len = 2; valid = true });
  cname = none;
  kind = type_a;
  resource = 1;
  live_time = expire;
  length = 4;
  ipv4s = ip ∷ [];
}

abbrev pub Word : ℕ → Type 0
Word n = n < 2 ^ 32

-- The loop over the answers, begun behind the bytes `mid` that follow the name.
pub parse_answers-answers_bytes :
    (ips : List ℕ) (head host mid tail : Text) (expire max_readable rest : ℕ)
    (response : UdpResponse)
    → default_len ≡ length head
    → IsHost host
    → rest ≡ 16 * length ips
    → length (head ++ (wire_name host ++ mid)) + rest ≡ max_readable
    → max_readable < 2 ^ 32
    → expire < 2 ^ 32
    → All Word ips
    → parse_answers
        (length ips)
        ((head ++ (wire_name host ++ mid)) ++ (answers_bytes expire ips ++ tail))
        0
        max_readable
        rest
        response
      ≡ ok (
        record response {
          answer_zones = response.answer_zones ++ map (read_answer host expire) ips;
          ips = response.ips ++ ips;
        },
        0,
      )
unfolding parse_answers
parse_answers-answers_bytes [] head host mid tail expire max_readable rest response hd hh hr hm hs
      he words =
    rw (hr, append-nil response.answer_zones, append-nil response.ips)
parse_answers-answers_bytes (ip ∷ ips) head host mid tail expire max_readable rest response hd hh hr
      hm hs he words =
    let bytes : Text = resource_bytes ip expire in
    let others : Text = answers_bytes expire ips in
    let before : Text = head ++ (wire_name host ++ mid) in
    let size : length before ≡ length head + (length (wire_name host) + length mid) =
      omega
        (arith, length-append head (wire_name host ++ mid), length-append (wire_name host) mid) in
    let begin : sub64 max_readable rest ≡ length before = omega (arith, hm) in
    let left : sub64 rest default_single_ip_len ≡ 16 * length ips = omega (arith, hm) in
    let read : parse_resource (before ++ ((bytes ++ others) ++ tail)) 0 max_readable (length before)
        ≡ ok (read_answer host expire ip) =
      ap (λ (b : Text). parse_resource (before ++ b) 0 max_readable (length before))
        (append_assoc bytes others tail)
      ∙ parse_resource-resource_bytes head host mid 0 hd hh (others ++ tail) ip expire max_readable
          (length before) (omega arith) (omega (arith, hm)) (omega arith) (omega (arith, size, hm))
          words.0 he in
    let moved : before ++ ((bytes ++ others) ++ tail)
        ≡ (head ++ (wire_name host ++ (mid ++ bytes))) ++ (others ++ tail) =
      simp append_assoc in
    let again =
      parse_answers-answers_bytes ips head host (mid ++ bytes) tail expire max_readable
        (16 * length ips)
        (record response {
          answer_zones = response.answer_zones ++ (read_answer host expire ip ∷ []);
          ips = response.ips ++ (ip ∷ []);
        })
        hd hh refl
        (omega (
          arith,
          hm,
          size,
          length-append head (wire_name host ++ (mid ++ bytes)),
          length-append (wire_name host) (mid ++ bytes),
          length-append mid bytes,
          length-resource_bytes ip expire,
        ))
        hs he words.1 in
    rw (
      begin,
      read,
      left,
      moved,
      parse_answers,
      again,
      append_assoc response.answer_zones (read_answer host expire ip ∷ [])
          (map (read_answer host expire) ips),
      append_assoc response.ips (ip ∷ []) ips,
    )
