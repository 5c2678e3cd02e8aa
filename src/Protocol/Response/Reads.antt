-- ===== src/Protocol/Response/Reads.antt =====
-- The parts that `udp_response::parse` calls end on every buffer.
use st_dns.Base.{
  ℕ, zero, suc, ◌+◌, List, [], none, load, leb, ◌==◌, Ends, ok-Ends, if-Ends, elim-Ends, bind-Ends,
  load-Ends,
}
use st_dns.Utils.Bytes.{read}
use st_dns.Protocol.Header.{DnsHeader, default_len}
use st_dns.Protocol.Header
use st_dns.Protocol.Domain.{parse_domain, parse}
use st_dns.Protocol.Domain.Total.{parse-ends}
use st_dns.Protocol.Query.{DnsQuery, parse_query, parse_zone_loop, parse_zone}
use st_dns.Protocol.Resource.{DnsResourceZone, read_ips, parse_content, parse_resource}

pub read-Ends : (n : ℕ) (buf : List ℕ) (i result : ℕ) → Ends (read buf n i result)
unfolding read
read-Ends zero buf i result = ok-Ends result
read-Ends (suc n) buf i result =
    bind-Ends (load buf i) _ (load-Ends buf i) (λ b. read-Ends n buf (i + 1) _)

pub header-Ends : (buf : List ℕ) (at len : ℕ) → Ends (Header.parse buf at len)
unfolding Header.parse
header-Ends buf at len =
    if-Ends (leb default_len len)
      (bind-Ends (load buf at) _ (load-Ends buf at) (λ high.
        bind-Ends (load buf (at + 1)) _ (load-Ends buf (at + 1)) (λ low.
          bind-Ends (load buf (at + 2)) _ (load-Ends buf (at + 2)) (λ flags.
            bind-Ends (load buf (at + 3)) _ (load-Ends buf (at + 3)) (λ codes.
              bind-Ends _ _ (read-Ends 2 buf (at + 4) _) (λ questions.
                bind-Ends _ _ (read-Ends 2 buf (at + 6) _) (λ answers. ok-Ends _)))))))
      (ok-Ends none)

domain-Ends :
    (buf : List ℕ) (base size begin max_parse : ℕ)
    → Ends (parse_domain buf base size begin max_parse)
unfolding parse_domain
domain-Ends buf base size begin max_parse =
    bind-Ends (parse buf base size begin max_parse []) _
      (parse-ends buf base size begin max_parse [])
      (λ (n, d). if-Ends (n == 0) (ok-Ends _) (ok-Ends _))

query-Ends : (buf : List ℕ) (at len : ℕ) → Ends (parse_query buf at len)
unfolding parse_query
query-Ends buf at len = bind-Ends _ _ (domain-Ends buf at len 0 len) (λ d.
    if-Ends d.valid (bind-Ends _ _ (read-Ends 2 buf (at + d.len) 0) (λ t. ok-Ends _)) (ok-Ends _))

zone_loop-Ends :
    (left : ℕ) (buf : List ℕ) (at len reset_size real_size : ℕ) (queries : List DnsQuery)
    → Ends (parse_zone_loop left buf at len reset_size real_size queries)
unfolding parse_zone_loop
zone_loop-Ends zero buf at len reset_size real_size queries = ok-Ends _
zone_loop-Ends (suc left) buf at len reset_size real_size queries =
    elim-Ends (reset_size == 0) (ok-Ends _) (
      bind-Ends _ _ (query-Ends buf at len)
        (λ q. elim-Ends q.valid (zone_loop-Ends left buf (at + q.len) len _ _ _) (ok-Ends _)))

pub zone-Ends : (buf : List ℕ) (at len size : ℕ) → Ends (parse_zone buf at len size)
unfolding parse_zone
zone-Ends buf at len size = bind-Ends _ _ (zone_loop-Ends size buf at len _ 0 []) (λ r. ok-Ends _)

ips-Ends : (n : ℕ) (buf : List ℕ) (at : ℕ) → Ends (read_ips buf at n)
unfolding read_ips
ips-Ends zero buf at = ok-Ends []
ips-Ends (suc n) buf at =
    bind-Ends _ _ (read-Ends 4 buf at 0)
      (λ ip. bind-Ends _ _ (ips-Ends n buf (at + 4)) (λ ips. ok-Ends _))

content-Ends :
    (buf : List ℕ) (base original_max cur size : ℕ) (zone : DnsResourceZone)
    → Ends (parse_content buf base original_max cur size zone)
unfolding parse_content
content-Ends buf base original_max cur size zone =
    if-Ends _
      (bind-Ends _ _ (domain-Ends buf base original_max cur zone.length)
        (λ d. if-Ends d.valid (ok-Ends _) (ok-Ends _)))
      (if-Ends _ (bind-Ends _ _ (ips-Ends _ buf (base + cur)) (λ ips. ok-Ends _)) (ok-Ends _))

pub resource-Ends :
    (buf : List ℕ) (base original_max begin : ℕ) → Ends (parse_resource buf base original_max begin)
unfolding parse_resource
resource-Ends buf base original_max begin =
    bind-Ends _ _ (domain-Ends buf base original_max begin _) (λ d.
      if-Ends d.valid
        (bind-Ends _ _ (read-Ends 2 buf _ 0) (λ kind.
          bind-Ends _ _ (read-Ends 2 buf _ 0) (λ resource.
            bind-Ends _ _ (read-Ends 4 buf _ 0) (λ time.
              bind-Ends _ _ (read-Ends 2 buf _ 0)
                (λ len. content-Ends buf base original_max _ _ _)))))
        (ok-Ends _))
