-- ===== src/Client/Reply.antt =====
-- `parse` of src/core/dns_client.cpp, for the replies over TCP and TLS.
use st_dns.Base.{
  ℕ, refl, inr, List, [], not, Option, none, some, ok, err, out_of_bounds, ◌==◌, if◌then◌else◌,
  Ends, ok-Ends, if-Ends, bind-Ends,
}
use st_dns.Protocol.Header.{DnsHeader}
use st_dns.Protocol.Response.{UdpResponse}
use st_dns.Protocol.Response.Ends.{response-Ends}
use st_dns.Client.{parse_reply}

-- `parse` of the client ends on every reply.
pub parse_reply-Ends :
    (length : ℕ) (buf : List ℕ) (dns_id : ℕ) → Ends (parse_reply length buf dns_id)
unfolding parse_reply
parse_reply-Ends length buf dns_id =
    if-Ends _
      (bind-Ends _ _ (response-Ends buf 0 length)
        (λ r. if-Ends r.valid (by_header r r.header) (ok-Ends _)))
      (ok-Ends _)
  where
    by_header :
        (r : UdpResponse) (o : Option DnsHeader)
        → Ends (elim o [
          | none ↦ err out_of_bounds
          | some h ↦
              if not (h.id == dns_id)
              then ok []
              else if not (h.response_code == 0)
              then ok []
              else ok r.ips
        ])
    by_header r none = inr refl
    by_header r (some h) =
        if-Ends (not (h.id == dns_id)) (ok-Ends [])
          (if-Ends (not (h.response_code == 0)) (ok-Ends []) (ok-Ends r.ips))
