-- ===== src/Server/Session/Ends.antt =====
-- What a session calls of the protocol ends on every request.
use st_dns.Base.{
  ℕ, ◌+◌, ◌-◌, List, [], ◌∷◌, Option, none, some, Outcome, ok, err, out_of_bounds, inr, refl, ltb,
  leb, replicate, Ends, ok-Ends, if-Ends, elim-Ends, bind-Ends, store-Ends, load-Ends, zero, suc,
}
use st_dns.Protocol.Header.{default_len, generate, generate_answer}
use st_dns.Protocol.Domain.{load_range}
use st_dns.Protocol.Query.{DnsQuery, DnsQueryZone, copy_zone}
use st_dns.Protocol.Resource.{default_single_ip_len, max_len, generate_resource}
use st_dns.Protocol.Request.{UdpRequest, first_query, get_query_type, get_query_type_value}
use st_dns.Protocol.Request
use st_dns.Protocol.Response.{put_answers, put_question, udp_response}
use st_dns.Protocol.Response.Reads.{header-Ends, zone-Ends}

option-Ends {ℓ ℓ'} :
    {A : Type ℓ} {B : Type ℓ'} (o : Option A) {x : Outcome B} {f : A → Outcome B}
    → Ends x
    → ((a : A) → Ends (f a))
    → Ends (elim o [ none ↦ x | some a ↦ f a ])
option-Ends none hx hf = hx
option-Ends (some a) hx hf = hf a

pub request-Ends : (buf : List ℕ) (n : ℕ) → Ends (Request.parse buf n)
unfolding Request.parse
request-Ends buf n =
    if-Ends (ltb default_len n)
      (bind-Ends _ _ (header-Ends buf 0 default_len) (λ o. option-Ends o (ok-Ends _) (λ h.
        bind-Ends _ _ (zone-Ends buf default_len (n - default_len) h.question_count)
          (λ zone. ok-Ends _))))
      (ok-Ends _)

put_answers-Ends :
    (buf : List ℕ) (cur final_len expire : ℕ) (ips : List ℕ)
    → Ends (put_answers buf cur final_len expire ips)
unfolding put_answers generate_resource
put_answers-Ends buf cur final_len expire [] = ok-Ends _
put_answers-Ends buf cur final_len expire (ip ∷ ips) =
    elim-Ends (leb max_len (final_len + default_single_ip_len)) (ok-Ends _) (
      bind-Ends _ _ (bind-Ends _ _ (store-Ends buf cur _) (λ buf'. ok-Ends _))
        (λ (answer, buf'). bind-Ends _ _ (put_answers-Ends buf' _ _ expire ips) (λ r. ok-Ends _)))

range-Ends : (n : ℕ) (buf : List ℕ) (i : ℕ) → Ends (load_range buf i n)
unfolding load_range
range-Ends zero buf i = ok-Ends []
range-Ends (suc n) buf i =
    bind-Ends _ _ (load-Ends buf i)
      (λ b. bind-Ends _ _ (range-Ends n buf (i + 1)) (λ rest. ok-Ends _))

put_question-Ends :
    (from : List ℕ) (zone : Option DnsQueryZone) (buf : List ℕ) (cur : ℕ)
    → Ends (put_question from zone buf cur)
unfolding put_question copy_zone
put_question-Ends from none buf cur = ok-Ends _
put_question-Ends from (some zone) buf cur =
    bind-Ends _ _
      (bind-Ends _ _ (range-Ends zone.len from zone.at)
        (λ bytes. bind-Ends _ _ (store-Ends buf cur bytes) (λ buf'. ok-Ends _)))
      (λ r. ok-Ends _)

pub udp_response-Ends :
    (from : List ℕ) (request : UdpRequest) (record_ips : List ℕ) (expire : ℕ)
    → Ends (udp_response from request record_ips expire)
unfolding udp_response generate_answer generate
udp_response-Ends from request record_ips expire = option-Ends request.header (inr refl) (λ h.
    bind-Ends _ _ (bind-Ends _ _ (store-Ends (replicate 1024 0) 0 _) (λ buf. ok-Ends _))
      (λ (header, buf).
        bind-Ends _ _ (put_question-Ends from request.query_zone buf default_len)
          (λ (zone, zone_len, buf').
            bind-Ends _ _ (put_answers-Ends buf' _ _ expire _) (λ r. ok-Ends _))))

first_query-Ends : (request : UdpRequest) → Ends (first_query request)
unfolding first_query
first_query-Ends request =
    option-Ends request.query_zone (inr refl) (λ zone. by_queries zone.queries)
  where
    by_queries :
        (queries : List DnsQuery)
        → Ends (elim queries [ [] ↦ err out_of_bounds | query ∷ queries ↦ ok query ])
    by_queries [] = inr refl
    by_queries (query ∷ queries) = ok-Ends query

pub type-Ends : (request : UdpRequest) → Ends (get_query_type request)
unfolding get_query_type
type-Ends request = bind-Ends _ _ (first_query-Ends request) (λ q. ok-Ends _)

pub type_value-Ends : (request : UdpRequest) → Ends (get_query_type_value request)
unfolding get_query_type_value
type_value-Ends request = bind-Ends _ _ (first_query-Ends request) (λ q. ok-Ends _)
