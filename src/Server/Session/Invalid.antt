-- ===== src/Server/Session/Invalid.antt =====
-- A datagram that is no query ends its session, whose log reads the type of a query that is not there.
use st_dns.Base.{
  ℕ, ◌-◌, ◌≤◌, ◌≡◌, refl, ◌⊎◌, inl, inr, List, [], ◌∷◌, ◌++◌, Bool, true, false, not, ◌&&◌, Option,
  none, some, Outcome, ok, err, out_of_bounds, ◌>>=◌, store, store_zeros, replicate, length, ltb,
  if◌then◌else◌, arith, EndsIn, EndsIn-ok, bind-EndsIn, if-EndsIn, if_either,
}
use st_dns.Protocol.Header.{DnsHeader, default_len}
use st_dns.Protocol.Query.{DnsQuery, DnsQueryZone, parse_zone}
use st_dns.Protocol.Request.{UdpRequest, first_query, get_query_type, query_hosts}
use st_dns.Protocol.Request
use st_dns.Protocol.Response.Reads.{header-Ends, zone-Ends}
use st_dns.Server.Session.{Session, World, Tasks, new_session, end_session, received}

abbrev Unset : UdpRequest → Type 0
Unset request = (request.valid ≡ true) ⊎ (request.query_zone ≡ none)

parse-Unset : (buf : List ℕ) (n : ℕ) → EndsIn Unset (Request.parse buf n)
unfolding Request.parse
parse-Unset buf n =
    if-EndsIn Unset (ltb default_len n)
      (λ e. bind-EndsIn Unset _ _ (header-Ends buf 0 default_len) by_header)
      (inl (_, refl, inr refl))
  where
    invalid : UdpRequest
    invalid = record { header = none; query_zone = none; hosts = []; len = n; valid = false }

    read : DnsHeader → DnsQueryZone → UdpRequest
    read h zone =
        if zone.valid
        then (elim zone.queries [
          | [] ↦ record invalid { header = some h }
          | query ∷ queries ↦ record {
            header = some h;
            query_zone = some zone;
            hosts = query_hosts (query ∷ queries);
            len = n;
            valid = true;
          }
        ])
        else record invalid { header = some h }

    read-Unset : (h : DnsHeader) (zone : DnsQueryZone) → Unset (read h zone)
    read-Unset h zone = if_either Unset zone.valid (λ v. by_queries zone.queries) (λ v. inr refl)
      where
        by_queries :
            (queries : List DnsQuery)
            → Unset (elim queries [
              | [] ↦ record invalid { header = some h }
              | query ∷ queries' ↦ record {
                header = some h;
                query_zone = some zone;
                hosts = query_hosts (query ∷ queries');
                len = n;
                valid = true;
              }
            ])
        by_queries [] = inr refl
        by_queries (query ∷ queries') = inl refl

    by_header :
        (o : Option DnsHeader)
        → EndsIn Unset (elim o [
          | none ↦ ok invalid
          | some h ↦ parse_zone buf default_len (n - default_len) h.question_count >>= λ zone.
              ok (read h zone)
        ])
    by_header none = inl (_, refl, inr refl)
    by_header (some h) =
        bind-EndsIn Unset _ _ (zone-Ends buf default_len (n - default_len) h.question_count)
          (λ zone. inl (_, refl, read-Unset h zone))

end_session-unset : (s : Session) → s.request.query_zone ≡ none → end_session s ≡ err out_of_bounds
unfolding end_session get_query_type first_query
end_session-unset s e = rw e refl

-- A datagram that parse finds invalid makes end_session read a query through a null pointer,
-- whether or not the receiving failed besides.
pub received-invalid :
    (w : World) (failed : Bool) (bytes : List ℕ) (tasks : Tasks) (request : UdpRequest)
    → length bytes ≤ 1024
    → Request.parse (bytes ++ replicate (1024 - length bytes) 0) (length bytes) ≡ ok request
    → request.valid ≡ false
    → received w failed bytes new_session tasks ≡ err out_of_bounds
unfolding received
received-invalid w failed bytes tasks request room parsed invalid = rw stored (
    if_either (λ (o : Outcome (Session × Tasks)). o ≡ err out_of_bounds)
      (not failed && ltb 0 (length bytes))
      (λ e.
        rw (parsed, end_session-unset (record with_bytes { request = request }) none_read, invalid)
          refl)
      (λ e. rw (end_session-unset with_bytes refl) refl))
  where
    buf : List ℕ
    buf = bytes ++ replicate (1024 - length bytes) 0

    with_bytes : Session
    with_bytes = record new_session { buf = buf }

    stored : store (replicate 1024 0) 0 bytes ≡ ok buf
    stored = store_zeros [] bytes 0 1024 _ refl (omega (arith, room))

    none_read : request.query_zone ≡ none
    none_read =
        elim (EndsIn-ok Unset (Request.parse buf (length bytes)) request
          (parse-Unset buf (length bytes)) parsed) [ inl v ↦ absurd (clash v) | inr e ↦ e ]
      where
        clash : request.valid ≡ true → ⊥
        clash v = cc
