-- ===== src/Protocol/Request/RoundTrip.antt =====
-- A request that the client writes is a request that the server reads.
use st_dns.Base.{
  ℕ, ◌+◌, ◌-◌, ◌*◌, ◌%◌, ◌^◌, ◌<◌, ◌≡◌, refl, sym, ap, ◌∙◌, [], ◌∷◌, ◌++◌, append_assoc, true,
  false, Outcome, ok, ◌>>=◌, store, store_zeros, store-append, length, length-append, replicate-add,
  arith, some, replicate, lt→ltb,
}
use st_dns.Base.Text.{Text, is_empty}
use st_dns.Utils.Bytes.{write, to_bytes, to_bytes-write, length-write}
use native.Mathlib.Nat.{mod-eq_of_lt}
use st_dns.Protocol.Header.{
  DnsHeader, blank, default_len, generate, generate_query, init_bytes, length-init_bytes,
}
use st_dns.Protocol.Header
use st_dns.Protocol.Header.RoundTrip.{parse-init_bytes}
use st_dns.Protocol.Domain.Generate.{split, wire_name}
use st_dns.Protocol.Domain.RoundTrip.{IsHost}
use st_dns.Protocol.Query.{DnsQueryZone, default_flags, generate_zone, parse_zone}
use st_dns.Protocol.Query.RoundTrip.{
  question, host_query, IsWritable, length-question, generate_zone-question, parse_zone-question,
}
use st_dns.Protocol.Request.{
  UdpRequest, init, udp_request, query_hosts, parse, tcp_request, size_header,
}

-- A query for one host.
abbrev pub query_message : ℕ → Text → Text
query_message id host = init_bytes id 1 0 0 false ++ question host

-- The header that `parse` finds in a query for one host.
abbrev pub query_header : ℕ → DnsHeader
query_header id = record blank { id = id; question_count = 1 }

abbrev pub host_zone : ℕ → Text → DnsQueryZone
host_zone at host = record {
  at = at;
  len = length (question host);
  valid = true;
  queries = host_query at host ∷ [];
  hosts = [];
}

-- The request that `parse` returns for it.
abbrev pub parsed_request : ℕ → Text → UdpRequest
parsed_request id host = record {
  header = some (query_header id);
  query_zone = some (host_zone default_len host);
  hosts = host ∷ [];
  len = length (query_message id host);
  valid = true;
}

-- The zone that `generate` returns.
abbrev pub generated_zone : ℕ → Text → DnsQueryZone
generated_zone at host = record {
  at = at + length (question host);
  len = length (question host);
  valid = true;
  queries = host_query at host ∷ [];
  hosts = host ∷ [];
}

abbrev pub generated_request : ℕ → ℕ → Text → UdpRequest
generated_request at id host = record {
  header = some (record blank { id = id });
  query_zone = some (generated_zone (at + default_len) host);
  hosts = host ∷ [];
  len = default_len + length (question host);
  valid = true;
}

pub init-query :
    (front host : Text) (id at n k : ℕ)
    → at ≡ length front
    → n ≡ default_len + (length (question host) + (length (question host) + k))
    → IsWritable host
    → init (front ++ replicate n 0) at id (host ∷ [])
      ≡ ok (
        generated_request at id host,
        front ++ (query_message id host ++ (question host ++ replicate k 0)),
      )
unfolding init generate_query generate
init-query front host id at n k ha hn w = rw (headed, zoned)
  where
    head : Text
    head = init_bytes id 1 0 0 false

    m : ℕ
    m = length (question host) + (length (question host) + k)

    headed : store (front ++ replicate n 0) at head ≡ ok (front ++ (head ++ replicate m 0))
    headed = store_zeros front head at n m ha (omega (arith, length-init_bytes id 1 0 0 false))

    out :
        (front ++ head) ++ (question host ++ (question host ++ replicate k 0))
        ≡ front ++ (query_message id host ++ (question host ++ replicate k 0))
    out = simp append_assoc

    zoned :
        generate_zone (front ++ (head ++ replicate m 0)) (at + default_len) (host ∷ [])
        ≡ ok (
          generated_zone (at + default_len) host,
          front ++ (query_message id host ++ (question host ++ replicate k 0)),
        )
    zoned =
        ap (λ (b : Text). generate_zone b (at + default_len) (host ∷ [])) (simp append_assoc)
        ∙ generate_zone-question (front ++ head) host (at + default_len) m k
            (omega (arith, length-append front head, length-init_bytes id 1 0 0 false)) refl w
        ∙ ap (λ (b : Text). ok (generated_zone (at + default_len) host, b)) out

pub length-query_message :
    (id : ℕ) (host : Text) → length (query_message id host) ≡ 12 + length (question host)
length-query_message id host = omega (
  arith,
  length-append (init_bytes id 1 0 0 false) (question host),
  length-init_bytes id 1 0 0 false,
)

IsHost-nonempty : (host : Text) → IsHost host → is_empty host ≡ false
unfolding split
IsHost-nonempty [] h = absurd (omega (arith, h.0.nonempty))
IsHost-nonempty (ch ∷ host) h = refl

-- `parse` reads a query for one host, whatever follows it in the buffer.
pub parse-query_message :
    (rest host : Text) (id n : ℕ)
    → id < 2 ^ 16
    → n ≡ length (query_message id host)
    → n < 2 ^ 32
    → IsHost host
    → parse (query_message id host ++ rest) n ≡ ok (parsed_request id host)
unfolding parse query_hosts
parse-query_message rest host id n hi hn hs hh =
    rw (lt→ltb default_len n long, headed, zoned, IsHost-nonempty host hh, hn)
  where
    head : Text
    head = init_bytes id 1 0 0 false

    long : default_len < n
    long = omega (arith, length-query_message id host, length-append (wire_name host) default_flags)

    headed :
        Header.parse (query_message id host ++ rest) 0 default_len ≡ ok (some (query_header id))
    headed =
        ap (λ (b : Text). Header.parse b 0 default_len) (append_assoc head (question host) rest)
        ∙ parse-init_bytes [] (question host ++ rest) id 1 0 0 false default_len 0 refl
            (omega arith) hi

    zoned :
        parse_zone (query_message id host ++ rest) default_len (n - default_len) 1
        ≡ ok (host_zone default_len host)
    zoned =
        ap (λ (b : Text). parse_zone b default_len (n - default_len) 1)
          (append_assoc head (question host) rest)
        ∙ parse_zone-question head rest host default_len (n - default_len)
            (sym (length-init_bytes id 1 0 0 false)) (omega (arith, length-query_message id host))
            (omega arith) hh

-- For an id of 16 bits and a host that `generate` can write and whose parts are labels of at most
-- 63 characters, the server reads the request that the client wrote: its id, one question for an A
-- record, the host, and all its bytes.
pub parse-udp_request :
    (id : ℕ) (host : Text)
    → id < 2 ^ 16
    → IsWritable host
    → IsHost host
    → (udp_request id (host ∷ []) >>= λ (request, buf). parse buf request.len)
      ≡ ok (parsed_request id host)
unfolding udp_request
parse-udp_request id host hi w hh = rw (init-query [] host id 0 1024 k refl room w) (
    parse-query_message (question host ++ replicate k 0) host id
      (default_len + length (question host)) hi (omega (arith, length-query_message id host))
      (omega (arith, length-question host w, w.short)) hh)
  where
    k : ℕ
    k = 1012 - 2 * length (question host)

    room : 1024 ≡ default_len + (length (question host) + (length (question host) + k))
    room = omega (arith, length-question host w, w.short)

-- For a host that `generate` can write, a message for a TCP connection is the UDP query behind its
-- length in two bytes.
pub tcp_request-query :
    (id : ℕ) (host : Text)
    → IsWritable host
    → (rest : Text) × (tcp_request id (host ∷ [])
        ≡ ok (
          record (generated_request 2 id host) { len = length (query_message id host) + 2 },
          write 2 (length (query_message id host)) ++ (query_message id host ++ rest),
        ))
unfolding tcp_request
tcp_request-query id host w = (
  question host ++ replicate k 0,
  ap (λ (b : Text). init b 2 id (host ∷ []) >>= finish) (replicate-add 2 1024 0)
      ∙ rw (init-query (0 ∷ 0 ∷ []) host id 2 1024 k refl room w, same, measured),
)
  where
    k : ℕ
    k = 1012 - 2 * length (question host)

    room : 1024 ≡ default_len + (length (question host) + (length (question host) + k))
    room = omega (arith, length-question host w, w.short)

    finish : UdpRequest × Text → Outcome (UdpRequest × Text)
    finish (request, buf) = store buf 0 (to_bytes 2 (request.len % 2 ^ 16)) >>= λ buf'.
        ok (record request { len = request.len + size_header }, buf')

    same : default_len + length (question host) ≡ length (query_message id host)
    same = sym (length-query_message id host)

    measured :
        store
          (0 ∷ 0 ∷ (query_message id host ++ (question host ++ replicate k 0)))
          0
          (to_bytes 2 (length (query_message id host) % 2 ^ 16))
        ≡ ok (
            write 2 (length (query_message id host))
            ++ (query_message id host ++ (question host ++ replicate k 0)))
    measured =
        ap (store (0 ∷ 0 ∷ (query_message id host ++ (question host ++ replicate k 0))) 0)
          (ap (to_bytes 2) (mod-eq_of_lt small) ∙ to_bytes-write 2 _)
        ∙ store-append [] (0 ∷ 0 ∷ []) _ (write 2 (length (query_message id host))) 0 refl
            (sym (length-write 2 (length (query_message id host))))
      where
        small : length (query_message id host) < 2 ^ 16
        small = omega (arith, length-query_message id host, length-question host w, w.short)
