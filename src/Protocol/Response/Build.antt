-- ===== src/Protocol/Response/Build.antt =====
-- The bytes of the response that the server builds for a question.
use st_dns.Base.{
  ℕ, ◌+◌, ◌-◌, ◌*◌, ◌≤◌, ◌<◌, ◌≡◌, refl, sym, ap, ◌∙◌, List, [], ◌∷◌, ◌++◌, append_assoc, true,
  false, ok, store, store_zeros, length, length-append, arith, some, none, replicate, length-take,
  map, lt→leb,
}
use st_dns.Base.Text.{Text}
use st_dns.Utils.Bytes.{write, length-write}
use st_dns.Protocol.Header.{
  blank, default_len, generate, generate_answer, init_bytes, length-init_bytes,
}
use st_dns.Protocol.Domain.{load_range}
use st_dns.Protocol.Domain.Generate.{load_range-append}
use st_dns.Protocol.Request.RoundTrip.{query_message, parsed_request}
use st_dns.Protocol.Query.{copy_zone, type_a}
use st_dns.Protocol.Query.RoundTrip.{question, IsWritable, length-question}
use st_dns.Protocol.Resource.{
  DnsResourceZone, resource_bytes, generate_resource, default_single_ip_len, max_len,
}
use st_dns.Protocol.Response.{UdpResponse, limit_ips, put_answers, put_question, udp_response}

-- The object that `generate` returns for an address.
abbrev pub generated_answer : ℕ → ℕ → DnsResourceZone
generated_answer expire ip = record {
  len = default_single_ip_len;
  valid = true;
  domain = none;
  cname = none;
  kind = type_a;
  resource = 1;
  live_time = expire;
  length = 0;
  ipv4s = ip ∷ [];
}

abbrev pub answers_bytes : ℕ → List ℕ → Text
answers_bytes expire [] = []
answers_bytes expire (ip ∷ ips) = resource_bytes ip expire ++ answers_bytes expire ips

pub length-resource_bytes : (ip expire : ℕ) → length (resource_bytes ip expire) ≡ 16
unfolding resource_bytes
length-resource_bytes ip expire = omega (
  arith,
  length-append (write 2 type_a) (write 2 1 ++ (write 4 expire ++ (write 2 4 ++ write 4 ip))),
  length-append (write 2 1) (write 4 expire ++ (write 2 4 ++ write 4 ip)),
  length-append (write 4 expire) (write 2 4 ++ write 4 ip),
  length-append (write 2 4) (write 4 ip),
  length-write 2 type_a,
  length-write 2 1,
  length-write 4 expire,
  length-write 2 4,
  length-write 4 ip,
)

pub length-answers_bytes :
    (expire : ℕ) (ips : List ℕ) → length (answers_bytes expire ips) ≡ 16 * length ips
length-answers_bytes expire [] = refl
length-answers_bytes expire (ip ∷ ips) = omega (
  arith,
  length-append (resource_bytes ip expire) (answers_bytes expire ips),
  length-resource_bytes ip expire,
  length-answers_bytes expire ips,
)

-- While the message stays below `max_len`, every address is written.
pub put_answers-answers_bytes :
    (ips : List ℕ) (front : Text) (cur final_len expire n k : ℕ)
    → cur ≡ length front
    → n ≡ 16 * length ips + k
    → final_len + 16 * length ips < max_len
    → put_answers (front ++ replicate n 0) cur final_len expire ips
      ≡ ok (
        map (generated_answer expire) ips,
        ips,
        final_len + 16 * length ips,
        front ++ (answers_bytes expire ips ++ replicate k 0),
      )
unfolding put_answers generate_resource
put_answers-answers_bytes [] front cur final_len expire n k hc hn hf =
    let e : n ≡ k = omega arith in let f : final_len + 0 ≡ final_len = omega arith in rw (e, f)
put_answers-answers_bytes (ip ∷ ips) front cur final_len expire n k hc hn hf =
    let m : ℕ = 16 * length ips + k in
    let bytes : Text = resource_bytes ip expire in
    let placed : store (front ++ replicate n 0) cur bytes ≡ ok (front ++ (bytes ++ replicate m 0)) =
      store_zeros front bytes cur n m hc (omega (arith, length-resource_bytes ip expire)) in
    let tail : Text = answers_bytes expire ips ++ replicate k 0 in
    let rest : put_answers (front ++ (bytes ++ replicate m 0)) (cur + 16) (final_len + 16) expire
          ips
        ≡ ok (
          map (generated_answer expire) ips,
          ips,
          final_len + 16 * length (ip ∷ ips),
          front ++ (bytes ++ tail),
        ) =
      ap (λ (b : Text). put_answers b (cur + 16) (final_len + 16) expire ips)
        (sym (append_assoc front bytes (replicate m 0)))
      ∙ put_answers-answers_bytes ips (front ++ bytes) (cur + 16) (final_len + 16) expire m k
          (omega (arith, length-append front bytes, length-resource_bytes ip expire)) refl
          (omega arith)
      ∙ ap (λ (l : ℕ). ok (map (generated_answer expire) ips, ips, l, (front ++ bytes) ++ tail))
          (omega arith)
      ∙ ap
          (λ (b : Text).
            ok (map (generated_answer expire) ips, ips, final_len + 16 * length (ip ∷ ips), b))
          (append_assoc front bytes tail) in
    rw (
      lt→leb max_len (final_len + default_single_ip_len) (omega arith),
      placed,
      put_answers,
      rest,
      append_assoc bytes (answers_bytes expire ips) (replicate k 0),
    )

pub length-limit_ips : (ips : List ℕ) → length (limit_ips ips) ≤ 5
unfolding limit_ips
length-limit_ips ips = ground (arith, length-take 5 ips)

-- The message of a response to a query for one host.
abbrev pub response_message : ℕ → Text → ℕ → List ℕ → Text
response_message id host expire ips =
    init_bytes id 1 0 (length ips) true ++ (question host ++ answers_bytes expire ips)

-- The response object that the server builds.
abbrev pub built_response : ℕ → Text → ℕ → List ℕ → UdpResponse
built_response id host expire ips = record {
  header = some (record blank { id = id });
  query_zone = some (record {
    at = default_len;
    len = length (question host);
    valid = true;
    queries = [];
    hosts = [];
  });
  answer_zones = map (generated_answer expire) ips;
  ips = ips;
  len = default_len + length (question host) + 16 * length ips;
  valid = true;
}

pub udp_response-query :
    (id expire : ℕ) (host rest : Text) (record_ips : List ℕ)
    → IsWritable host
    → (tail : Text) × (udp_response
          (query_message id host ++ rest)
          (parsed_request id host)
          record_ips
          expire
        ≡ ok (
          built_response id host expire (limit_ips record_ips),
          response_message id host expire (limit_ips record_ips) ++ tail,
        ))
unfolding udp_response generate_answer generate put_question copy_zone
udp_response-query id expire host rest record_ips w =
    (replicate k 0, rw (headed, asked, stored, answered))
  where
    ips : List ℕ
    ips = limit_ips record_ips

    head : Text
    head = init_bytes id 1 0 (length ips) true

    few : length ips ≤ 5
    few = length-limit_ips record_ips

    k : ℕ
    k = 1012 - length (question host) - 16 * length ips

    headed : store (replicate 1024 0) 0 head ≡ ok (head ++ replicate 1012 0)
    headed = store_zeros [] head 0 1024 1012 refl refl

    asked :
        load_range (query_message id host ++ rest) default_len (length (question host))
        ≡ ok (question host)
    asked =
        ap (λ (b : Text). load_range b default_len (length (question host)))
          (append_assoc (init_bytes id 1 0 0 false) (question host) rest)
        ∙ load_range-append (init_bytes id 1 0 0 false) (question host) rest default_len _
            (sym (length-init_bytes id 1 0 0 false)) refl

    stored :
        store (head ++ replicate 1012 0) default_len (question host)
        ≡ ok (head ++ (question host ++ replicate (16 * length ips + k) 0))
    stored =
        store_zeros head (question host) default_len 1012 (16 * length ips + k)
          (sym (length-init_bytes id 1 0 (length ips) true))
          (omega (arith, few, length-question host w, w.short))

    answered :
        put_answers
          (head ++ (question host ++ replicate (16 * length ips + k) 0))
          (default_len + length (question host))
          (default_len + length (question host))
          expire
          ips
        ≡ ok (
          map (generated_answer expire) ips,
          ips,
          default_len + length (question host) + 16 * length ips,
          response_message id host expire ips ++ replicate k 0,
        )
    answered =
        ap
          (λ (b : Text).
            put_answers b (default_len + length (question host))
              (default_len + length (question host)) expire ips)
          (sym (append_assoc head (question host) (replicate (16 * length ips + k) 0)))
        ∙ put_answers-answers_bytes ips (head ++ question host) _ _ expire (16 * length ips + k) k
            (omega (
              arith,
              length-append head (question host),
              length-init_bytes id 1 0 (length ips) true,
            ))
            refl (omega (arith, few, length-question host w, w.short))
        ∙ ap
            (λ (b : Text). ok (
              map (generated_answer expire) ips,
              ips,
              default_len + length (question host) + 16 * length ips,
              b,
            ))
            (simp append_assoc)
