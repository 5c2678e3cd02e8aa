-- ===== src/Protocol/Query/RoundTrip.antt =====
-- A question written by `generate` is read back by `parse`.
use st_dns.Base.{
  ℕ, ◌+◌, ◌%◌, ◌^◌, ◌≤◌, ◌<◌, ◌≡◌, refl, sym, ap, ◌∙◌, ◌≢◌, [], ◌∷◌, ◌++◌, append_assoc, true, ok,
  store, store_zeros, length, length-append, arith, ne→==, some, All, replicate,
}
use native.Mathlib.Nat.{mod-eq_of_lt}
use st_dns.Base.Text.{Text}
use st_dns.Utils.Bytes.{read, read-big_endian}
use st_dns.Protocol.Domain.{parse_domain, generate, load_range}
use st_dns.Protocol.Domain.Generate.{
  wire_name, StartsLabel, generate_bytes-wire_name, final_data_len-wire_name, load_range-append,
}
use st_dns.Protocol.Domain.RoundTrip.{IsHost, parse_domain-wire_name}
use st_dns.Protocol.Query.{
  DnsQuery, type_a, fresh_query, default_flags, default_flags_size, parse_query, parse_zone_loop,
  parse_zone, generate_domain, generate_queries, copy_queries, generate_zone,
}

-- The bytes of a question for the address of a host.
abbrev pub question : Text → Text
question host = wire_name host ++ default_flags

abbrev pub host_query : ℕ → Text → DnsQuery
host_query at host = record (fresh_query at (length (wire_name host) + default_flags_size)) {
  domain = some (record { domain = host; len = length (wire_name host); valid = true });
}

pub parse_query-question :
    (front rest host : Text) (at len : ℕ)
    → at ≡ length front
    → length (question host) ≤ len
    → IsHost host
    → parse_query (front ++ (question host ++ rest)) at len ≡ ok (host_query at host)
unfolding parse_query
parse_query-question front rest host at len ha hl hh = rw (named, typed)
  where
    buf : Text
    buf = front ++ (question host ++ rest)

    named :
        parse_domain buf at len 0 len
        ≡ ok (record { domain = host; len = length (wire_name host); valid = true })
    named =
        ap (λ (b : Text). parse_domain b at len 0 len) (simp append_assoc)
        ∙ parse_domain-wire_name front (default_flags ++ rest) host at len 0 len (omega arith)
            (omega (arith, length-append (wire_name host) default_flags)) hh

    typed : read buf 2 (at + length (wire_name host)) 0 ≡ ok type_a
    typed =
        ap (λ (b : Text). read b 2 (at + length (wire_name host)) 0) (simp append_assoc)
        ∙ read-big_endian (front ++ wire_name host) (0 ∷ 1 ∷ []) (0 ∷ 1 ∷ rest) 2
            (at + length (wire_name host)) 0 (omega (arith, length-append front (wire_name host)))
            refl (omega arith)

pub parse_zone-question :
    (front rest host : Text) (at len : ℕ)
    → at ≡ length front
    → length (question host) ≤ len
    → len < 2 ^ 32
    → IsHost host
    → parse_zone (front ++ (question host ++ rest)) at len 1
      ≡ ok (record {
        at = at;
        len = length (question host);
        valid = true;
        queries = host_query at host ∷ [];
        hosts = [];
      })
unfolding parse_zone parse_zone_loop
parse_zone-question front rest host at len ha hl hn hh = rw (
  mod-eq_of_lt hn,
  ne→== len 0 (omega (arith, size)),
  parse_query-question front rest host at len ha hl hh,
  total,
  parse_zone_loop,
)
  where
    size : length (question host) ≡ length (wire_name host) + 4
    size = length-append (wire_name host) default_flags

    total : (0 + (length (wire_name host) + 4)) % 2 ^ 32 ≡ length (question host)
    total = omega (arith, size)

-- What a host must be for `generate` to write its name: neither empty nor begun by a dot, at most
-- 255 characters, no 0 among them.
pub record IsWritable (host : Text) : Type 0 where
  pub begins : StartsLabel host
  pub short : length host < 256
  pub plain : All (λ (ch : ℕ). ch ≢ 0) host

pub length-question : (host : Text) → IsWritable host → length (question host) ≡ length host + 6
length-question host w =
    omega (
      arith,
      length-append (wire_name host) default_flags,
      (final_data_len-wire_name host w.plain).1,
    )

pub generate_domain-question :
    (front host : Text) (at n k : ℕ)
    → at ≡ length front
    → n ≡ length (question host) + k
    → IsWritable host
    → generate_domain (front ++ replicate n 0) at host
      ≡ ok (host_query at host, front ++ (question host ++ replicate k 0))
unfolding generate_domain generate
generate_domain-question front host at n k ha hn w = rw (
  generate_bytes-wire_name host w.short w.begins w.plain,
  (final_data_len-wire_name host w.plain).0,
  named,
  flagged,
)
  where
    size : length (question host) ≡ length (wire_name host) + 4
    size = length-append (wire_name host) default_flags

    named :
        store (front ++ replicate n 0) at (wire_name host)
        ≡ ok (front ++ (wire_name host ++ replicate (4 + k) 0))
    named = store_zeros front (wire_name host) at n (4 + k) ha (omega (arith, size))

    flagged :
        store
          (front ++ (wire_name host ++ replicate (4 + k) 0))
          (at + length (wire_name host))
          default_flags
        ≡ ok (front ++ (question host ++ replicate k 0))
    flagged =
        ap (λ (b : Text). store b (at + length (wire_name host)) default_flags) (simp append_assoc)
        ∙ store_zeros (front ++ wire_name host) default_flags (at + length (wire_name host)) (4 + k)
            k (omega (arith, length-append front (wire_name host))) refl
        ∙ ap ok (simp append_assoc)

-- Over zeros with room for two copies, `generate` for one host that it can write writes the
-- question twice; the zone is the second copy.
pub generate_zone-question :
    (front host : Text) (at n k : ℕ)
    → at ≡ length front
    → n ≡ length (question host) + (length (question host) + k)
    → IsWritable host
    → generate_zone (front ++ replicate n 0) at (host ∷ [])
      ≡ ok (
        record {
          at = at + length (question host);
          len = length (question host);
          valid = true;
          queries = host_query at host ∷ [];
          hosts = host ∷ [];
        },
        front ++ (question host ++ (question host ++ replicate k 0)),
      )
unfolding generate_zone generate_queries copy_queries
generate_zone-question front host at n k ha hn w = rw (
  generate_domain-question front host at n (length (question host) + k) ha hn w,
  size,
  total,
  loaded,
  copied,
)
  where
    size : length (wire_name host) + 4 ≡ length (question host)
    size = sym (length-append (wire_name host) default_flags)

    total : length (question host) + 0 ≡ length (question host)
    total = omega arith

    buf : Text
    buf = front ++ (question host ++ replicate (length (question host) + k) 0)

    loaded : load_range buf at (length (question host)) ≡ ok (question host)
    loaded = load_range-append front (question host) _ at (length (question host)) ha refl

    copied :
        store buf (at + length (question host)) (question host)
        ≡ ok (front ++ (question host ++ (question host ++ replicate k 0)))
    copied =
        ap (λ (b : Text). store b (at + length (question host)) (question host)) (simp append_assoc)
        ∙ store_zeros (front ++ question host) (question host) (at + length (question host)) _ k
            (omega (arith, length-append front (question host))) refl
        ∙ ap ok (simp append_assoc)
