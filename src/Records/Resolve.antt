-- ===== src/Records/Resolve.antt =====
-- What `resolve` sends: `transform` of src/core/dns_record_manager.cpp as a whole.
use st_dns.Base.{
  ℕ, suc, ◌==◌, ◌+◌, ◌%◌, ◌^◌, ◌≤◌, ◌<◌, ◌≡◌, refl, sym, ap, ◌∙◌, List, [], ◌∷◌, ◌++◌, Bool, true,
  false, Option, none, some, if◌then◌else◌, arith, length, length-append, if_either, ◌≢◌,
}
use st_dns.Base.Text.{Text}
use st_dns.Config.{RemoteDnsServer}
use st_dns.Records.{
  DnsIpRecord, DnsRecord, StoredRecord, none_chosen, compare, insert_record, sort_records, has_ip,
  choose, add_ips, select_ips, ip_records, gather, source_servers, transform,
}
use st_dns.Records.Sourced.{
  Sourced, of_first, of_later, gather-Sourced, select_ips-All, sort_records-All, has_ip-All,
}

-- How often an address is there.
abbrev pub count_ip : ℕ → List ℕ → ℕ
count_ip ip [] = 0
count_ip ip (other ∷ ips) = if other == ip then suc (count_ip ip ips) else count_ip ip ips

-- The documented behaviour of `std::shuffle`: the same addresses, each as often, and as many.
pub record IsShuffle (shuffle : List ℕ → List ℕ) : Type 0 where
  pub has_ip-shuffle : (ip : ℕ) (ips : List ℕ) → has_ip ip (shuffle ips) ≡ has_ip ip ips
  pub count_ip-shuffle : (ip : ℕ) (ips : List ℕ) → count_ip ip (shuffle ips) ≡ count_ip ip ips
  pub length-shuffle : (ips : List ℕ) → length (shuffle ips) ≡ length ips

length-insert_record :
    (item : DnsIpRecord) (items : List DnsIpRecord)
    → length (insert_record item items) ≡ 1 + length items
unfolding insert_record
length-insert_record item [] = refl
length-insert_record item (other ∷ items) =
    if_either (λ (l : List DnsIpRecord). length l ≡ 1 + length (other ∷ items)) (compare other item)
      (λ e. omega (arith, length-insert_record item items)) (λ e. omega arith)

length-sort_records : (items : List DnsIpRecord) → length (sort_records items) ≡ length items
unfolding sort_records
length-sort_records [] = refl
length-sort_records (item ∷ items) =
    omega (arith, length-insert_record item (sort_records items), length-sort_records items)

add_ips-grows : (items : List DnsIpRecord) (ips : List ℕ) → length ips ≤ length (add_ips items ips)
unfolding add_ips
add_ips-grows [] ips = omega arith
add_ips-grows (item ∷ items) ips =
    let more : length ips ≤ length (if has_ip item.ip ips then ips else ips ++ (item.ip ∷ [])) =
      if_either (λ (l : List ℕ). length ips ≤ length l) (has_ip item.ip ips) (λ e. omega arith)
        (λ e. omega (arith, length-append ips (item.ip ∷ []))) in
    omega
      (arith, more, add_ips-grows items (if has_ip item.ip ips then ips else ips ++ (item.ip ∷ [])))

select_ips_nonempty : (items : List DnsIpRecord) → 0 < length items → 0 < length (select_ips items)
unfolding select_ips add_ips has_ip
select_ips_nonempty [] h = absurd (omega (arith, h))
select_ips_nonempty (item ∷ items) h = by_ips (choose (item ∷ items) none_chosen).ips
  where
    by_ips :
        (ips : List ℕ)
        → 0 < length (elim ips [ [] ↦ add_ips (item ∷ items) [] | ip ∷ others ↦ ip ∷ others ])
    by_ips [] = omega (arith, add_ips-grows items (item.ip ∷ []))
    by_ips (ip ∷ others) = omega arith

module _ (is_area_ip : List Text → ℕ → Bool) (now : ℕ) (stored : Text → Option StoredRecord) where
  ip_records_nonempty :
      (server : RemoteDnsServer) (order expire : ℕ) (ips : List ℕ)
      → 0 < length ips
      → 0 < length (ip_records is_area_ip now server order expire ips)
  unfolding ip_records
  ip_records_nonempty server order expire [] h = absurd (omega (arith, h))
  ip_records_nonempty server order expire (ip ∷ ips) h = omega arith

  has_ip_nonempty : (ip : ℕ) (ips : List ℕ) → has_ip ip ips ≡ true → 0 < length ips
  unfolding has_ip
  has_ip_nonempty ip [] h = absurd (clash h)
    where
      clash : false ≢ true
      clash e = cc
  has_ip_nonempty ip (other ∷ ips) h = omega arith

  gather_nonempty :
      (ip order : ℕ) (servers : List RemoteDnsServer)
      → Sourced stored ip servers
      → 0 < length (gather is_area_ip stored now order servers)
  unfolding gather
  gather_nonempty ip order _ (of_first server servers r e h) =
      rw (e, gather)
        (omega (
          arith,
          length-append (ip_records is_area_ip now server order' r.expire r.ips)
              (gather is_area_ip stored now order' servers),
          ip_records_nonempty server order' r.expire r.ips (has_ip_nonempty ip r.ips h),
        ))
    where
      order' : ℕ
      order' = (order + 1) % 2 ^ 8
  gather_nonempty ip order _ (of_later server servers h) =
      by_stored (stored server.id) (gather_nonempty ip order' servers h)
    where
      order' : ℕ
      order' = (order + 1) % 2 ^ 8

      rest : List DnsIpRecord
      rest = gather is_area_ip stored now order' servers

      by_stored :
          (o : Option StoredRecord)
          → 0 < length rest
          → 0
            < length (elim o as (λ x. List DnsIpRecord) [
              | none ↦ rest
              | some r ↦ ip_records is_area_ip now server order' r.expire r.ips ++ rest
            ])
      by_stored none k = k
      by_stored (some r) k =
          omega
            (arith, k, length-append (ip_records is_area_ip now server order' r.expire r.ips) rest)

  module _ (shuffle : List ℕ → List ℕ) where
    pub transform-ips :
        (servers : List RemoteDnsServer) (domain : Text)
        → (transform is_area_ip shuffle now stored servers domain).ips
          ≡ shuffle (select_ips (sort_records (gather is_area_ip stored now 0 servers)))
    unfolding transform
    transform-ips servers domain =
        by_items
          (record {
            ips = shuffle (select_ips items);
            expire_time = 0;
            server = [];
            domain = domain;
            servers = source_servers (gather is_area_ip stored now 0 servers);
            expire = false;
            match_area = false;
            trusted_ip_count = (choose items none_chosen).trusted_ip_count;
            total_ip_count = (choose items none_chosen).total_ip_count;
          })
          items
      where
        items : List DnsIpRecord
        items = sort_records (gather is_area_ip stored now 0 servers)

        by_items :
            (blank : DnsRecord) (l : List DnsIpRecord)
            → (elim l as (λ x. DnsRecord) [
              | [] ↦ blank
              | item ∷ others ↦ record blank {
                match_area = item.match_area;
                expire_time = item.expire_time;
                server = item.server;
                expire = item.expire;
              }
            ]).ips
              ≡ blank.ips
        by_items blank [] = refl
        by_items blank (item ∷ others) = refl

    -- An address that is sent is stored for one of these servers.
    pub transform-Sourced :
        (servers : List RemoteDnsServer) (domain : Text) (ip : ℕ)
        → IsShuffle shuffle
        → has_ip ip (transform is_area_ip shuffle now stored servers domain).ips ≡ true
        → Sourced stored ip servers
    transform-Sourced servers domain ip h e =
        has_ip-All (λ (ip : ℕ). Sourced stored ip servers) ip picked
          (select_ips-All (λ (ip : ℕ). Sourced stored ip servers) items
            (sort_records-All (λ (ip : ℕ). Sourced stored ip servers) found
              (gather-Sourced is_area_ip now stored 0 servers)))
          (sym (h.has_ip-shuffle ip picked)
            ∙ ap (has_ip ip) (sym (transform-ips servers domain))
            ∙ e)
      where
        found : List DnsIpRecord
        found = gather is_area_ip stored now 0 servers

        items : List DnsIpRecord
        items = sort_records found

        picked : List ℕ
        picked = select_ips items

    -- Some address is sent where one is stored.
    pub transform_nonempty :
        (servers : List RemoteDnsServer) (domain : Text) (ip : ℕ)
        → IsShuffle shuffle
        → Sourced stored ip servers
        → 0 < length (transform is_area_ip shuffle now stored servers domain).ips
    transform_nonempty servers domain ip h s =
        rw (transform-ips servers domain, h.length-shuffle (select_ips items))
          (select_ips_nonempty items (
            omega (
              arith,
              length-sort_records (gather is_area_ip stored now 0 servers),
              gather_nonempty ip 0 servers s,
            )))
      where
        items : List DnsIpRecord
        items = sort_records (gather is_area_ip stored now 0 servers)
