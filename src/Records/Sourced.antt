-- ===== src/Records/Sourced.antt =====
-- Where the addresses come from that `transform` sends, and when there are any.
use st_dns.Base.{
  ℕ, ◌+◌, ◌%◌, ◌^◌, ◌≡◌, refl, inl, inr, List, [], ◌∷◌, ◌++◌, Bool, true, false, not, ◌&&◌, Option,
  none, some, ◌==◌, ==_iff, if◌then◌else◌, arith, All, All-append, All-map, if_either, Bool-cases,
  subst, ◌≢◌,
}
use st_dns.Base.Text.{Text, text_eq, is_empty}
use st_dns.Config.{RemoteDnsServer}
use st_dns.Records.{
  DnsIpRecord, StoredRecord, Chosen, none_chosen, compare, insert_record, sort_records, has_ip,
  choose_step, choose, add_ips, select_ips, ip_records, gather,
}

-- A server among these has stored the address.
pub data Sourced (stored : Text → Option StoredRecord) (ip : ℕ)
    : List RemoteDnsServer → Type 0 where
  of_first :
      (server : RemoteDnsServer) (servers : List RemoteDnsServer) (r : StoredRecord)
      → stored server.id ≡ some r
      → has_ip ip r.ips ≡ true
      → Sourced stored ip (server ∷ servers)
  of_later :
      (server : RemoteDnsServer) (servers : List RemoteDnsServer)
      → Sourced stored ip servers
      → Sourced stored ip (server ∷ servers)

module _ (P : ℕ → Type 0) where
  abbrev Ok : DnsIpRecord → Type 0
  Ok item = P item.ip

  insert_record-All :
      (item : DnsIpRecord) (items : List DnsIpRecord)
      → Ok item
      → All Ok items
      → All Ok (insert_record item items)
  unfolding insert_record
  insert_record-All item [] h k = (h, tt)
  insert_record-All item (other ∷ items) h k =
      if_either (All Ok) (compare other item) (λ e. (k.0, insert_record-All item items h k.1))
        (λ e. (h, k))

  pub sort_records-All : (items : List DnsIpRecord) → All Ok items → All Ok (sort_records items)
  unfolding sort_records
  sort_records-All [] h = tt
  sort_records-All (item ∷ items) h = insert_record-All item _ h.0 (sort_records-All items h.1)

  choose_step-All :
      (item : DnsIpRecord) (chosen : Chosen)
      → Ok item
      → All P chosen.ips
      → All P (choose_step item chosen).ips
  unfolding choose_step
  choose_step-All item chosen h k =
      if_either Good (item.match_area && not item.forbid)
        (λ e.
          if_either Good (not (is_empty chosen.server) && not (text_eq item.server chosen.server))
            (λ e'. k)
            (λ e'.
              if_either Good (has_ip item.ip chosen.ips) (λ e''. k)
                (λ e''. All-append P chosen.ips (item.ip ∷ []) k (h, tt))))
        (λ e. k)
    where
      Good : Chosen → Type 0
      Good c = All P c.ips

  choose-All :
      (items : List DnsIpRecord) (chosen : Chosen)
      → All Ok items
      → All P chosen.ips
      → All P (choose items chosen).ips
  unfolding choose
  choose-All [] chosen h k = k
  choose-All (item ∷ items) chosen h k = choose-All items _ h.1 (choose_step-All item chosen h.0 k)

  add_ips-All :
      (items : List DnsIpRecord) (ips : List ℕ)
      → All Ok items
      → All P ips
      → All P (add_ips items ips)
  unfolding add_ips
  add_ips-All [] ips h k = k
  add_ips-All (item ∷ items) ips h k = add_ips-All items _ h.1 (
      if_either (All P) (has_ip item.ip ips) (λ e. k)
        (λ e. All-append P ips (item.ip ∷ []) k (h.0, tt)))

  pub select_ips-All : (items : List DnsIpRecord) → All Ok items → All P (select_ips items)
  unfolding select_ips
  select_ips-All items h = by_ips (choose items none_chosen).ips (choose-All items none_chosen h tt)
    where
      by_ips :
          (ips : List ℕ)
          → All P ips
          → All P (elim ips [ [] ↦ add_ips items [] | ip ∷ others ↦ ip ∷ others ])
      by_ips [] k = add_ips-All items [] h tt
      by_ips (ip ∷ others) k = k

pub has_ip-All : (P : ℕ → Type 0) (ip : ℕ) (ips : List ℕ) → All P ips → has_ip ip ips ≡ true → P ip
unfolding has_ip
has_ip-All P ip [] h e = absurd (clash e)
  where
    clash : false ≢ true
    clash e = cc
has_ip-All P ip (other ∷ ips) h e = elim (Bool-cases (other == ip)) [
  | inl same ↦ subst P ((==_iff other ip).0 same) h.0
  | inr differs ↦ has_ip-All P ip ips h.1 (rest differs e)
]
  where
    rest :
        (other == ip) ≡ false
        → (if other == ip then true else has_ip ip ips) ≡ true
        → has_ip ip ips ≡ true
    rest differs e = ground (arith, differs, e)

-- Every address of a list is in it.
pub All-has_ip : (ips : List ℕ) → All (λ (ip : ℕ). has_ip ip ips ≡ true) ips
unfolding has_ip
All-has_ip [] = tt
All-has_ip (ip ∷ ips) = (
  ground arith,
  All-map (λ (other : ℕ). has_ip other ips ≡ true)
      (λ (other : ℕ). (if ip == other then true else has_ip other ips) ≡ true) ips
      (λ other h. ground (arith, h)) (All-has_ip ips),
)

module _ (is_area_ip : List Text → ℕ → Bool) (now : ℕ) where
  ip_records-All :
      (P : ℕ → Type 0) (server : RemoteDnsServer) (order expire : ℕ) (ips : List ℕ)
      → All P ips
      → All (Ok P) (ip_records is_area_ip now server order expire ips)
  unfolding ip_records
  ip_records-All P server order expire [] h = tt
  ip_records-All P server order expire (ip ∷ ips) h =
      (h.0, ip_records-All P server order expire ips h.1)

  pub gather-Sourced :
      (stored : Text → Option StoredRecord) (order : ℕ) (servers : List RemoteDnsServer)
      → All
          (λ (item : DnsIpRecord). Sourced stored item.ip servers)
          (gather is_area_ip stored now order servers)
  unfolding gather
  gather-Sourced stored order [] = tt
  gather-Sourced stored order (server ∷ servers) = by_stored (stored server.id) refl (
      All-map (λ (item : DnsIpRecord). Sourced stored item.ip servers) From_these rest
        (λ item h. of_later server servers h) (gather-Sourced stored ((order + 1) % 2 ^ 8) servers))
    where
      order' : ℕ
      order' = (order + 1) % 2 ^ 8

      rest : List DnsIpRecord
      rest = gather is_area_ip stored now order' servers

      From_these : DnsIpRecord → Type 0
      From_these item = Sourced stored item.ip (server ∷ servers)

      by_stored :
          (o : Option StoredRecord)
          → stored server.id ≡ o
          → All From_these rest
          → All From_these (elim o [
            | none ↦ rest
            | some r ↦ ip_records is_area_ip now server order' r.expire r.ips ++ rest
          ])
      by_stored none e h = h
      by_stored (some r) e h =
          All-append From_these _ rest
            (ip_records-All (λ (ip : ℕ). Sourced stored ip (server ∷ servers)) server order'
              r.expire r.ips
              (All-map (λ (ip : ℕ). has_ip ip r.ips ≡ true)
                (λ (ip : ℕ). Sourced stored ip (server ∷ servers)) r.ips
                (λ ip k. of_first server servers r e k) (All-has_ip r.ips)))
            h
