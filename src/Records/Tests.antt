-- ===== src/Records/Tests.antt =====
-- The theorems on address records at three of them.
use st_dns.Base.{ℕ, ◌≡◌, refl, List, [], ◌∷◌, true, false, not, ◌&&◌, All}
use st_dns.Records.{DnsIpRecord, compare, choose, none_chosen}
use st_dns.Records.Compare.{tied, compare-strict}
use st_dns.Records.Choose.{From, choose-From}

abbrev near : ℕ → ℕ → DnsIpRecord
near ip order = record {
  ip = ip;
  match_area = true;
  forbid = false;
  expire = false;
  expire_time = 9;
  server = order ∷ [];
  server_order = order;
}

abbrev far : DnsIpRecord
far = record (near 7 3) { match_area = false }

compare-strict_example :
    ((compare (near 5 1) far && compare far (near 5 1)) ≡ false)
    × (((compare (near 5 1) far && compare far (near 6 2)) && not (compare (near 5 1) (near 6 2)))
        ≡ false)
    × (((tied (near 5 1) far && tied far (near 6 2)) && not (tied (near 5 1) (near 6 2))) ≡ false)
compare-strict_example = compare-strict (near 5 1) far (near 6 2)

abbrev records : List DnsIpRecord
records = near 5 1 ∷ near 6 2 ∷ near 5 1 ∷ far ∷ []

choose-From_example :
    All
      (λ (ip : ℕ). From (choose records none_chosen).server ip records)
      (choose records none_chosen).ips
choose-From_example = choose-From records (refl, (refl, (refl, (refl, tt))))
