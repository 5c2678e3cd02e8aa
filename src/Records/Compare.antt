-- ===== src/Records/Compare.antt =====
-- The order that sorts the records of addresses.
use st_dns.Base.{◌≡◌, Bool, false, not, ◌&&◌, arith}
use st_dns.Records.{DnsIpRecord, compare}

abbrev pub tied : DnsIpRecord → DnsIpRecord → Bool
tied a b = not (compare a b) && not (compare b a)

-- `compare` is what `std::sort` asks for: it never puts each of two records before the other, never
-- fails to be transitive, and where it tells neither a from b nor b from c it does not tell a from c.
pub compare-strict :
    (a b c : DnsIpRecord)
    → ((compare a b && compare b a) ≡ false)
      × (((compare a b && compare b c) && not (compare a c)) ≡ false)
      × (((tied a b && tied b c) && not (tied a c)) ≡ false)
unfolding compare
compare-strict a b c = (ground arith, ground arith, ground arith)
