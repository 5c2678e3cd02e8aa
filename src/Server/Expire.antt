-- ===== src/Server/Expire.antt =====
-- The time to live that the server sends.
use st_dns.Base.{ℕ, ◌≤◌, ◌≡◌, true, false, arith, min, max}
use st_dns.Records.{DnsRecord}
use st_dns.Server.{cal_expire}

-- Between ten seconds and ten minutes, whatever is configured; a record outside of its area lives for
-- ten seconds; within these bounds the configured time is sent for a record in its area.
pub cal_expire_bounds :
    (dns_cache_expire : ℕ) (found : DnsRecord)
    → (10 ≤ cal_expire dns_cache_expire found)
      × (cal_expire dns_cache_expire found ≤ 600)
      × (cal_expire dns_cache_expire (record found { match_area = false }) ≡ 10)
      × (cal_expire (min (max dns_cache_expire 10) 600) (record found { match_area = true })
          ≡ min (max dns_cache_expire 10) 600)
unfolding cal_expire
cal_expire_bounds dns_cache_expire found = (ground arith, ground arith, ground arith, omega arith)
