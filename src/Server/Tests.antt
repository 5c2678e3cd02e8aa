-- ===== src/Server/Tests.antt =====
-- The theorems on the server at one name and two servers.
use st_dns.Base.{◌≤◌, ◌≡◌, List, [], ◌∷◌, Bool, true, false, arith, min, max}
use st_dns.Base.Text.{Text, find_last, to_upper}
use st_dns.Protocol.Domain.{get_fi_domain}
use st_dns.Config.{
  RemoteDnsServer, new_server, select_servers, select_loop, is_foreign, in_whitelist, has_text,
}
use st_dns.Records.{DnsRecord}
use st_dns.TaskQueue.{empty_queue}
use st_dns.TaskQueue.Invariant.{IsQueue, empty_queue-IsQueue}
use st_dns.Server.{cal_expire, sync_dns_record_from_remote}
use st_dns.Server.Expire.{cal_expire_bounds}
use st_dns.Server.Sync.{sync-IsQueue}

abbrev found : DnsRecord
found = record {
  ips = 3 ∷ [];
  expire_time = 5;
  server = 1 ∷ [];
  domain = [];
  servers = [];
  expire = false;
  match_area = true;
  trusted_ip_count = 1;
  total_ip_count = 1;
}

cal_expire_bounds_example :
    (10 ≤ cal_expire 4000 found)
    × (cal_expire 4000 found ≤ 600)
    × (cal_expire 4000 (record found { match_area = false }) ≡ 10)
    × (cal_expire (min (max 4000 10) 600) (record found { match_area = true })
        ≡ min (max 4000 10) 600)
cal_expire_bounds_example = cal_expire_bounds 4000 found

abbrev name : Text
name = b'a' ∷ b'.' ∷ b'b' ∷ []

abbrev servers : List RemoteDnsServer
servers =
    record (new_server (1 ∷ []) 53 []) { id = 1 ∷ []; blacklist = [] }
    ∷ record (new_server (2 ∷ []) 53 []) { id = 2 ∷ []; blacklist = [] }
    ∷ []

abbrev no_match : Text → Text → Bool
no_match text pattern = false

sync-IsQueue_example : IsQueue (sync_dns_record_from_remote no_match servers name 7 (empty_queue 4))
unfolding select_servers select_loop is_foreign in_whitelist has_text get_fi_domain find_last
    to_upper
sync-IsQueue_example =
    sync-IsQueue no_match servers name 7 (empty_queue 4) tt (omega arith)
      (empty_queue-IsQueue 4 (omega arith))
