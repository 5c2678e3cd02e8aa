-- ===== src/Console/Commands.antt =====
-- The commands of the console: src/core/console_manager.cpp, with `get_dns_record_list`, `dump`,
-- `stats` and the texts of records of src/core/dns_record_manager.cpp and dns_record_manager.h.
use st_dns.Base.{
  ℕ, ◌/◌, List, [], ◌∷◌, ◌++◌, Bool, true, false, map, Outcome, ok, ◌>>=◌, if◌then◌else◌,
}
use st_dns.Base.Text.{Text, codes, text_eq, is_empty}
use st_dns.Utils.Strings.{join}
use st_dns.Utils.Ipv4.{digits, ips_to_str, str_to_ip}
use st_dns.Config.{RemoteDnsServer}
use st_dns.Kv.{Db, Codec, list}
use st_dns.Records.{DnsRecord}
use st_dns.Records.Stats.{record_list, DnsRecordStats, no_stats, count_all}
use st_dns.Records.Store.{
  RecordsMessage, ReverseMessage, Wire, Stores, get_dns_records_pb, resolve_record, reverse_resolve,
  remove_record, clear_records,
}
use st_dns.Console.{Options}

-- `to_string`, of a number of 64 bits.
abbrev pub long_to_string : ℕ → Text
long_to_string n = digits 20 n []

abbrev pub bool_text : Bool → Text
bool_text true = codes "1"
bool_text false = codes "0"

-- `dns_record::serialize`
unfoldable pub serialize_record : DnsRecord → Text
serialize_record r =
    r.server
    ++ (codes "\t"
        ++ (r.domain
            ++ (codes "\t"
                ++ (long_to_string r.expire_time
                    ++ (codes "\t"
                        ++ (bool_text r.match_area
                            ++ (codes "\t"
                                ++ (ips_to_str r.ips ++ (codes "\t" ++ bool_text r.expire)))))))))

-- `dns_record_stats::serialize`
unfoldable pub serialize_stats : DnsRecordStats → Text
serialize_stats stats =
    codes "total_domain:"
    ++ (long_to_string stats.total_domain
        ++ (codes "\ntrusted_domain:"
            ++ (long_to_string stats.trusted_domain
                ++ (codes "\ntotal_ip:"
                    ++ (long_to_string stats.total_ip
                        ++ (codes "\ntrusted_ip:" ++ long_to_string stats.trusted_ip))))))

unfoldable pub dump_lines : List DnsRecord → Text
dump_lines [] = []
dump_lines (r ∷ records) = serialize_record r ++ (codes "\n" ++ dump_lines records)

abbrev pub invalid : Bool × Text
invalid = (false, codes "not invalid command")

module _ {ℓ} {S : Type ℓ} (db : Db S) (codec : Codec) (wire : Wire RecordsMessage)
    (reverse_wire : Wire ReverseMessage) (is_area_ip : List Text → ℕ → Bool) (get_area : ℕ → Text)
    (shuffle : List ℕ → List ℕ) (regex_match : Text → Text → Bool) (servers : List RemoteDnsServer)
    (now : ℕ) where
  -- `get_dns_record_list`
  unfoldable pub get_dns_record_list : S → Text → List DnsRecord × S
  get_dns_record_list s domain =
      let (message, s') = get_dns_records_pb db codec wire now s domain in
      (record_list is_area_ip (now / 1000) message servers, s')

  -- What `dump` writes to its file, for the items that `list` hands to its consumer.
  unfoldable pub dump_text : List (Text × Text) → Text
  dump_text [] = []
  dump_text ((key, value) ∷ items) =
      dump_lines (record_list is_area_ip (now / 1000) (wire.parse_message value) servers)
      ++ dump_text items

  -- `dump`: the path of the file and what it then has.
  unfoldable pub dump : S → Text × Text
  dump s = (codes "/tmp/st-dns-record.txt", dump_text (list db codec now s))

  -- `dns_record_manager::stats`
  unfoldable pub stats : S → DnsRecordStats
  stats s =
      count_all is_area_ip shuffle regex_match servers (now / 1000) wire (list db codec now s)
        no_stats

  -- What a command needs a domain for; without one the result is the initial one.
  abbrev with_domain : Text → Stores S → (Bool × Text) × Stores S → (Bool × Text) × Stores S
  with_domain domain stores result = if is_empty domain then (invalid, stores) else result

  -- The handler that `init` gives to the console. For `dump` the result is the path of its file.
  unfoldable pub run_command : List Text → Options → Stores S → Outcome ((Bool × Text) × Stores S)
  run_command commands options stores =
      let command = join commands (codes " ") in
      let domain = options.domain in
      if text_eq command (codes "dns resolve")
      then ok (
          with_domain domain stores (
            (
              true,
              serialize_record (
                  resolve_record db codec wire is_area_ip shuffle regex_match servers now
                    stores.records domain),
            ),
            record stores {
              records = (get_dns_records_pb db codec wire now stores.records domain).1;
            },
          ))
      else if text_eq command (codes "dns reverse resolve")
      then (if is_empty options.ip
          then ok (invalid, stores)
          else str_to_ip options.ip >>= λ ip.
              (let (found, reverse) = reverse_resolve db codec reverse_wire now stores.reverse ip in
                ok ((true, join found.domains (codes ",")), record stores { reverse = reverse })))
      else if text_eq command (codes "dns record get")
      then (let (found, records) = get_dns_record_list stores.records domain in
          ok (
            with_domain domain stores (
              (true, join (map serialize_record found) (codes "\n")),
              record stores { records = records },
            )))
      else if text_eq command (codes "dns record dump")
      then ok ((true, (dump stores.records).0), stores)
      else if text_eq command (codes "dns record remove")
      then ok (
          with_domain domain stores (
            (true, []),
            record stores { records = remove_record db codec wire stores.records domain },
          ))
      else if text_eq command (codes "dns record clear")
      then ok ((true, []), record stores { records = clear_records db codec wire stores.records })
      else if text_eq command (codes "dns record analyse")
      then ok ((true, serialize_stats (stats stores.records)), stores)
      else if text_eq command (codes "ip area")
      then (str_to_ip options.ip >>= λ ip. ok ((true, get_area ip), stores))
      else if text_eq command (codes "dns queue list")
      then ok ((false, codes "not implemented in singleton"), stores)
      else ok (invalid, stores)
