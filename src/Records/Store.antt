-- ===== src/Records/Store.antt =====
-- The record manager's messages in its two stores: `add`, `get_dns_records_pb`, `resolve`, `remove`,
-- `clear`, `stats`, `reverse_resolve` and `add_reverse_record` of src/core/dns_record_manager.cpp.
use st_dns.Base.{ℕ, ◌+◌, ◌/◌, ◌%◌, ◌^◌, List, [], ◌∷◌, ◌++◌, Bool, if◌then◌else◌}
use st_dns.Base.Text.{Text, is_empty}
use st_dns.Base.Assoc.{lookup, assign}
use st_dns.Utils.Ipv4.{to_string}
use st_dns.Config.{RemoteDnsServer, has_text, select_servers}
use st_dns.Kv.{Db, Codec, get, put, erase, clear}
use st_dns.Records.{StoredRecord, DnsRecord, transform}

-- The messages `records` and `reverse_record` of message.proto. A map is a list of its entries.
pub record RecordsMessage : Type 0 where
  pub domain : Text
  pub map : List (Text × StoredRecord)

pub record ReverseMessage : Type 0 where
  pub ip : ℕ
  pub domains : List Text

-- What the code uses of protobuf for a kind of message.
pub record Wire {ℓ} (M : Type ℓ) : Type ℓ where
  pub serialize_message : M → Text
  pub parse_message : Text → M

-- `to_string(ip)`
abbrev pub ip_key : ℕ → Text
ip_key ip = to_string ip

module _ {ℓ} {S : Type ℓ} (db : Db S) (codec : Codec) (wire : Wire RecordsMessage) where
  -- `get_dns_records_pb`. Reading may erase what has expired.
  unfoldable pub get_dns_records_pb : ℕ → S → Text → RecordsMessage × S
  get_dns_records_pb now s domain =
      let (bytes, s') = get db codec now s domain in
      let found : RecordsMessage =
        if is_empty bytes then record { domain = []; map = [] } else wire.parse_message bytes in
      (record found { domain = domain }, s')

  -- `add`, on the store of records. `expire` is a number of seconds, the clock counts milliseconds.
  unfoldable pub add_record : ℕ → S → Text → List ℕ → Text → ℕ → S
  add_record now s domain ips dns_server expire =
      let (message, s') = get_dns_records_pb now s domain in
      let r : StoredRecord = record { ips = ips; expire = (expire + now / 1000) % 2 ^ 32 } in
      put db codec now s' domain
        (wire.serialize_message (record message { map = assign dns_server r message.map })) 0

  -- `resolve`, for the servers that are configured.
  unfoldable pub resolve_record :
      (List Text → ℕ → Bool)
      → (List ℕ → List ℕ)
      → (Text → Text → Bool)
      → List RemoteDnsServer
      → ℕ
      → S
      → Text
      → DnsRecord
  resolve_record is_area_ip shuffle regex_match servers now s domain =
      let (message, s') = get_dns_records_pb now s domain in
      transform is_area_ip shuffle (now / 1000) (λ server. lookup server message.map)
        (select_servers regex_match domain servers) domain

  -- `remove` and `clear`
  unfoldable pub remove_record : S → Text → S
  remove_record s domain = erase db codec s domain

  unfoldable pub clear_records : S → S
  clear_records s = clear db codec s

module _ {ℓ} {S : Type ℓ} (db : Db S) (codec : Codec) (wire : Wire ReverseMessage) where
  -- `reverse_resolve`
  unfoldable pub reverse_resolve : ℕ → S → ℕ → ReverseMessage × S
  reverse_resolve now s ip =
      let (bytes, s') = get db codec now s (ip_key ip) in
      let found : ReverseMessage =
        if is_empty bytes then record { ip = 0; domains = [] } else wire.parse_message bytes in
      (record found { ip = ip }, s')

  -- `add_reverse_record`
  unfoldable pub add_reverse_record : ℕ → S → ℕ → Text → S
  add_reverse_record now s ip domain =
      let (message, s') = reverse_resolve now s ip in
      if has_text domain message.domains
      then s'
      else put db codec now s' (ip_key ip)
          (wire.serialize_message (record message { domains = message.domains ++ (domain ∷ []) })) 0

  -- The loop of `add`, on the reverse store.
  unfoldable pub add_reverse_all : ℕ → S → List ℕ → Text → S
  add_reverse_all now s [] domain = s
  add_reverse_all now s (ip ∷ ips) domain =
      add_reverse_all now (add_reverse_record now s ip domain) ips domain

-- The two stores of the record manager.
pub record Stores {ℓ} (S : Type ℓ) : Type ℓ where
  pub records : S
  pub reverse : S

module _ {ℓ} {S : Type ℓ} (db : Db S) (codec : Codec) (wire : Wire RecordsMessage)
    (reverse_wire : Wire ReverseMessage) where
  -- `add`: the loop over the addresses goes to the reverse store.
  unfoldable pub add : ℕ → Stores S → Text → List ℕ → Text → ℕ → Stores S
  add now stores domain ips dns_server expire = record {
    records = add_record db codec wire now stores.records domain ips dns_server expire;
    reverse = add_reverse_all db codec reverse_wire now stores.reverse ips domain;
  }
