-- ===== src/Records/Stored.antt =====
-- What `add` stores is found by `get_dns_records_pb`.
use st_dns.Base.{ℕ, ◌+◌, ◌/◌, ◌%◌, ◌^◌, ◌≡◌, refl, ap, ◌∙◌, List, [], false, some, if◌then◌else◌}
use st_dns.Base.Text.{Text, text_eq, is_empty}
use st_dns.Protocol.Domain.{c_str}
use st_dns.Base.Assoc.{lookup, assign, lookup-assign}
use st_dns.Kv.{Db, Codec, IsDb, IsCodec, put}
use st_dns.Kv.ReadBack.{get-put_whole}
use st_dns.Records.{StoredRecord}
use st_dns.Records.Store.{RecordsMessage, Wire, get_dns_records_pb, add_record}

-- The record that `add` puts into the map, and the message that it stores.
abbrev pub added : ℕ → List ℕ → ℕ → StoredRecord
added now ips expire = record { ips = ips; expire = (expire + now / 1000) % 2 ^ 32 }

abbrev pub updated : RecordsMessage → Text → StoredRecord → RecordsMessage
updated message server r = record message { map = assign server r message.map }

get_dns_records_pb-put {ℓ} :
    {S : Type ℓ} (db : Db S) (codec : Codec) (wire : Wire RecordsMessage)
    → IsDb db
    → IsCodec codec
    → (now later : ℕ) (s : S) (domain : Text) (items : List (Text × StoredRecord))
    → let m : RecordsMessage = record { domain = domain; map = items } in
      wire.parse_message (wire.serialize_message m) ≡ m
      → is_empty (wire.serialize_message m) ≡ false
      → c_str (wire.serialize_message m) ≡ wire.serialize_message m
      → get_dns_records_pb db codec wire later
          (put db codec now s domain (wire.serialize_message m) 0)
          domain
        ≡ (m, put db codec now s domain (wire.serialize_message m) 0)
unfolding get_dns_records_pb
get_dns_records_pb-put {S = S} db codec wire lawful read_back now later s domain items parsed full
      plain =
    ap read (get-put_whole db codec lawful read_back now later s domain _ plain)
    ∙ rw (full, parsed) refl
  where
    read : Text × S → RecordsMessage × S
    read (bytes, s') =
        let found : RecordsMessage =
          if is_empty bytes then record { domain = []; map = [] } else wire.parse_message bytes in
        (record found { domain = domain }, s')

pub get_dns_records_pb-added {ℓ} :
    {S : Type ℓ} (db : Db S) (codec : Codec) (wire : Wire RecordsMessage)
    → IsDb db
    → IsCodec codec
    → (now later : ℕ) (s : S) (domain : Text) (ips : List ℕ) (server : Text) (expire : ℕ)
    → let old = (get_dns_records_pb db codec wire now s domain).0 in
      let new = updated old server (added now ips expire) in
      wire.parse_message (wire.serialize_message new) ≡ new
      → is_empty (wire.serialize_message new) ≡ false
      → c_str (wire.serialize_message new) ≡ wire.serialize_message new
      → get_dns_records_pb db codec wire later
          (add_record db codec wire now s domain ips server expire)
          domain
        ≡ (new, add_record db codec wire now s domain ips server expire)
unfolding get_dns_records_pb add_record
get_dns_records_pb-added db codec wire lawful read_back now later s domain ips server expire parsed
      full plain =
    let old = get_dns_records_pb db codec wire now s domain in
    get_dns_records_pb-put db codec wire lawful read_back now later old.1 domain
      (assign server (added now ips expire) old.0.map) parsed full plain

-- After add, get_dns_records_pb finds at any later time the old message with the server's record
-- in it: these addresses, and the time at which they expire; the records of other servers are as
-- before. Leveldb and protobuf keep what they are given, and the message is serialized to some
-- bytes without a 0 and read back.
pub get_dns_records_pb-add_record {ℓ} :
    {S : Type ℓ} (db : Db S) (codec : Codec) (wire : Wire RecordsMessage)
    → IsDb db
    → IsCodec codec
    → (now later : ℕ) (s : S) (domain : Text) (ips : List ℕ) (server other : Text) (expire : ℕ)
    → let old = (get_dns_records_pb db codec wire now s domain).0 in
      let new = updated old server (added now ips expire) in
      wire.parse_message (wire.serialize_message new) ≡ new
      → is_empty (wire.serialize_message new) ≡ false
      → c_str (wire.serialize_message new) ≡ wire.serialize_message new
      → (let found =
            (get_dns_records_pb db codec wire later
              (add_record db codec wire now s domain ips server expire)
              domain).0 in
          (found ≡ new)
          × (lookup other found.map ≡ (
              if text_eq server other then some (added now ips expire) else lookup other old.map)))
get_dns_records_pb-add_record {S = S} db codec wire lawful read_back now later s domain ips server
      other expire parsed full plain =
    let old = get_dns_records_pb db codec wire now s domain in
    let found =
      ap (λ (r : RecordsMessage × S). r.0)
        (get_dns_records_pb-added db codec wire lawful read_back now later s domain ips server
          expire parsed full plain) in
    (
      found,
      ap (λ (m : RecordsMessage). lookup other m.map) found
          ∙ lookup-assign server (added now ips expire) other old.0.map,
    )
