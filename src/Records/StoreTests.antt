-- ===== src/Records/StoreTests.antt =====
-- The theorem on the stored messages at one message, with a plain encoding of it for protobuf's.
use st_dns.Base.{
  ℕ, zero, suc, ◌+◌, ◌-◌, ◌≡◌, refl, List, [], ◌∷◌, ◌++◌, some, if◌then◌else◌, length, take, drop,
}
use st_dns.Base.Text.{Text, text_eq}
use st_dns.Base.Assoc.{lookup, assign}
use st_dns.Protocol.Domain.{c_str}
use st_dns.Kv.{get}
use st_dns.Kv.Tests.{list_db, list_codec, list_db-IsDb, list_codec-IsCodec}
use st_dns.Records.{StoredRecord}
use st_dns.Records.Store.{RecordsMessage, Wire, get_dns_records_pb, add_record}
use st_dns.Records.Stored.{added, updated, get_dns_records_pb-add_record}

-- Lengths are one greater, so that no byte is 0.
abbrev pub put_text : Text → Text
put_text t = (length t + 1) ∷ t

abbrev pub get_text : Text → Text × Text
get_text [] = ([], [])
get_text (n ∷ bytes) = (take (n - 1) bytes, drop (n - 1) bytes)

abbrev pub put_entries : List (Text × StoredRecord) → Text
put_entries [] = []
put_entries ((k, r) ∷ items) =
    put_text k ++ (put_text r.ips ++ ((r.expire + 1) ∷ put_entries items))

abbrev pub get_entries : ℕ → Text → List (Text × StoredRecord)
get_entries zero bytes = []
get_entries (suc n) bytes =
    let (k, bytes') = get_text bytes in
    let (ips, bytes'') = get_text bytes' in
    let (expire, bytes3) = get_text (1 ∷ bytes'') in
    let rest = get_entries n (drop 1 bytes3) in
    elim bytes3 [ [] ↦ [] | e ∷ bytes4 ↦ (k, record { ips = ips; expire = e - 1 }) ∷ rest ]

abbrev pub plain_wire : Wire RecordsMessage
plain_wire = record {
  serialize_message = λ m. put_text m.domain ++ ((length m.map + 1) ∷ put_entries m.map);
  parse_message = λ bytes.
      let (domain, bytes') = get_text bytes in
      elim bytes' [
        | [] ↦ record { domain = []; map = [] }
        | n ∷ bytes'' ↦ record { domain = domain; map = get_entries (n - 1) bytes'' }
      ];
}

abbrev domain : Text
domain = b'a' ∷ b'.' ∷ b'b' ∷ []

get_dns_records_pb-add_record_example :
    let old = (get_dns_records_pb list_db list_codec plain_wire 1000 [] domain).0 in
    let found =
      (get_dns_records_pb list_db list_codec plain_wire 9000
        (add_record list_db list_codec plain_wire 1000 [] domain (7 ∷ 8 ∷ []) (5 ∷ []) 60)
        domain).0 in
    (found ≡ updated old (5 ∷ []) (added 1000 (7 ∷ 8 ∷ []) 60))
    × (lookup (6 ∷ []) found.map ≡ (
        if text_eq (5 ∷ []) (6 ∷ [])
        then some (added 1000 (7 ∷ 8 ∷ []) 60)
        else lookup (6 ∷ []) old.map))
unfolding get_dns_records_pb get lookup assign c_str
get_dns_records_pb-add_record_example =
    get_dns_records_pb-add_record list_db list_codec plain_wire list_db-IsDb list_codec-IsCodec 1000
      9000 [] domain (7 ∷ 8 ∷ []) (5 ∷ []) (6 ∷ []) 60 refl refl refl
