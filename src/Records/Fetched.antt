-- ===== src/Records/Fetched.antt =====
-- What is resolved behind `add`: src/core/dns_record_manager.cpp.
use st_dns.Base.{
  ℕ, ◌/◌, ◌<◌, ◌≡◌, refl, sym, ap, ◌∙◌, ◌⊎◌, inl, inr, List, [], ◌∷◌, ◌++◌, Bool, true, false,
  Option, some, if◌then◌else◌, length, arith, All, All-map,
}
use st_dns.Base.Text.{Text, text_eq, text_eq_refl, is_empty}
use st_dns.Base.Assoc.{lookup, lookup-assign}
use st_dns.Protocol.Domain.{c_str}
use st_dns.Config.{RemoteDnsServer, select_servers}
use st_dns.Kv.{Db, Codec, IsDb, IsCodec}
use st_dns.Records.{StoredRecord, DnsRecord, has_ip, transform}
use st_dns.Records.Sourced.{Sourced, All-has_ip, of_first, of_later}
use st_dns.Records.Resolve.{IsShuffle, transform-Sourced, transform_nonempty}
use st_dns.Records.Store.{RecordsMessage, Wire, get_dns_records_pb, add_record, resolve_record}
use st_dns.Records.Stored.{added, updated, get_dns_records_pb-added}

-- The stored record of a server, in a message.
abbrev pub stored_in : RecordsMessage → Text → Option StoredRecord
stored_in message server = lookup server message.map

Sourced-among :
    (stored : Text → Option StoredRecord) (ip : ℕ) (before after : List RemoteDnsServer)
    (server : RemoteDnsServer) (r : StoredRecord)
    → stored server.id ≡ some r
    → has_ip ip r.ips ≡ true
    → Sourced stored ip (before ++ (server ∷ after))
Sourced-among stored ip [] after server r e h = of_first server after r e h
Sourced-among stored ip (other ∷ before) after server r e h =
    of_later other (before ++ (server ∷ after)) (Sourced-among stored ip before after server r e h)

module _ (ip : ℕ) (message : RecordsMessage) (id : Text) (r : StoredRecord) where
  Sourced-updated :
      (servers : List RemoteDnsServer)
      → Sourced (stored_in (updated message id r)) ip servers
      → (has_ip ip r.ips ≡ true) ⊎ Sourced (stored_in message) ip servers
  Sourced-updated _ (of_first server servers r' e h) =
      by_owner (text_eq id server.id) (sym (lookup-assign id r server.id message.map) ∙ e)
    where
      by_owner :
          (b : Bool)
          → (if b then some r else lookup server.id message.map) ≡ some r'
          → (has_ip ip r.ips ≡ true) ⊎ Sourced (stored_in message) ip (server ∷ servers)
      by_owner true e' =
          let same : r' ≡ r = cc in inl (ap (λ (x : StoredRecord). has_ip ip x.ips) (sym same) ∙ h)
      by_owner false e' = inr (of_first server servers r' e' h)
  Sourced-updated _ (of_later server servers h) = later (Sourced-updated servers h)
    where
      later :
          (has_ip ip r.ips ≡ true) ⊎ Sourced (stored_in message) ip servers
          → (has_ip ip r.ips ≡ true) ⊎ Sourced (stored_in message) ip (server ∷ servers)
      later (inl new) = inl new
      later (inr old) = inr (of_later server servers old)

has_ip_first : (ip : ℕ) (ips : List ℕ) → has_ip ip (ip ∷ ips) ≡ true
unfolding has_ip
has_ip_first ip ips = ground arith

module _ {ℓ} {S : Type ℓ} (db : Db S) (codec : Codec) (wire : Wire RecordsMessage)
    (is_area_ip : List Text → ℕ → Bool) (shuffle : List ℕ → List ℕ)
    (regex_match : Text → Text → Bool) (servers : List RemoteDnsServer) where
  resolve_record-message :
      (now : ℕ) (s s' : S) (domain : Text) (message : RecordsMessage)
      → get_dns_records_pb db codec wire now s domain ≡ (message, s')
      → resolve_record db codec wire is_area_ip shuffle regex_match servers now s domain
        ≡ transform is_area_ip shuffle
            (now / 1000)
            (stored_in message)
            (select_servers regex_match domain servers)
            domain
  unfolding resolve_record
  resolve_record-message now s s' domain message e =
      ap
        (λ (r : RecordsMessage × S).
          transform is_area_ip shuffle (now / 1000) (stored_in r.0)
            (select_servers regex_match domain servers) domain)
        e

  -- Behind `add` for a server of the name some address is resolved, and each that is resolved is one of
  -- those added or was stored before.
  pub resolve_record-add_record :
      IsDb db
      → IsCodec codec
      → IsShuffle shuffle
      → (now later : ℕ) (s : S) (domain : Text) (first : ℕ) (others : List ℕ)
      → (server : RemoteDnsServer) (expire : ℕ) (before after : List RemoteDnsServer)
      → select_servers regex_match domain servers ≡ before ++ (server ∷ after)
      → let ips = first ∷ others in
        let old = (get_dns_records_pb db codec wire now s domain).0 in
        let new = updated old server.id (added now ips expire) in
        wire.parse_message (wire.serialize_message new) ≡ new
        → is_empty (wire.serialize_message new) ≡ false
        → c_str (wire.serialize_message new) ≡ wire.serialize_message new
        → let s' = add_record db codec wire now s domain ips server.id expire in
          let found =
            resolve_record db codec wire is_area_ip shuffle regex_match servers later s' domain in
          (0 < length found.ips)
          × All
              (λ (ip : ℕ).
                (has_ip ip ips ≡ true)
                ⊎ Sourced (stored_in old) ip (select_servers regex_match domain servers))
              found.ips
  resolve_record-add_record lawful read_back mixed now later s domain first others server expire
        before after among parsed full plain =
      rw answer (
        some_ip,
        All-map (λ (ip : ℕ). has_ip ip sent.ips ≡ true) From sent.ips from (All-has_ip sent.ips),
      )
    where
      chosen : List RemoteDnsServer
      chosen = select_servers regex_match domain servers

      ips : List ℕ
      ips = first ∷ others

      r : StoredRecord
      r = added now ips expire

      old : RecordsMessage
      old = (get_dns_records_pb db codec wire now s domain).0

      new : RecordsMessage
      new = updated old server.id r

      s' : S
      s' = add_record db codec wire now s domain ips server.id expire

      sent : DnsRecord
      sent = transform is_area_ip shuffle (later / 1000) (stored_in new) chosen domain

      From : ℕ → Type 0
      From ip = (has_ip ip ips ≡ true) ⊎ Sourced (stored_in old) ip chosen

      answer :
          resolve_record db codec wire is_area_ip shuffle regex_match servers later s' domain ≡ sent
      answer = resolve_record-message later s' s' domain new (
          get_dns_records_pb-added db codec wire lawful read_back now later s domain ips server.id
            expire parsed full plain)

      here : stored_in new server.id ≡ some r
      here = lookup-assign server.id r server.id old.map ∙ rw (text_eq_refl server.id) refl

      stored_first : Sourced (stored_in new) first chosen
      stored_first = rw among (
          Sourced-among (stored_in new) first before after server r here
            (has_ip_first first others))

      some_ip : 0 < length sent.ips
      some_ip =
          transform_nonempty is_area_ip (later / 1000) (stored_in new) shuffle chosen domain first
            mixed stored_first

      from : (ip : ℕ) → has_ip ip sent.ips ≡ true → From ip
      from ip h = Sourced-updated ip old server.id r chosen (
          transform-Sourced is_area_ip (later / 1000) (stored_in new) shuffle chosen domain ip mixed
            h)
