-- ===== src/Records/Unique.antt =====
-- No address of a record that `resolve` of src/core/dns_record_manager.cpp returns is there twice.
use st_dns.Base.{
  ℕ, zero, suc, ◌/◌, ◌≤◌, ◌≡◌, refl, sym, ap, ◌∙◌, subst, List, [], ◌∷◌, Bool, true, false, ◌==◌,
  if◌then◌else◌, leb, length, take, arith, if_either,
}
use st_dns.Base.Text.{Text}
use st_dns.Base.Assoc.{lookup}
use st_dns.Config.{RemoteDnsServer, select_servers}
use st_dns.Kv.{Db, Codec}
use st_dns.Protocol.Response.{limit_ips}
use st_dns.Records.{has_ip, select_ips, sort_records, gather}
use st_dns.Records.Choose.{Once, select_ips-Once}
use st_dns.Records.Resolve.{count_ip, IsShuffle, transform-ips}
use st_dns.Records.Store.{RecordsMessage, Wire, get_dns_records_pb, resolve_record}

count_ip_zero : (ip : ℕ) (ips : List ℕ) → has_ip ip ips ≡ false → count_ip ip ips ≡ 0
unfolding has_ip
count_ip_zero ip [] h = refl
count_ip_zero ip (other ∷ ips) h = grind (arith, count_ip_zero ip ips)

absent_of_count : (ip : ℕ) (ips : List ℕ) → count_ip ip ips ≡ 0 → has_ip ip ips ≡ false
unfolding has_ip
absent_of_count ip [] h = refl
absent_of_count ip (other ∷ ips) h = grind (arith, absent_of_count ip ips)

Once→count : (ips : List ℕ) → Once ips → (ip : ℕ) → count_ip ip ips ≤ 1
Once→count [] h ip = omega arith
Once→count (other ∷ ips) h ip =
    by_test (other == ip) refl (count_ip_zero other ips h.0) (Once→count ips h.1 ip)
  where
    by_test :
        (b : Bool)
        → (other == ip) ≡ b
        → count_ip other ips ≡ 0
        → count_ip ip ips ≤ 1
        → (if b then suc (count_ip ip ips) else count_ip ip ips) ≤ 1
    by_test true e k l =
        let same : other ≡ ip = grind (arith, e) in
        let none_left : count_ip ip ips ≡ 0 = ap (λ (n : ℕ). count_ip n ips) (sym same) ∙ k in
        omega (arith, none_left)
    by_test false e k l = l

count→Once : (ips : List ℕ) → ((ip : ℕ) → count_ip ip ips ≤ 1) → Once ips
count→Once [] h = tt
count→Once (ip ∷ ips) h = (
  absent_of_count ip ips (ground (arith, h ip)),
  count→Once ips (λ other. ground (arith, h other)),
)

has_ip-take : (n ip : ℕ) (ips : List ℕ) → has_ip ip ips ≡ false → has_ip ip (take n ips) ≡ false
unfolding has_ip
has_ip-take zero ip ips h = refl
has_ip-take (suc n) ip [] h = refl
has_ip-take (suc n) ip (other ∷ ips) h = grind (arith, has_ip-take n ip ips)

take-Once : (n : ℕ) (ips : List ℕ) → Once ips → Once (take n ips)
take-Once zero ips h = tt
take-Once (suc n) [] h = tt
take-Once (suc n) (ip ∷ ips) h = (has_ip-take n ip ips h.0, take-Once n ips h.1)

-- All addresses of a record that resolve returns are different, whatever is stored, and so are the
-- five at most of them that a response takes. Shuffle keeps how often an address is there.
pub resolve_record-Once {ℓ} :
    {S : Type ℓ} (db : Db S) (codec : Codec) (wire : Wire RecordsMessage)
    → (is_area_ip : List Text → ℕ → Bool) (shuffle : List ℕ → List ℕ)
    → (regex_match : Text → Text → Bool) (servers : List RemoteDnsServer) (now : ℕ) (s : S)
    → (domain : Text) → IsShuffle shuffle
    → let ips =
        (resolve_record db codec wire is_area_ip shuffle regex_match servers now s domain).ips in
      Once ips × Once (limit_ips ips)
unfolding resolve_record limit_ips
resolve_record-Once db codec wire is_area_ip shuffle regex_match servers now s domain h =
    (once, if_either Once (leb 5 (length ips)) (λ e. take-Once 5 ips once) (λ e. once))
  where
    message : RecordsMessage
    message = (get_dns_records_pb db codec wire now s domain).0

    chosen : List RemoteDnsServer
    chosen = select_servers regex_match domain servers

    ips : List ℕ
    ips = (resolve_record db codec wire is_area_ip shuffle regex_match servers now s domain).ips

    picked : List ℕ
    picked = select_ips (
        sort_records
          (gather is_area_ip (λ server. lookup server message.map) (now / 1000) 0 chosen))

    shuffled : ips ≡ shuffle picked
    shuffled =
        transform-ips is_area_ip (now / 1000) (λ server. lookup server message.map) shuffle chosen
          domain

    once : Once ips
    once = subst Once (sym shuffled) (
        count→Once (shuffle picked) (λ ip.
          subst (λ (n : ℕ). n ≤ 1) (sym (h.count_ip-shuffle ip picked))
            (Once→count picked
              (select_ips-Once (
                sort_records
                  (gather is_area_ip (λ server. lookup server message.map) (now / 1000) 0 chosen)))
              ip)))
