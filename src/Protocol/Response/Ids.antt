-- ===== src/Protocol/Response/Ids.antt =====
-- The id of a response that `udp_response::parse` of src/core/protocol/dns_message.h reads is the one
-- in its first two bytes.
use st_dns.Base.{
  ℕ, zero, suc, ◌+◌, ◌-◌, ◌*◌, ◌^◌, ◌<◌, ◌≡◌, refl, ◌∙◌, inl, inr, List, ◌∷◌, Bool, true, false,
  Option, none, some, Outcome, ok, err, ◌>>=◌, bit_or, load, length, ltb, leb, ◌==◌, if◌then◌else◌,
  EndsIn, if-EndsIn, bind-EndsIn, EndsIn-bind, load-Ends, if_either, out_of_bounds, out_of_fuel,
  ◌≢◌, sym, subst,
}
use st_dns.Base.Bits.{zero-bit_or, bit_or-shifted}
use st_dns.Protocol.Header.{DnsHeader, default_len}
use st_dns.Protocol.Header
use st_dns.Protocol.Domain.{sub64}
use st_dns.Protocol.Query.{DnsQueryZone}
use st_dns.Protocol.Response.{
  UdpResponse, blank_response, parse_zone, parse_answers, parse_round, parse_rounds, parse_fuel,
}
use st_dns.Protocol.Response
use st_dns.Protocol.Resource.{DnsResourceZone}
use st_dns.Protocol.Response.Reads.{read-Ends, zone-Ends}
use st_dns.Protocol.Response.Ends.{Answered, answers-Ends}

-- The id in the first two bytes, as `parse` puts it together.
abbrev word_of : ℕ → ℕ → ℕ
word_of b0 b1 = bit_or (bit_or 0 (b0 * 2 ^ 8)) b1

word_of-bytes : (b0 b1 : ℕ) → b1 < 256 → word_of b0 b1 ≡ b0 * 256 + b1
word_of-bytes b0 b1 h = rw (zero-bit_or (b0 * 2 ^ 8)) (bit_or-shifted 8 b0 b1 h)

module _ (b0 b1 : ℕ) (bytes : List ℕ) where
  abbrev OfId : Option DnsHeader → Type 0
  OfId none = Unit {0}
  OfId (some h) = h.id ≡ word_of b0 b1

  header-OfId : (len : ℕ) → EndsIn OfId (Header.parse (b0 ∷ b1 ∷ bytes) 0 len)
  unfolding Header.parse load
  header-OfId len =
      if-EndsIn OfId (leb default_len len)
        (λ e. bind-EndsIn OfId _ _ (load-Ends (b0 ∷ b1 ∷ bytes) 2) (λ flags.
          bind-EndsIn OfId _ _ (load-Ends (b0 ∷ b1 ∷ bytes) 3) (λ codes.
            bind-EndsIn OfId _ _ (read-Ends 2 (b0 ∷ b1 ∷ bytes) 4 0) (λ questions.
              bind-EndsIn OfId _ _ (read-Ends 2 (b0 ∷ b1 ∷ bytes) 6 0)
                (λ answers. inl (_, refl, refl))))))
        (inl (none, refl, tt))

  abbrev HeaderOfId : UdpResponse × ℕ × Bool → Type 0
  HeaderOfId r = OfId r.0.header

  module _ (max_readable rest : ℕ) (answers : List DnsResourceZone) (ips : List ℕ) (len : ℕ)
      (valid : Bool) where
    abbrev state : Option DnsHeader → Option DnsQueryZone → UdpResponse
    state header zone = record {
      header = header;
      query_zone = zone;
      answer_zones = answers;
      ips = ips;
      len = len;
      valid = valid;
    }

    round-OfId :
        (header : Option DnsHeader) (zone : Option DnsQueryZone)
        → OfId header
        → EndsIn HeaderOfId (parse_round (b0 ∷ b1 ∷ bytes) 0 max_readable rest (state header zone))
    unfolding parse_round
    round-OfId none zone h =
        EndsIn-bind OfId HeaderOfId _ _ (header-OfId rest) (λ o k. inl (_, refl, read o k))
      where
        read :
            (o : Option DnsHeader)
            → OfId o
            → HeaderOfId (elim o [
              | none ↦ (record (state none zone) { valid = false }, rest, false)
              | some h ↦ (state (some h) zone, sub64 rest default_len, false)
            ])
        read none k = tt
        read (some h) k = k
    round-OfId (some h) none k =
        if-EndsIn HeaderOfId (h.response_code == 0)
          (λ e.
            bind-EndsIn HeaderOfId _ _ (zone-Ends (b0 ∷ b1 ∷ bytes) _ rest _)
              (λ z. inl (_, refl, if_either HeaderOfId z.valid (λ v. k) (λ v. k))))
          (inl (_, refl, k))
    round-OfId (some h) (some z) k =
        if-EndsIn HeaderOfId (h.response_code == 0)
          (λ e.
            if-EndsIn HeaderOfId (ltb (length answers) h.answer_count)
              (λ e'.
                EndsIn-bind (Answered (state (some h) (some z)) (h.answer_count - length answers))
                  HeaderOfId _ _
                  (answers-Ends (h.answer_count - length answers) (b0 ∷ b1 ∷ bytes) 0 max_readable
                    rest (state (some h) (some z)))
                  (λ r w. inl (_, refl, subst OfId (sym w.header) k)))
              (inl (_, refl, k)))
          (inl (_, refl, k))

  same_header :
      (response r : UdpResponse) → OfId response.header → ok response ≡ ok r → OfId r.header
  same_header response r k e = subst (λ (x : UdpResponse). OfId x.header) (ok_inj e) k
    where
      ok_inj : {x y : UdpResponse} → Outcome.ok x ≡ ok y → x ≡ y
      ok_inj e = cc

  rounds-OfId :
      (fuel max_readable rest : ℕ) (response r : UdpResponse)
      → OfId response.header
      → parse_rounds fuel (b0 ∷ b1 ∷ bytes) 0 max_readable rest response ≡ ok r
      → OfId r.header
  unfolding parse_rounds
  rounds-OfId zero max_readable rest response r h = λ e. absurd (apart e)
    where
      apart : Outcome.err out_of_fuel ≢ ok r
      apart = λ e. cc
  rounds-OfId (suc fuel) max_readable rest response r h =
      by_round
        (round-OfId max_readable rest response.answer_zones response.ips response.len response.valid
          response.header response.query_zone h)
        (λ rest' response' k. rounds-OfId fuel max_readable rest' response' r k)
    where
      next : UdpResponse × ℕ × Bool → Outcome UdpResponse
      next (response', rest', parsed_all) = elim response'.valid [
        | true ↦ elim parsed_all [
          | true ↦ ok response'
          | false ↦ parse_rounds fuel (b0 ∷ b1 ∷ bytes) 0 max_readable rest' response'
        ]
        | false ↦ ok response'
      ]

      Later : Type 0
      Later =
          (rest' : ℕ) (response' : UdpResponse)
          → OfId response'.header
          → parse_rounds fuel (b0 ∷ b1 ∷ bytes) 0 max_readable rest' response' ≡ ok r
          → OfId r.header

      same : (response' : UdpResponse) → OfId response'.header → ok response' ≡ ok r → OfId r.header
      same response' k e = subst (λ (x : UdpResponse). OfId x.header) (ok_inj e) k
        where
          ok_inj : {x y : UdpResponse} → Outcome.ok x ≡ ok y → x ≡ y
          ok_inj e = cc

      by_valid :
          (b parsed_all : Bool) (rest' : ℕ) (response' : UdpResponse)
          → OfId response'.header
          → Later
          → (elim b [
            | true ↦ elim parsed_all [
              | true ↦ ok response'
              | false ↦ parse_rounds fuel (b0 ∷ b1 ∷ bytes) 0 max_readable rest' response'
            ]
            | false ↦ ok response'
          ])
            ≡ ok r
          → OfId r.header
      by_valid false parsed_all rest' response' k later = same_header response' r k
      by_valid true true rest' response' k later = same_header response' r k
      by_valid true false rest' response' k later = later rest' response' k

      by_round :
          EndsIn HeaderOfId (parse_round (b0 ∷ b1 ∷ bytes) 0 max_readable rest response)
          → Later
          → (parse_round (b0 ∷ b1 ∷ bytes) 0 max_readable rest response >>= next) ≡ ok r
          → OfId r.header
      by_round (inl ((response', rest', parsed_all), e, k)) later =
          rw e (by_valid response'.valid parsed_all rest' response' k later)
      by_round (inr e) later = rw e (λ e'. absurd (apart e'))
        where
          apart : Outcome.err out_of_bounds ≢ ok r
          apart = λ e. cc

  -- The header of what is parsed has the id of the first two bytes.
  pub parse-id :
      (len : ℕ) (r : UdpResponse) (h : DnsHeader)
      → Response.parse (b0 ∷ b1 ∷ bytes) 0 len ≡ ok r
      → r.header ≡ some h
      → b1 < 256
      → h.id ≡ b0 * 256 + b1
  unfolding Response.parse
  parse-id len r h e e' small =
      subst OfId e' (by_len (ltb default_len len) e) ∙ word_of-bytes b0 b1 small
    where
      whole : UdpResponse → Outcome UdpResponse
      whole response = ok (record response { len = len })

      by_rounds :
          (m : Outcome UdpResponse)
          → ((response : UdpResponse) → m ≡ ok response → OfId response.header)
          → (m >>= whole) ≡ ok r
          → OfId r.header
      by_rounds (ok response) k = same_header (record response { len = len }) r (k response refl)
      by_rounds (err bad) k = λ e. absurd (apart e)
        where
          apart : Outcome.err bad ≢ ok r
          apart = λ e. cc

      by_len :
          (b : Bool)
          → (if b
              then (parse_rounds parse_fuel (b0 ∷ b1 ∷ bytes) 0 len len blank_response >>= whole)
              else ok (record blank_response { len = len; valid = false }))
            ≡ ok r
          → OfId r.header
      by_len true =
          by_rounds (parse_rounds parse_fuel (b0 ∷ b1 ∷ bytes) 0 len len blank_response)
            (λ response. rounds-OfId parse_fuel len len blank_response response tt)
      by_len false = same_header (record blank_response { len = len; valid = false }) r tt
