-- ===== src/Protocol/Response/Ends.antt =====
-- `udp_response::parse` ends on every buffer.
use st_dns.Base.{
  ℕ, zero, suc, ◌+◌, ◌-◌, ◌≤◌, ◌<◌, ◌≡◌, refl, ◌⊎◌, inl, inr, List, [], ◌∷◌, ◌++◌, Bool, true,
  false, Option, none, some, ok, err, out_of_bounds, length, length-append, arith, ltb, ◌==◌,
  if◌then◌else◌, Ends, ok-Ends, if-Ends, elim-Ends_with, EndsIn, if-EndsIn, elim-EndsIn, EndsIn-map,
  bind-EndsIn, if-EndsIn, elim-EndsIn, EndsIn-map, bind-Ends, EndsIn-bind, if_either, ltb→lt,
  lt→ltb, le→ltb,
}
use st_dns.Protocol.Header.{DnsHeader, default_len}
use st_dns.Protocol.Domain.{sub64}
use st_dns.Protocol.Query.{DnsQueryZone}
use st_dns.Protocol.Resource.{DnsResourceZone}
use st_dns.Protocol.Response.{UdpResponse, parse_answers, parse_round, parse_rounds}
use st_dns.Protocol.Response
use st_dns.Protocol.Response.Reads.{header-Ends, zone-Ends, resource-Ends}

-- What the loop over the answers leaves: an invalid response, or one with all of them.
pub record Answered (old : UdpResponse) (left : ℕ) (result : UdpResponse × ℕ) : Type 0 where
  pub header : result.0.header ≡ old.header
  query_zone : result.0.query_zone ≡ old.query_zone
  answers :
      (result.0.valid ≡ false) ⊎ (length result.0.answer_zones ≡ length old.answer_zones + left)

pub answers-Ends :
    (left : ℕ) (buf : List ℕ) (base max_readable rest : ℕ) (response : UdpResponse)
    → EndsIn (Answered response left) (parse_answers left buf base max_readable rest response)
unfolding parse_answers
answers-Ends zero buf base max_readable rest response = inl (
  (response, rest),
  refl,
  record { header = refl; query_zone = refl; answers = inr (omega arith) },
)
answers-Ends (suc left) buf base max_readable rest response =
    bind-EndsIn (Answered response (suc left)) _ _ (resource-Ends buf base max_readable _) (λ a.
      elim-EndsIn (Answered response (suc left)) a.valid
        (EndsIn-map (Answered (grown a) left) (Answered response (suc left)) _ (λ r w. more a r w)
          (answers-Ends left buf base max_readable _ (grown a)))
        (inl (_, refl, record { header = refl; query_zone = refl; answers = inl refl })))
  where
    grown : DnsResourceZone → UdpResponse
    grown a = record response {
      answer_zones = response.answer_zones ++ (a ∷ []);
      ips = response.ips ++ a.ipv4s;
    }

    more :
        (a : DnsResourceZone) (r : UdpResponse × ℕ)
        → Answered (grown a) left r
        → Answered response (suc left) r
    more a r w = record {
      header = w.header;
      query_zone = w.query_zone;
      answers = elim w.answers [
        | inl e ↦ inl e
        | inr e ↦ inr (omega (arith, e, length-append response.answer_zones (a ∷ [])))
      ];
    }

-- How many rounds the loop of `parse` still takes at most.
abbrev rounds_left : UdpResponse → ℕ
rounds_left response = elim response.header [
  | none ↦ 4
  | some h ↦ elim response.query_zone [
    | none ↦ 3
    | some zone ↦ if ltb (length response.answer_zones) h.answer_count then 2 else 1
  ]
]

record Advanced (old : UdpResponse) (result : UdpResponse × ℕ × Bool) : Type 0 where
  progress :
      (result.0.valid ≡ false) ⊎ ((result.2 ≡ true) ⊎ (rounds_left result.0 < rounds_left old))

module _ (buf : List ℕ) (base max_readable rest : ℕ) (answers : List DnsResourceZone) (ips : List ℕ)
    (len : ℕ) (valid : Bool) where
  abbrev state : Option DnsHeader → Option DnsQueryZone → UdpResponse
  state header zone = record {
    header = header;
    query_zone = zone;
    answer_zones = answers;
    ips = ips;
    len = len;
    valid = valid;
  }

  state-Ends :
      (header : Option DnsHeader) (zone : Option DnsQueryZone)
      → EndsIn
          (Advanced (state header zone))
          (parse_round buf base max_readable rest (state header zone))
  unfolding parse_round
  state-Ends none zone =
      bind-EndsIn (Advanced (state none zone)) _ _ (header-Ends buf base rest)
        (λ o. inl (_, refl, record { progress = read o }))
    where
      read :
          (o : Option DnsHeader)
          → let r : UdpResponse × ℕ × Bool = elim o [
            | none ↦ (record (state none zone) { valid = false }, rest, false)
            | some h ↦ (state (some h) zone, sub64 rest default_len, false)
          ] in
            (r.0.valid ≡ false) ⊎ ((r.2 ≡ true) ⊎ (rounds_left r.0 < 4))
      read none = inl refl
      read (some h) = inr (inr (fewer zone))
        where
          fewer : (zone : Option DnsQueryZone) → rounds_left (state (some h) zone) < 4
          fewer none = omega arith
          fewer (some z) = ground arith
  state-Ends (some h) none =
      if-EndsIn (Advanced (state (some h) none)) (h.response_code == 0)
        (λ e. bind-EndsIn (Advanced (state (some h) none)) _ _ (zone-Ends buf _ rest _) (λ z. inl (
          _,
          refl,
          if_either (Advanced (state (some h) none)) z.valid
              (λ v. record { progress = inr (inr (ground arith)) })
              (λ v. record { progress = inl refl }),
        )))
        (inl (_, refl, record { progress = inr (inl refl) }))
  state-Ends (some h) (some z) =
      if-EndsIn (Advanced (state (some h) (some z))) (h.response_code == 0)
        (λ e.
          if-EndsIn (Advanced (state (some h) (some z))) (ltb (length answers) h.answer_count)
            (λ e'.
              EndsIn-bind (Answered (state (some h) (some z)) (h.answer_count - length answers))
                (Advanced (state (some h) (some z))) _ _
                (answers-Ends (h.answer_count - length answers) buf base max_readable rest
                  (state (some h) (some z)))
                (λ r w. inl (
                  _,
                  refl,
                  record { progress = all_read r w (ltb→lt (length answers) h.answer_count e') },
                )))
            (inl (_, refl, record { progress = inr (inl refl) })))
        (inl (_, refl, record { progress = inr (inl refl) }))
    where
      all_read :
          (r : UdpResponse × ℕ)
          → Answered (state (some h) (some z)) (h.answer_count - length answers) r
          → length answers < h.answer_count
          → (r.0.valid ≡ false)
            ⊎ ((false ≡ true) ⊎ (rounds_left r.0 < rounds_left (state (some h) (some z))))
      all_read r w few = elim w.answers [
        | inl e ↦ inl e
        | inr e ↦ inr (
            inr (
              rw
                (
                  w.header,
                  w.query_zone,
                  lt→ltb (length answers) h.answer_count few,
                  le→ltb (length r.0.answer_zones) h.answer_count (omega (arith, e, few)),
                )
                (omega arith)))
      ]

round-Ends :
    (buf : List ℕ) (base max_readable rest : ℕ) (response : UdpResponse)
    → EndsIn (Advanced response) (parse_round buf base max_readable rest response)
round-Ends buf base max_readable rest response =
    state-Ends buf base max_readable rest response.answer_zones response.ips response.len
      response.valid response.header response.query_zone

rounds_left_pos : (response : UdpResponse) → 0 < rounds_left response
rounds_left_pos response = ground arith

rounds-Ends :
    (fuel : ℕ) (buf : List ℕ) (base max_readable rest : ℕ) (response : UdpResponse)
    → rounds_left response ≤ fuel
    → Ends (parse_rounds fuel buf base max_readable rest response)
unfolding parse_rounds
rounds-Ends zero buf base max_readable rest response h =
    absurd (omega (arith, rounds_left_pos response))
rounds-Ends (suc fuel) buf base max_readable rest response h =
    elim (round-Ends buf base max_readable rest response) [
      | inr e ↦ inr (rw e refl)
      | inl (r, e, w) ↦ rw e (
          elim-Ends_with r.0.valid
            (λ v.
              elim-Ends_with r.2 (λ a. ok-Ends _)
                (λ a. rounds-Ends fuel buf base max_readable r.1 r.0 (fewer r w.progress v a)))
            (λ v. ok-Ends _))
    ]
  where
    fewer :
        (r : UdpResponse × ℕ × Bool)
        → (r.0.valid ≡ false) ⊎ ((r.2 ≡ true) ⊎ (rounds_left r.0 < rounds_left response))
        → r.0.valid ≡ true
        → r.2 ≡ false
        → rounds_left r.0 ≤ fuel
    fewer r (inl v') v a = absurd (clash v' v)
      where
        clash : r.0.valid ≡ false → r.0.valid ≡ true → ⊥
        clash x y = cc
    fewer r (inr (inl a')) v a = absurd (clash a' a)
      where
        clash : r.2 ≡ true → r.2 ≡ false → ⊥
        clash x y = cc
    fewer r (inr (inr l)) v a = omega (arith, h, l)

-- On every buffer, pointer loops included, the parsing of a response ends with a response, valid
-- or not, or with a read outside of the buffer: its four rounds are enough.
pub response-Ends :
    (buf : List ℕ) (base max_readable : ℕ)
    → ((response : UdpResponse) × (Response.parse buf base max_readable ≡ ok response))
      ⊎ (Response.parse buf base max_readable ≡ err out_of_bounds)
unfolding Response.parse
response-Ends buf base max_readable =
    if-Ends _
      (bind-Ends _ _ (rounds-Ends 4 buf base max_readable max_readable _ (omega arith))
        (λ r. ok-Ends _))
      (ok-Ends _)
