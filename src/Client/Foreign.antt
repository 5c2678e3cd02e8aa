-- ===== src/Client/Foreign.antt =====
-- A reply that answers another request: the handlers of src/core/dns_client.cpp.
use st_dns.Base.{
  ℕ, ◌+◌, ◌*◌, ◌%◌, ◌^◌, ◌<◌, ◌≡◌, ◌≢◌, refl, sym, ap, ◌∙◌, inl, inr, List, [], ◌∷◌, false, not,
  ◌&&◌, Option, none, some, Outcome, ok, err, out_of_bounds, store, replicate, length, ltb, leb,
  ◌==◌, if◌then◌else◌, EndsIn, if-EndsIn, bind-EndsIn, EndsIn-bind, store-Ends, ne→==, subst,
}
use st_dns.Protocol.Header.{DnsHeader}
use st_dns.Protocol.Response.{UdpResponse}
use st_dns.Protocol.Response
use st_dns.Protocol.Response.Reads.{read-Ends}
use st_dns.Protocol.Response.Ends.{response-Ends}
use st_dns.Protocol.Response.Ids.{parse-id}
use st_dns.Client.{
  Completion, is_timeout_or_error, stage, parse_reply, udp_received, udp_dns, read_message,
  send_message, tcp_dns, tcp_tls_dns,
}

-- The handler is called once, without an address.
abbrev NoAddress : List (List ℕ) → Type 0
NoAddress calls = calls ≡ [] ∷ []

abbrev pub Refused : Outcome (List (List ℕ)) → Type 0
Refused m = EndsIn NoAddress m

nothing : Refused (ok ([] ∷ []))
nothing = inl ([] ∷ [], refl, refl)

stage-Refused :
    (timeout : ℕ) (c : Completion) (cs : List Completion)
    (handler : Completion → List Completion → Outcome (List (List ℕ)))
    → Refused (handler c cs)
    → Refused (stage timeout [] (c ∷ cs) handler)
unfolding stage
stage-Refused timeout c cs handler h =
    if-EndsIn NoAddress (is_timeout_or_error timeout c) (λ e. nothing) h

module _ (b0 b1 : ℕ) (bytes : List ℕ) (dns_id : ℕ) (small : b1 < 256)
    (foreign : b0 * 256 + b1 ≢ dns_id) where
  -- What is stored at the begin of a buffer is there.
  abbrev Begins : List ℕ → Type 0
  Begins buf = (rest : List ℕ) × (buf ≡ b0 ∷ b1 ∷ rest)

  store-Begins : (buf : List ℕ) → EndsIn Begins (store buf 0 (b0 ∷ b1 ∷ bytes))
  unfolding store
  store-Begins buf =
      if-EndsIn Begins (leb (0 + length (b0 ∷ b1 ∷ bytes)) (length buf))
        (λ e. inl (_, refl, (_, refl))) (inr refl)

  other_id :
      (buf : List ℕ) (len : ℕ) (r : UdpResponse) (h : DnsHeader)
      → Begins buf
      → Response.parse buf 0 len ≡ ok r
      → r.header ≡ some h
      → (h.id == dns_id) ≡ false
  other_id buf len r h (rest, e) p e' = ne→== h.id dns_id (λ same. foreign (sym id ∙ same))
    where
      id : h.id ≡ b0 * 256 + b1
      id =
          parse-id b0 b1 rest len r h
            (subst (λ (buf : List ℕ). Response.parse buf 0 len ≡ ok r) e p) e' small

  parsed :
      (buf : List ℕ) (len : ℕ)
      → EndsIn (λ (r : UdpResponse). Response.parse buf 0 len ≡ ok r) (Response.parse buf 0 len)
  parsed buf len = elim (response-Ends buf 0 len) [ inl (r, e) ↦ inl (r, e, e) | inr e ↦ inr e ]

  received-Refused :
      (c : Completion) → Refused (udp_received dns_id (record c { bytes = b0 ∷ b1 ∷ bytes }))
  unfolding udp_received
  received-Refused c = EndsIn-bind Begins NoAddress _ _ (store-Begins (replicate 1024 0)) (λ buf b.
      EndsIn-bind (λ (r : UdpResponse). Response.parse buf 0 c.size ≡ ok r) NoAddress _ _
        (parsed buf c.size)
        (λ r p. if-EndsIn NoAddress r.valid (λ v. by_header buf r r.header b p refl) nothing))
    where
      by_header :
          (buf : List ℕ) (r : UdpResponse) (o : Option DnsHeader)
          → Begins buf
          → Response.parse buf 0 c.size ≡ ok r
          → r.header ≡ o
          → Refused (elim o [
            | none ↦ err out_of_bounds
            | some h ↦ if h.id == dns_id then ok (r.ips ∷ []) else ok ([] ∷ [])
          ])
      by_header buf r none b p e = inr refl
      by_header buf r (some h) b p e = rw (other_id buf c.size r h b p e) nothing

  parse_reply_empty :
      (buf : List ℕ) (len : ℕ)
      → Begins buf
      → EndsIn (λ (ips : List ℕ). ips ≡ []) (parse_reply len buf dns_id)
  unfolding parse_reply
  parse_reply_empty buf len b =
      if-EndsIn Empty (ltb 0 len && leb len 1024)
        (λ e.
          EndsIn-bind (λ (r : UdpResponse). Response.parse buf 0 len ≡ ok r) Empty _ _
            (parsed buf len)
            (λ r p. if-EndsIn Empty r.valid (λ v. by_header r r.header p refl) none_found))
        none_found
    where
      Empty : List ℕ → Type 0
      Empty ips = ips ≡ []

      none_found : EndsIn Empty (ok [])
      none_found = inl ([], refl, refl)

      by_header :
          (r : UdpResponse) (o : Option DnsHeader)
          → Response.parse buf 0 len ≡ ok r
          → r.header ≡ o
          → EndsIn Empty (elim o [
            | none ↦ err out_of_bounds
            | some h ↦
                if not (h.id == dns_id)
                then ok []
                else if not (h.response_code == 0)
                then ok []
                else ok r.ips
          ])
      by_header r none p e = inr refl
      by_header r (some h) p e = rw (other_id buf len r h b p e) none_found

  send_message-Refused :
      (timeout : ℕ) (request block : List ℕ) (written sized body : Completion)
      → Refused (
          send_message timeout dns_id request block
            (written ∷ sized ∷ record body { bytes = b0 ∷ b1 ∷ bytes } ∷ []))
  unfolding send_message read_message
  send_message-Refused timeout request block written sized body =
      bind-EndsIn NoAddress _ _ (store-Ends block 0 request) (λ block'.
        stage-Refused timeout written _ _ (
          stage-Refused timeout sized _ _ (
            bind-EndsIn NoAddress _ _ (read-Ends 2 sized.bytes 0 0) (λ data_len.
              if-EndsIn NoAddress (ltb 1024 data_len) (λ e. nothing)
                (stage-Refused timeout (record body { bytes = b0 ∷ b1 ∷ bytes }) [] _
                  (EndsIn-bind Begins NoAddress _ _ (store-Begins block') (λ buf b.
                    EndsIn-bind (λ (ips : List ℕ). ips ≡ []) NoAddress _ _
                      (parse_reply_empty buf (body.size % 2 ^ 16) b)
                      (λ ips e. inl (_, refl, ap (λ (l : List ℕ). l ∷ []) e)))))))))

-- A reply whose first two bytes are not the id of the request brings no address, over UDP, TCP and
-- TLS: whatever else is in it, and however the operations complete, the complete handler is called
-- once, with an empty list, unless a read leaves its buffer.
pub exchanges-Refused :
    (b0 b1 timeout dns_id : ℕ) (bytes request block : List ℕ)
    → (first second third fourth reply : Completion) → b1 < 256
    → b0 * 256 + b1 ≢ dns_id
    → let reply' = record reply { bytes = b0 ∷ b1 ∷ bytes } in
      Refused (udp_dns timeout dns_id (first ∷ reply' ∷ []))
      × Refused (tcp_dns timeout dns_id request block (first ∷ second ∷ third ∷ reply' ∷ []))
      × Refused
          (tcp_tls_dns timeout dns_id request block (first ∷ second ∷ third ∷ fourth ∷ reply' ∷ []))
unfolding udp_dns tcp_dns tcp_tls_dns
exchanges-Refused b0 b1 timeout dns_id bytes request block first second third fourth reply small
      foreign =
    let reply' = record reply { bytes = b0 ∷ b1 ∷ bytes } in
    (
      stage-Refused timeout first _ _ (
          stage-Refused timeout reply' [] _
            (received-Refused b0 b1 bytes dns_id small foreign reply)),
      stage-Refused timeout first _ _ (
          send_message-Refused b0 b1 bytes dns_id small foreign timeout request block second third
            reply),
      stage-Refused timeout first _ _ (
          stage-Refused timeout second _ _ (
            send_message-Refused b0 b1 bytes dns_id small foreign timeout request block third fourth
              reply)),
    )
