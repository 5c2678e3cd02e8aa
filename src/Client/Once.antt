-- ===== src/Client/Once.antt =====
-- How often the complete handler of an exchange is called.
use st_dns.Base.{
  ℕ, suc, ◌%◌, ◌^◌, ◌≤◌, ◌≡◌, ◌⊎◌, refl, inl, inr, List, [], ◌∷◌, Bool, true, false, not, ◌&&◌,
  Bool-cases, Option, none, some, Outcome, ok, err, out_of_bounds, replicate, ltb, ◌==◌,
  if◌then◌else◌, arith, length, EndsIn, if-EndsIn, bind-EndsIn, store-Ends,
}
use st_dns.Protocol.Header.{DnsHeader}
use st_dns.Protocol.Response.{UdpResponse}
use st_dns.Protocol.Response.Reads.{read-Ends}
use st_dns.Protocol.Response.Ends.{response-Ends}
use st_dns.Client.{
  Completion, is_timeout_or_error, stage, udp_received, udp_dns, read_message, send_message,
  tcp_dns, tcp_tls_dns, forward_udp,
}
use st_dns.Client.Reply.{parse_reply-Ends}

-- One call, or a read outside of a buffer.
abbrev pub Single {ℓ} : {A : Type ℓ} → Outcome (List A) → Type ℓ
Single {A = A} m = EndsIn (λ (calls : List A). (a : A) × (calls ≡ a ∷ [])) m

abbrev One {ℓ} : {A : Type ℓ} → List A → Type ℓ
One {A = A} calls = (a : A) × (calls ≡ a ∷ [])

module _ {ℓ} {A : Type ℓ} where
  ok-Single : (a : A) → Single (ok (a ∷ []))
  ok-Single a = inl (a ∷ [], refl, (a, refl))

  stage-Single :
      (timeout : ℕ) (default : A) (n : ℕ) (cs : List Completion)
      (handler : Completion → List Completion → Outcome (List A))
      → suc n ≤ length cs
      → ((c : Completion) (cs' : List Completion) → n ≤ length cs' → Single (handler c cs'))
      → Single (stage timeout default cs handler)
  unfolding stage
  stage-Single timeout default n [] handler h f = absurd (omega arith)
  stage-Single timeout default n (c ∷ cs) handler h f =
      if-EndsIn One (is_timeout_or_error timeout c) (λ e. ok-Single default) (f c cs (omega arith))

received-Single : (qid : ℕ) (c : Completion) → Single (udp_received qid c)
unfolding udp_received
received-Single qid c = bind-EndsIn One _ _ (store-Ends (replicate 1024 0) 0 c.bytes) (λ buf.
    bind-EndsIn One _ _ (response-Ends buf 0 c.size)
      (λ r. if-EndsIn One r.valid (λ v. by_header r r.header) (ok-Single [])))
  where
    by_header :
        (r : UdpResponse) (o : Option DnsHeader)
        → Single (elim o [
          | none ↦ err out_of_bounds
          | some h ↦ if h.id == qid then ok (r.ips ∷ []) else ok ([] ∷ [])
        ])
    by_header r none = inr refl
    by_header r (some h) = if-EndsIn One (h.id == qid) (λ e. ok-Single r.ips) (ok-Single [])

read_message-Single :
    (timeout dns_id : ℕ) (block : List ℕ) (cs : List Completion)
    → 2 ≤ length cs
    → Single (read_message timeout dns_id block cs)
unfolding read_message
read_message-Single timeout dns_id block cs h = stage-Single timeout [] 1 cs _ h (λ c cs' h'.
    bind-EndsIn One _ _ (read-Ends 2 c.bytes 0 0) (λ data_len.
      if-EndsIn One (ltb 1024 data_len) (λ e. ok-Single [])
        (stage-Single timeout [] 0 cs' _ h' (λ c' cs'' h''.
          bind-EndsIn One _ _ (store-Ends block 0 c'.bytes) (λ buf.
            bind-EndsIn One _ _ (parse_reply-Ends (c'.size % 2 ^ 16) buf dns_id)
              (λ ips. ok-Single ips))))))

send_message-Single :
    (timeout dns_id : ℕ) (request block : List ℕ) (cs : List Completion)
    → 3 ≤ length cs
    → Single (send_message timeout dns_id request block cs)
unfolding send_message
send_message-Single timeout dns_id request block cs h =
    bind-EndsIn One _ _ (store-Ends block 0 request) (λ block'.
      stage-Single timeout [] 2 cs _ h
        (λ c cs' h'. read_message-Single timeout dns_id block' cs' h'))

-- Once five operations of an exchange have completed, with errors, late or with any bytes, the
-- complete handler has been called just once, over UDP, TCP and TLS, unless a read left its
-- buffer.
pub exchanges-Single :
    (timeout dns_id : ℕ) (request block : List ℕ) (cs : List Completion)
    → 5 ≤ length cs
    → Single (udp_dns timeout dns_id cs)
      × Single (tcp_dns timeout dns_id request block cs)
      × Single (tcp_tls_dns timeout dns_id request block cs)
unfolding udp_dns tcp_dns tcp_tls_dns
exchanges-Single timeout dns_id request block cs h = (
  stage-Single timeout [] 1 cs _ (omega arith)
      (λ c cs' h'. stage-Single timeout [] 0 cs' _ h' (λ c' cs'' h''. received-Single dns_id c')),
  stage-Single timeout [] 3 cs _ (omega arith)
      (λ c cs' h'. send_message-Single timeout dns_id request block cs' h'),
  stage-Single timeout [] 4 cs _ h (λ c cs' h'.
      stage-Single timeout [] 3 cs' _ h'
        (λ c' cs'' h''. send_message-Single timeout dns_id request block cs'' h'')),
)

-- Sent and received in time, without a byte.
abbrev pub is_dropped : ℕ → Completion → Completion → Bool
is_dropped timeout sent received =
    not (is_timeout_or_error timeout sent)
    && not (is_timeout_or_error timeout received)
    && not (ltb 0 received.size)

-- If the sending and the receiving succeed in time and the datagram has no byte, forward_udp does
-- not call its handler; however else they complete, with errors, late or with any bytes, it calls
-- it just once, unless a datagram leaves the buffer.
pub forward_udp-Single :
    (timeout : ℕ) (sent received : Completion)
    → ((is_dropped timeout sent received ≡ true)
        × (forward_udp timeout (sent ∷ received ∷ []) ≡ ok []))
      ⊎ ((is_dropped timeout sent received ≡ false)
          × Single (forward_udp timeout (sent ∷ received ∷ [])))
unfolding forward_udp stage
forward_udp-Single timeout sent received = elim (Bool-cases (is_timeout_or_error timeout sent)) [
  | inl e ↦ rw e (inr (refl, ok-Single none))
  | inr e ↦ elim (Bool-cases (is_timeout_or_error timeout received)) [
    | inl e' ↦ rw (e, e') (inr (refl, ok-Single none))
    | inr e' ↦ elim (Bool-cases (ltb 0 received.size)) [
      | inl e2 ↦
          rw (e, e', e2)
            (inr (
              refl,
              bind-EndsIn One _ _ (store-Ends (replicate 1024 0) 0 received.bytes)
                  (λ buf. ok-Single _),
            ))
      | inr e2 ↦ rw (e, e', e2) (inl (refl, refl))
    ]
  ]
]
