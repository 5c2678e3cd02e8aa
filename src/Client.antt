-- ===== src/Client.antt =====
-- The exchanges with remote servers: src/core/dns_client.cpp. Sockets and timers are boost's; what is
-- modelled is what the handlers do with the completions that boost reports.
pub mod Reply
pub mod Foreign
pub mod Once
pub mod Exchange
pub mod Collect
mod Tests
use st_dns.Base.{
  ℕ, ◌+◌, ◌-◌, ◌*◌, ◌%◌, ◌^◌, List, [], ◌∷◌, ◌++◌, Bool, true, false, not, ◌&&◌, Option, none, some,
  Outcome, ok, err, out_of_bounds, ◌>>=◌, store, ltb, leb, ◌==◌, if◌then◌else◌, replicate, take,
  length,
}
use st_dns.Utils.Bytes.{read}
use st_dns.Protocol.Header.{DnsHeader}
use st_dns.Protocol.Request.{UdpRequest}
use st_dns.Protocol.Response.{UdpResponse}
use st_dns.Protocol.Response

-- What a handler is called with: whether there is an error, the time since the exchange began, the
-- bytes transferred and their number.
pub record Completion : Type 0 where
  pub failed : Bool
  pub cost : ℕ
  pub size : ℕ
  pub bytes : List ℕ

-- `is_timeout_or_error`
unfoldable pub is_timeout_or_error : ℕ → Completion → Bool
is_timeout_or_error timeout c = not (not c.failed && leb c.cost timeout)

-- A handler that begins with `is_timeout_or_error`: an error is handed on as `default`, and else the
-- handler goes on. The result is the list of the calls of the complete handler. Without a completion
-- nothing has happened yet.
unfoldable pub stage {ℓ} :
    {A : Type ℓ}
    → ℕ
    → A
    → List Completion
    → (Completion → List Completion → Outcome (List A))
    → Outcome (List A)
stage timeout default [] handler = ok []
stage timeout default (c ∷ cs) handler =
    if is_timeout_or_error timeout c then ok (default ∷ []) else handler c cs

-- `dns_client::parse(length, …, data_bytes, dns_id)`. A null header cannot be read.
unfoldable pub parse_reply : ℕ → List ℕ → ℕ → Outcome (List ℕ)
parse_reply length buf dns_id =
    if ltb 0 length && leb length 1024
    then (do
      response ← Response.parse buf 0 length
      if response.valid
          then (elim response.header [
            | none ↦ err out_of_bounds
            | some h ↦
                if not (h.id == dns_id)
                then ok []
                else if not (h.response_code == 0)
                then ok []
                else ok response.ips
          ])
          else ok [])
    else ok []

-- The handlers of `udp_dns` behind the sending of the request with the id `qid`.
unfoldable pub udp_received : ℕ → Completion → Outcome (List (List ℕ))
udp_received qid c = do
  buf ← store (replicate 1024 0) 0 c.bytes
  response ← Response.parse buf 0 c.size
  if response.valid
      then (elim response.header [
        | none ↦ err out_of_bounds
        | some h ↦ if h.id == qid then ok (response.ips ∷ []) else ok ([] ∷ [])
      ])
      else ok ([] ∷ [])

-- `udp_dns`: the completions of the sending and of the receiving.
unfoldable pub udp_dns : ℕ → ℕ → List Completion → Outcome (List (List ℕ))
udp_dns timeout qid cs =
    stage timeout [] cs
      (λ sent cs'. stage timeout [] cs' (λ received cs''. udp_received qid received))

-- The reading of a reply behind its length, into the block that held the request.
unfoldable pub read_message : ℕ → ℕ → List ℕ → List Completion → Outcome (List (List ℕ))
read_message timeout dns_id block cs = stage timeout [] cs (λ read_length cs'.
    read read_length.bytes 2 0 0 >>= λ data_len.
    if ltb 1024 data_len
    then ok ([] ∷ [])
    else stage timeout [] cs' (λ read_data cs''. store block 0 read_data.bytes >>= λ buf.
        parse_reply (read_data.size % 2 ^ 16) buf dns_id >>= λ ips. ok (ips ∷ [])))

-- The handlers behind a connection: the request is copied to the block and written.
unfoldable pub send_message : ℕ → ℕ → List ℕ → List ℕ → List Completion → Outcome (List (List ℕ))
send_message timeout dns_id request block cs = store block 0 request >>= λ block'.
    stage timeout [] cs (λ written cs'. read_message timeout dns_id block' cs')

-- `tcp_dns` to one area, with the bytes of the request and the block of 2048 bytes: the completions of
-- the connection, the writing, and the two readings.
unfoldable pub tcp_dns : ℕ → ℕ → List ℕ → List ℕ → List Completion → Outcome (List (List ℕ))
tcp_dns timeout dns_id request block cs =
    stage timeout [] cs (λ connected cs'. send_message timeout dns_id request block cs')

-- `tcp_tls_dns` to one area, with a handshake behind the connection.
unfoldable pub tcp_tls_dns : ℕ → ℕ → List ℕ → List ℕ → List Completion → Outcome (List (List ℕ))
tcp_tls_dns timeout dns_id request block cs = stage timeout [] cs (λ connected cs'.
    stage timeout [] cs' (λ shaken cs''. send_message timeout dns_id request block cs''))

-- A response that `forward_udp` passes on without parsing it: its buffer and its length.
pub record Forwarded : Type 0 where
  pub buf : List ℕ
  pub len : ℕ

-- `forward_udp`: `none` is the null pointer. A datagram without a byte is dropped.
unfoldable pub forward_udp : ℕ → List Completion → Outcome (List (Option Forwarded))
forward_udp timeout cs = stage timeout none cs (λ sent cs'. stage timeout none cs' (λ received cs''.
    if ltb 0 received.size
    then (do
      buf ← store (replicate 1024 0) 0 received.bytes
      ok (some (record { buf = buf; len = received.size }) ∷ []))
    else ok []))

-- The port that a request for an area goes to.
abbrev pub area_port : ℕ → ℕ → ℕ
area_port port area = if ltb 0 area then area else port

-- What the handlers of several areas share.
pub record Gathered : Type 0 where
  pub counter : ℕ
  pub load_all : Bool
  pub result : List ℕ

abbrev pub none_gathered : Gathered
none_gathered = record { counter = 0; load_all = true; result = [] }

unfoldable pub is_member : ℕ → List ℕ → Bool
is_member ip [] = false
is_member ip (other ∷ ips) = let rest = is_member ip ips in if other == ip then true else rest

-- `emplace` of a `std::set`, whose iterator goes upwards.
unfoldable pub set_emplace : ℕ → List ℕ → List ℕ
set_emplace ip [] = ip ∷ []
set_emplace ip (other ∷ ips) =
    let rest = set_emplace ip ips in
    if ltb ip other then ip ∷ other ∷ ips else if other == ip then other ∷ ips else other ∷ rest

-- `emplace` of a `std::unordered_set`, kept as its elements, the last one that was put in first.
unfoldable pub unordered_emplace : ℕ → List ℕ → List ℕ
unordered_emplace ip ips = if is_member ip ips then ips else ip ∷ ips

-- `result->emplace(ip)` for each address.
unfoldable pub emplace_all : (ℕ → List ℕ → List ℕ) → List ℕ → List ℕ → List ℕ
emplace_all emplace [] result = result
emplace_all emplace (ip ∷ ips) result = emplace_all emplace ips (emplace ip result)

-- The body of the handler that all areas share, without the test of the counter.
unfoldable pub gather_reply : (ℕ → List ℕ → List ℕ) → List ℕ → Gathered → Gathered
gather_reply emplace ips g = record {
  counter = (g.counter + 1) % 2 ^ 16;
  load_all = if length ips == 0 then false else g.load_all;
  result = emplace_all emplace ips g.result;
}

-- The replies of `count` areas in the order in which they come: the calls of the complete handler, for
-- `tcp_dns`, which tests the counter for equality, and for `tcp_tls_dns`, which tests `>=`. The order
-- in which an unordered set passes its elements is the library's: `hash_order` gives it.
unfoldable pub gather_tcp : ℕ → List (List ℕ) → Gathered → List (List ℕ × Bool)
gather_tcp count [] g = []
gather_tcp count (ips ∷ replies) g =
    let g' = gather_reply set_emplace ips g in
    let rest = gather_tcp count replies g' in
    if g'.counter == count then (g'.result, g'.load_all) ∷ rest else rest

unfoldable pub gather_tls : (List ℕ → List ℕ) → ℕ → List (List ℕ) → Gathered → List (List ℕ × Bool)
gather_tls hash_order count [] g = []
gather_tls hash_order count (ips ∷ replies) g =
    let g' = gather_reply unordered_emplace ips g in
    let rest = gather_tls hash_order count replies g' in
    if leb count g'.counter then (hash_order g'.result, g'.load_all) ∷ rest else rest

-- Without areas, or with one, the reply is handed on.
unfoldable pub collect_tcp : ℕ → List (List ℕ) → List (List ℕ × Bool)
collect_tcp count replies =
    if leb count 1
    then (elim replies [ [] ↦ [] | ips ∷ others ↦ (ips, true) ∷ [] ])
    else gather_tcp count replies none_gathered

unfoldable pub collect_tls : (List ℕ → List ℕ) → ℕ → List (List ℕ) → List (List ℕ × Bool)
collect_tls hash_order count replies =
    if leb count 1
    then (elim replies [ [] ↦ [] | ips ∷ others ↦ (ips, true) ∷ [] ])
    else gather_tls hash_order count replies none_gathered
