-- ===== src/Client/Tests.antt =====
-- The theorems on the client at concrete exchanges.
use st_dns.Base.{
  ℕ, ◌≡◌, ◌⊎◌, refl, ◌∙◌, List, [], ◌∷◌, true, false, ok, err, out_of_bounds, length, arith,
  replicate, drop,
}
use st_dns.Protocol.Tests.{host, host-IsHost, host-IsWritable}
use st_dns.Protocol.Response.{UdpResponse, limit_ips}
use st_dns.Protocol.Response
use st_dns.Protocol.Response.Ends.{response-Ends}
use st_dns.Protocol.Response.Build.{response_message}
use st_dns.Client.{
  Completion, udp_dns, tcp_dns, tcp_tls_dns, forward_udp, collect_tcp, collect_tls, is_member,
  set_emplace,
}
use st_dns.Client.Foreign.{Refused, exchanges-Refused}
use st_dns.Client.Once.{Single, is_dropped, exchanges-Single, forward_udp-Single}
use st_dns.Client.Exchange.{resolve, resolve-limit_ips}
use st_dns.Client.Collect.{
  SameCalls, IsOrder, is_member-set_emplace, is_in_some, all_answered, collect_tcp-once,
  collect_tls-collect_tcp,
}

-- A header that promises an answer that is not there.
abbrev cut_off : List ℕ
cut_off = 0 ∷ 7 ∷ 0x81 ∷ 0x80 ∷ 0 ∷ 1 ∷ 0 ∷ 1 ∷ 0 ∷ 0 ∷ 0 ∷ 0 ∷ 0xc0 ∷ []

response-Ends_example :
    ((response : UdpResponse) × (Response.parse cut_off 0 13 ≡ ok response))
    ⊎ (Response.parse cut_off 0 13 ≡ err out_of_bounds)
response-Ends_example = response-Ends cut_off 0 13

abbrev message : List ℕ
message = response_message 7 host 60 (3 ∷ [])

abbrev done : Completion
done = record { failed = false; cost = 20; size = 2; bytes = 0 ∷ 9 ∷ [] }

abbrev late : Completion
late = record { failed = false; cost = 120; size = 2; bytes = 0 ∷ 9 ∷ [] }

-- A response to the request 7 where one to the request 8 is waited for.
abbrev other_reply : Completion
other_reply = record { failed = false; cost = 20; size = length message; bytes = [] }

exchanges-Refused_example :
    let reply' = record other_reply { bytes = 0 ∷ 7 ∷ drop 2 message } in
    Refused (udp_dns 100 8 (done ∷ reply' ∷ []))
    × Refused (tcp_dns 100 8 (1 ∷ 2 ∷ []) (replicate 2048 0) (done ∷ done ∷ done ∷ reply' ∷ []))
    × Refused (
        tcp_tls_dns 100 8 (1 ∷ 2 ∷ []) (replicate 2048 0) (done ∷ done ∷ done ∷ done ∷ reply' ∷ []))
exchanges-Refused_example =
    exchanges-Refused 0 7 100 8 (drop 2 message) (1 ∷ 2 ∷ []) (replicate 2048 0) done done done done
      other_reply (omega arith) (λ e. absurd (omega (arith, e)))

exchanges-Single_example :
    Single (udp_dns 100 7 (done ∷ done ∷ done ∷ done ∷ late ∷ []))
    × Single (tcp_dns 100 7 (1 ∷ 2 ∷ []) (replicate 2048 0) (done ∷ done ∷ done ∷ done ∷ late ∷ []))
    × Single
        (tcp_tls_dns 100 7 (1 ∷ 2 ∷ []) (replicate 2048 0) (done ∷ done ∷ done ∷ done ∷ late ∷ []))
exchanges-Single_example =
    exchanges-Single 100 7 (1 ∷ 2 ∷ []) (replicate 2048 0) (done ∷ done ∷ done ∷ done ∷ late ∷ [])
      (omega arith)

abbrev without_byte : Completion
without_byte = record { failed = false; cost = 5; size = 0; bytes = [] }

forward_udp-Single_example :
    ((is_dropped 100 done without_byte ≡ true)
      × (forward_udp 100 (done ∷ without_byte ∷ []) ≡ ok []))
    ⊎ ((is_dropped 100 done without_byte ≡ false)
        × Single (forward_udp 100 (done ∷ without_byte ∷ [])))
forward_udp-Single_example = forward_udp-Single 100 done without_byte

resolve-limit_ips_example :
    resolve 100 7 60 5 30 host (11 ∷ 12 ∷ []) ≡ ok (limit_ips (11 ∷ 12 ∷ []) ∷ [])
resolve-limit_ips_example =
    resolve-limit_ips 100 7 60 5 30 host (11 ∷ 12 ∷ []) (omega arith) (omega arith) (omega arith)
      (omega arith) host-IsWritable host-IsHost (omega arith, (omega arith, tt)) (omega arith)

abbrev replies : List (List ℕ)
replies = (3 ∷ 4 ∷ []) ∷ [] ∷ (4 ∷ 5 ∷ []) ∷ []

collect_tcp-once_example :
    (result : List ℕ) × ((collect_tcp 3 replies ≡ (result, all_answered replies) ∷ [])
      × ((ip : ℕ) → is_member ip result ≡ is_in_some ip replies))
collect_tcp-once_example = collect_tcp-once 3 replies (omega arith) (omega arith) refl

-- An unordered set that passes its elements upwards.
abbrev upwards : List ℕ → List ℕ
upwards [] = []
upwards (ip ∷ ips) = set_emplace ip (upwards ips)

upwards-IsOrder : IsOrder upwards
unfolding is_member
upwards-IsOrder ip [] = refl
upwards-IsOrder ip (other ∷ ips) =
    is_member-set_emplace ip other (upwards ips) ∙ ground (arith, upwards-IsOrder ip ips)

collect_tls-collect_tcp_example : SameCalls (collect_tls upwards 3 replies) (collect_tcp 3 replies)
collect_tls-collect_tcp_example =
    collect_tls-collect_tcp upwards 3 replies upwards-IsOrder (omega arith) (omega arith)
