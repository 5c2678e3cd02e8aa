-- ===== src/Console/Remote.antt =====
-- `dns reverse resolve` from the client to the stores and back: src/common/main/command/dns_command.h,
-- src/common/main/console and src/core/console_manager.cpp.
use st_dns.Base.{
  ℕ, ◌^◌, ◌≤◌, ◌<◌, ◌≡◌, ◌≢◌, refl, sym, ap, ◌∙◌, List, [], ◌∷◌, ◌++◌, Bool, true, false, some,
  Outcome, ok, drop, length, length-append, subst, All, All-append, All-map, arith,
}
use st_dns.Base.Text.{Text, codes, find}
use st_dns.Utils.AreaIp.{is_blank}
use st_dns.Utils.Ipv4.{ip_to_str, str_to_ip}
use st_dns.Utils.Ipv4.RoundTrip.{str_to_ip-ip_to_str}
use st_dns.Utils.Ipv4.Chars.{Plain, ip_to_str-Plain, length-ip_to_str, ip_to_str_nonempty}
use st_dns.Utils.Strings.{join, join_loop}
use st_dns.Utils.Strings.Join.{IsItem, split-join}
use st_dns.Config.{RemoteDnsServer}
use st_dns.Kv.{Db, Codec}
use st_dns.Records.Store.{RecordsMessage, ReverseMessage, Wire, Stores, reverse_resolve}
use st_dns.Console.{Options, BoostFunctions, UdpConsole, response_text, receive}
use st_dns.Console.Asked.{Plain-NoZero, parse_command-reverse, trim-command}
use st_dns.Console.Answered.{IsListed, AllListed, join-All, read_reply_success}
use st_dns.Console.Boost.{IsBoost, Solid}
use st_dns.Console.Buffers.{NoZero, find-NoZero, read_command_fits, send_response_fits}
use st_dns.Console.Client.{reverse_resolve_command, reverse_resolve_reply}
use st_dns.Console.Commands.{run_command}

module _ {ℓ} {S : Type ℓ} (db : Db S) (codec : Codec) (wire : Wire RecordsMessage)
    (reverse_wire : Wire ReverseMessage) (is_area_ip : List Text → ℕ → Bool) (get_area : ℕ → Text)
    (shuffle : List ℕ → List ℕ) (regex_match : Text → Text → Bool) (servers : List RemoteDnsServer)
    (now : ℕ) where
  abbrev run : List Text → Options → Stores S → Outcome ((Bool × Text) × Stores S)
  run = run_command db codec wire reverse_wire is_area_ip get_area shuffle regex_match servers now

  run_command-reverse :
      (ch : ℕ) (text : Text) (ip : ℕ) (stores : Stores S)
      → str_to_ip (ch ∷ text) ≡ ok ip
      → run
          (codes "dns" ∷ codes "reverse" ∷ codes "resolve" ∷ [])
          (record { domain = []; ip = ch ∷ text })
          stores
        ≡ (let (found, reverse) = reverse_resolve db codec reverse_wire now stores.reverse ip in
            ok ((true, join found.domains (codes ",")), record stores { reverse = reverse }))
  unfolding run_command join join_loop
  run_command-reverse ch text ip stores e = rw e refl

  module _ (boost : BoostFunctions) (laws : IsBoost boost) where
    receive-reverse :
        (console : UdpConsole (Stores S)) (ip : ℕ) (ch : ℕ) (text : Text)
        → ip_to_str ip ≡ ch ∷ text
        → ip < 2 ^ 32
        → length console.command_buffer ≡ 1024
        → length console.response_buffer ≡ 10240
        → let (found, reverse) =
            reverse_resolve db codec reverse_wire now console.state.reverse ip in
          let result = join found.domains (codes ",") in
          length result ≤ 10229
          → (console' : UdpConsole (Stores S)) × ((receive boost run console
                  (reverse_resolve_command ip)
                ≡ ok (response_text (true, result), console'))
              × (console'.state ≡ record (console.state) { reverse = reverse }))
    unfolding receive reverse_resolve_command find
    receive-reverse console ip ch text e small room room' fits =
        let (found, reverse) = reverse_resolve db codec reverse_wire now console.state.reverse ip in
        let result = join found.domains (codes ",") in
        (
          record {
            command_buffer = bytes ++ (0 ∷ drop 1 (drop (length bytes) console.command_buffer));
            response_buffer =
                response_text (true, result)
                ++ drop (length (response_text (true, result))) console.response_buffer;
            state = record (console.state) { reverse = reverse };
          },
          (
            rw
                (
                  e,
                  read_command_fits boost.trim console.command_buffer bytes no_zero short,
                  trim-command boost laws ch text plain,
                  parse_command-reverse boost laws ch text plain,
                  run_command-reverse ch text ip console.state read_back,
                  send_response_fits console.response_buffer (response_text (true, result))
                      (omega (arith, fits, room', length-append result (b'\n' ∷ []))),
                )
                refl,
            refl,
          ),
        )
      where
        bytes : Text
        bytes = codes "dns reverse resolve --ip=" ++ (ch ∷ text)

        plain : All Plain (ch ∷ text)
        plain = subst (All Plain) e (ip_to_str-Plain ip)

        read_back : str_to_ip (ch ∷ text) ≡ ok ip
        read_back = ap str_to_ip (sym e) ∙ str_to_ip-ip_to_str ip small

        short : length bytes < length console.command_buffer
        short = omega (arith, room, length-ip_to_str ip, ap length e)

        no_zero : NoZero bytes
        no_zero =
            All-append (λ (ch : ℕ). ch ≢ 0) (codes "dns reverse resolve --ip=") (ch ∷ text)
              (find-NoZero (codes "dns reverse resolve --ip=") refl)
              (Plain-NoZero (ch ∷ text) plain)

    -- reverse_resolve of the client gives for an address of 32 bits the very names that the
    -- reverse store holds for it, through the command's text, the console's buffers and parsing,
    -- the look-up, the response and its reading; the stores are as the look-up leaves them. The
    -- buffers have their sizes, the names have characters, but no comma, blank or 0, and are at
    -- most 10229 characters when joined; trim and the parser of options behave as documented.
    pub reverse_resolve_reply-receive :
        (console : UdpConsole (Stores S)) (ip : ℕ)
        → ip < 2 ^ 32
        → length console.command_buffer ≡ 1024
        → length console.response_buffer ≡ 10240
        → let (found, reverse) =
            reverse_resolve db codec reverse_wire now console.state.reverse ip in
          AllListed found.domains
          → length (join found.domains (codes ",")) ≤ 10229
          → (sent : List ℕ) × (console' : UdpConsole (Stores S)) × ((receive boost
                  (run_command db codec wire reverse_wire is_area_ip get_area shuffle regex_match
                    servers now)
                  console
                  (reverse_resolve_command ip)
                ≡ ok (sent, console'))
              × (reverse_resolve_reply boost.trim (some sent) ≡ ok found.domains)
              × (console'.state ≡ record (console.state) { reverse = reverse }))
    unfolding reverse_resolve_reply find
    reverse_resolve_reply-receive console ip small room room' listed fits =
        by_text (ip_to_str ip) refl (ip_to_str_nonempty ip)
      where
        domains : List Text
        domains = (reverse_resolve db codec reverse_wire now console.state.reverse ip).0.domains

        result : Text
        result = join domains (codes ",")

        read : reverse_resolve_reply boost.trim (some (response_text (true, result))) ≡ ok domains
        read =
            rw
              (read_reply_success boost laws result
                (join-All (λ (ch : ℕ). is_blank ch ≡ false) domains listed refl
                  (All-map IsListed Solid domains (λ d k. k.solid) listed))
                (join-All (λ (ch : ℕ). ch ≢ 0) domains listed (find-NoZero (b',' ∷ []) refl).0
                  (All-map IsListed NoZero domains (λ d k. k.no_zero) listed))
                fits)
              (split-join b',' domains
                (All-map IsListed (IsItem b',') domains (λ d k. k.item) listed))

        reverse : S
        reverse = (reverse_resolve db codec reverse_wire now console.state.reverse ip).1

        Goal : Type ℓ
        Goal =
            (sent : List ℕ) × (console' : UdpConsole (Stores S)) × ((receive boost run console
                  (reverse_resolve_command ip)
                ≡ ok (sent, console'))
              × (reverse_resolve_reply boost.trim (some sent) ≡ ok domains)
              × (console'.state ≡ record (console.state) { reverse = reverse }))

        by_text : (text : Text) → ip_to_str ip ≡ text → 0 < length text → Goal
        by_text [] e k = absurd (omega (arith, k))
        by_text (ch ∷ text) e k =
            let (console', (done, state)) =
              receive-reverse console ip ch text e small room room' fits in
            (response_text (true, result), console', (done, read, state))
