-- ===== src/Console/Tests.antt =====
-- The console at one address, with a trim and a parser of options that behave as boost's do.
use st_dns.Base.{
  ℕ, ◌≡◌, refl, sym, ap, ◌∙◌, List, [], ◌∷◌, ◌++◌, Bool, true, false, ◌&&◌, some, Outcome, ok, drop,
  replicate, length-replicate, if◌then◌else◌, arith,
}
use st_dns.Base.Text.{Text, codes, starts_with, find, is_empty}
use st_dns.Base.Assoc.{lookup}
use st_dns.Utils.AreaIp.{is_blank}
use st_dns.Utils.Ipv4.{digits}
use st_dns.Utils.Strings.{join, join_loop}
use st_dns.Kv.{get, not_expired}
use st_dns.Kv.Tests.{list_db, list_codec}
use st_dns.Records.Store.{ReverseMessage, Wire, Stores, reverse_resolve}
use st_dns.Records.StoreTests.{plain_wire}
use st_dns.Console.{Options, BoostFunctions, UdpConsole, receive}
use st_dns.Console.Boost.{IsBoost}
use st_dns.Console.Buffers.{find-NoZero}
use st_dns.Console.Client.{reverse_resolve_command, reverse_resolve_reply}
use st_dns.Console.Commands.{run_command}
use st_dns.Console.Remote.{reverse_resolve_reply-receive}

trim_front : Text → Text
trim_front [] = []
trim_front (ch ∷ text) = let rest = trim_front text in if is_blank ch then rest else ch ∷ text

trim_back : Text → Text
trim_back [] = []
trim_back (ch ∷ text) =
    let rest = trim_back text in if is_empty rest && is_blank ch then [] else ch ∷ rest

trim : Text → Text
trim text = trim_back (trim_front text)

trim_back-blank :
    (ch : ℕ) (text : Text) → is_blank ch ≡ true → trim_back (text ++ (ch ∷ [])) ≡ trim_back text
unfolding trim_back
trim_back-blank ch [] h = rw h refl
trim_back-blank ch (x ∷ text) h = rw (trim_back-blank ch text h) refl

trim-blank : (ch : ℕ) (text : Text) → is_blank ch ≡ true → trim (text ++ (ch ∷ [])) ≡ trim text
unfolding trim trim_front trim_back
trim-blank ch [] h = rw h refl
trim-blank ch (x ∷ text) h = by_first (is_blank x) (trim-blank ch text h)
  where
    by_first :
        (b : Bool)
        → trim_back (trim_front (text ++ (ch ∷ []))) ≡ trim_back (trim_front text)
        → trim_back (if b then trim_front (text ++ (ch ∷ [])) else x ∷ (text ++ (ch ∷ [])))
          ≡ trim_back (if b then trim_front text else x ∷ text)
    by_first true later = later
    by_first false later = trim_back-blank ch (x ∷ text) h

trim_back-kept :
    (last : ℕ) (front : Text)
    → is_blank last ≡ false
    → trim_back (front ++ (last ∷ [])) ≡ front ++ (last ∷ [])
unfolding trim_back
trim_back-kept last [] h = rw h refl
trim_back-kept last (x ∷ front) h = rw (trim_back-kept last front h) (some_last front)
  where
    some_last :
        (l : Text)
        → (if is_empty (l ++ (last ∷ [])) && is_blank x then [] else x ∷ (l ++ (last ∷ [])))
          ≡ x ∷ (l ++ (last ∷ []))
    some_last [] = refl
    some_last (y ∷ l) = refl

abbrev no_options : Options
no_options = record { domain = []; ip = [] }

abbrev boost : BoostFunctions
boost = record {
  trim = trim;
  parse_options = λ options. elim options [
    | [] ↦ ok no_options
    | option ∷ others ↦ ok (
        if starts_with (codes "--ip=") option
        then record no_options { ip = drop 5 option }
        else no_options)
  ];
}

boost-IsBoost : IsBoost boost
unfolding trim trim_front trim_back starts_with
boost-IsBoost = record {
  trim-nothing = refl;
  trim-front = λ ch text h. rw h refl;
  trim-back = trim-blank;
  trim-kept =
      λ first last text front h k e. rw h (ap trim_back e ∙ trim_back-kept last front k ∙ sym e);
  parse_ip = λ ch text. refl;
}

abbrev reverse_wire : Wire ReverseMessage
reverse_wire = record {
  serialize_message = λ m. m.ip ∷ [];
  parse_message = λ bytes. record { ip = 0; domains = bytes ∷ codes "b" ∷ [] };
}

abbrev console : UdpConsole (Stores (List (Text × Text)))
console = record {
  command_buffer = replicate 1024 0;
  response_buffer = replicate 10240 0;
  state = record { records = []; reverse = (codes "7", 0 ∷ codes "a.b") ∷ [] };
}

abbrev run :
    List Text
    → Options
    → Stores (List (Text × Text))
    → Outcome ((Bool × Text) × Stores (List (Text × Text)))
run =
    run_command list_db list_codec plain_wire reverse_wire (λ areas ip. false) (λ ip. [])
      (λ ips. ips) (λ text pattern. false) [] 1000

reverse_resolve_reply-receive_example :
    let (found, reverse) =
      reverse_resolve list_db list_codec reverse_wire 1000 console.state.reverse 7 in
    (sent : List ℕ) × (console' : UdpConsole (Stores (List (Text × Text)))) × ((receive boost run
          console
          (reverse_resolve_command 7)
        ≡ ok (sent, console'))
      × (reverse_resolve_reply boost.trim (some sent) ≡ ok found.domains)
      × (console'.state ≡ record (console.state) { reverse = reverse }))
unfolding reverse_resolve get not_expired lookup digits find join join_loop
reverse_resolve_reply-receive_example =
    reverse_resolve_reply-receive list_db list_codec plain_wire reverse_wire (λ areas ip. false)
      (λ ip. []) (λ ips. ips) (λ text pattern. false) [] 1000 boost boost-IsBoost console 7
      (omega arith) (length-replicate {A = ℕ} 1024 0) (length-replicate {A = ℕ} 10240 0)
      (
        record {
          item = record { some_ch = omega arith; not_found = refl };
          solid = (refl, (refl, (refl, tt)));
          no_zero = find-NoZero (codes "a.b") refl;
        },
        (
          record {
            item = record { some_ch = omega arith; not_found = refl };
            solid = (refl, tt);
            no_zero = find-NoZero (codes "b") refl;
          },
          tt,
        ),
      )
      (omega arith)
