-- ===== src/Console/Asked.antt =====
-- How the console reads the command that `reverse_resolve` of
-- src/common/main/command/dns_command.h sends: src/common/main/console/udp_console.cpp.
use st_dns.Base.{
  ℕ, ◌≤◌, ◌≡◌, ◌≢◌, refl, ap, inl, List, [], ◌∷◌, ◌++◌, false, ok, All, All-map, arith,
}
use st_dns.Base.Text.{Text, codes, find}
use st_dns.Utils.AreaIp.{is_blank}
use st_dns.Utils.Ipv4.Chars.{Plain, find_not-Plain}
use st_dns.Utils.Strings.{split}
use st_dns.Utils.Strings.Split.{glue}
use st_dns.Utils.Strings.Join.{IsItem, Items, split-Items}
use st_dns.Console.{BoostFunctions, sort_items, parse_command}
use st_dns.Console.Boost.{IsBoost, last_of, Solid, trim-Solid}
use st_dns.Console.Buffers.{NoZero}

Plain-Solid : (text : Text) → All Plain text → Solid text
Plain-Solid text h =
    All-map Plain (λ (ch : ℕ). is_blank ch ≡ false) text (λ ch k. not_blank ch k.0 k.1) h
  where
    not_blank : (ch : ℕ) → b'.' ≤ ch → ch ≤ b'9' → is_blank ch ≡ false
    not_blank ch low high = ground (arith, low, high)

pub Plain-NoZero : (text : Text) → All Plain text → NoZero text
Plain-NoZero text h = All-map Plain (λ (ch : ℕ). ch ≢ 0) text (λ ch k. not_zero ch k.0) h
  where
    not_zero : (ch : ℕ) → b'.' ≤ ch → ch ≢ 0
    not_zero ch low e = absurd (omega (arith, low, e))

module _ (boost : BoostFunctions) (laws : IsBoost boost) (ch : ℕ) (text : Text)
    (plain : All Plain (ch ∷ text)) where
  abbrev pub option : Text
  option = codes "--ip=" ++ (ch ∷ text)

  abbrev items : List Text
  items = codes "dns" ∷ codes "reverse" ∷ codes "resolve" ∷ option ∷ []

  abbrev pub command : Text
  command = codes "dns reverse resolve --ip=" ++ (ch ∷ text)

  option-IsItem : IsItem b' ' option
  unfolding find
  option-IsItem = record {
    some_ch = omega arith;
    not_found = rw (find_not-Plain b' ' (ch ∷ text) (inl (omega arith)) plain) refl;
  }

  items-glue : glue (b' ' ∷ []) items ≡ command
  unfolding glue
  items-glue = refl

  items-Items : Items b' ' items
  unfolding find
  items-Items = (
    record { some_ch = omega arith; not_found = refl },
    (
      record { some_ch = omega arith; not_found = refl },
      (record { some_ch = omega arith; not_found = refl }, (option-IsItem, tt)),
    ),
  )

  pub trim-command : boost.trim command ≡ command
  trim-command =
      let (front, last, (e, p)) = last_of Plain ch text plain in
      let not_blank : is_blank last ≡ false = ground (arith, p.0, p.1) in
      laws.trim-kept b'd' last (codes "ns reverse resolve --ip=" ++ (ch ∷ text))
        (codes "dns reverse resolve --ip=" ++ front) refl not_blank
        (ap (λ (t : Text). codes "dns reverse resolve --ip=" ++ t) e)

  pub parse_command-reverse :
      parse_command boost command
      ≡ ok (
        codes "dns" ∷ codes "reverse" ∷ codes "resolve" ∷ [],
        record { domain = []; ip = ch ∷ text },
      )
  unfolding parse_command sort_items glue
  parse_command-reverse =
      rw
        (
          splits,
          trim-Solid boost laws (codes "dns") (refl, (refl, (refl, tt))),
          trim-Solid boost laws (codes "reverse")
              (refl, (refl, (refl, (refl, (refl, (refl, (refl, tt))))))),
          trim-Solid boost laws (codes "resolve")
              (refl, (refl, (refl, (refl, (refl, (refl, (refl, tt))))))),
          trim-Solid boost laws option
              (refl, (refl, (refl, (refl, (refl, Plain-Solid (ch ∷ text) plain))))),
          laws.parse_ip ch text,
        )
        refl
    where
      splits : split command (b' ' ∷ []) 0 0 ≡ ok items
      splits = split-Items b' ' (codes "dns") _ items-Items
