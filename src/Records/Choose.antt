-- ===== src/Records/Choose.antt =====
-- Which addresses are chosen.
use st_dns.Base.{
  ℕ, ◌≡◌, ◌≢◌, refl, sym, subst, inl, inr, List, [], ◌∷◌, ◌++◌, true, false, not, ◌&&◌, ◌==◌, All,
  Bool-cases, if_either, arith,
}
use st_dns.Base.Text.{Text, text_eq, text_eq→eq, is_empty}
use st_dns.Records.{
  DnsIpRecord, Chosen, none_chosen, choose_step, choose, add_ips, select_ips, has_ip,
}

-- No address occurs twice.
abbrev pub Once : List ℕ → Type 0
Once [] = Unit {0}
Once (ip ∷ ips) = (has_ip ip ips ≡ false) × Once ips

has_ip-append :
    (ip new : ℕ) (ips : List ℕ)
    → has_ip ip ips ≡ false
    → (new == ip) ≡ false
    → has_ip ip (ips ++ (new ∷ [])) ≡ false
unfolding has_ip
has_ip-append ip new [] h e = rw e refl
has_ip-append ip new (other ∷ ips) h e = grind (arith, has_ip-append ip new ips)

has_ip-ne :
    (new : ℕ) (ips : List ℕ) (ip : ℕ)
    → has_ip new (ip ∷ ips) ≡ false
    → ((new == ip) ≡ false) × (has_ip new ips ≡ false)
unfolding has_ip
has_ip-ne new ips ip h = (ground arith, ground arith)

Once-append :
    (new : ℕ) (ips : List ℕ) → has_ip new ips ≡ false → Once ips → Once (ips ++ (new ∷ []))
unfolding has_ip
Once-append new [] h o = (refl, tt)
Once-append new (ip ∷ ips) h o =
    let (other, behind) = has_ip-ne new ips ip h in
    (has_ip-append ip new ips o.0 other, Once-append new ips behind o.1)

OnceIn : Chosen → Type 0
OnceIn chosen = Once chosen.ips

choose_step-Once :
    (item : DnsIpRecord) (chosen : Chosen) → Once chosen.ips → Once (choose_step item chosen).ips
unfolding choose_step OnceIn
choose_step-Once item chosen o =
    if_either OnceIn (item.match_area && not item.forbid)
      (λ e.
        if_either OnceIn (not (is_empty chosen.server) && not (text_eq item.server chosen.server))
          (λ e. o)
          (λ e.
            if_either OnceIn (has_ip item.ip chosen.ips) (λ e. o)
              (λ e. Once-append item.ip chosen.ips e o)))
      (λ e. o)

choose-Once :
    (items : List DnsIpRecord) (chosen : Chosen) → Once chosen.ips → Once (choose items chosen).ips
unfolding choose
choose-Once [] chosen o = o
choose-Once (item ∷ items) chosen o =
    choose-Once items (choose_step item chosen) (choose_step-Once item chosen o)

add_ips-Once : (items : List DnsIpRecord) (ips : List ℕ) → Once ips → Once (add_ips items ips)
unfolding add_ips
add_ips-Once [] ips o = o
add_ips-Once (item ∷ items) ips o =
    add_ips-Once items _
      (if_either Once (has_ip item.ip ips) (λ e. o) (λ e. Once-append item.ip ips e o))

-- No address is chosen twice.
pub select_ips-Once : (items : List DnsIpRecord) → Once (select_ips items)
unfolding select_ips
select_ips-Once items = either (choose items none_chosen).ips (choose-Once items none_chosen tt)
  where
    either :
        (ips : List ℕ)
        → Once ips
        → Once (elim ips [ [] ↦ add_ips items [] | ip ∷ others ↦ ip ∷ others ])
    either [] o = add_ips-Once items [] tt
    either (ip ∷ ips) o = o

-- The address stands in a record of this server that lies in its areas and is not forbidden.
pub data From (server : Text) (ip : ℕ) : List DnsIpRecord → Type 0 where
  here :
      (item : DnsIpRecord) (items : List DnsIpRecord)
      → (item.match_area && not item.forbid) ≡ true
      → item.server ≡ server
      → item.ip ≡ ip
      → From server ip (item ∷ items)
  there :
      (item : DnsIpRecord) (items : List DnsIpRecord)
      → From server ip items
      → From server ip (item ∷ items)

module _ (P : Text → ℕ → Type 0) where
  abbrev Trusted : DnsIpRecord → Type 0
  Trusted item = (item.match_area && not item.forbid) ≡ true → P item.server item.ip

  record OneServer (chosen : Chosen) : Type 0 where
    of_server : All (P chosen.server) chosen.ips
    started : is_empty chosen.server ≡ true → chosen.ips ≡ []

  All-snoc : (Q : ℕ → Type 0) (ips : List ℕ) (ip : ℕ) → All Q ips → Q ip → All Q (ips ++ (ip ∷ []))
  All-snoc Q [] ip h q = (q, tt)
  All-snoc Q (other ∷ ips) ip h q = (h.0, All-snoc Q ips ip h.1 q)

  choose_step-OneServer :
      (item : DnsIpRecord) (chosen : Chosen)
      → Trusted item
      → is_empty item.server ≡ false
      → OneServer chosen
      → OneServer (choose_step item chosen)
  unfolding choose_step
  choose_step-OneServer item chosen trusted named w =
      if_either OneServer (item.match_area && not item.forbid)
        (λ e.
          if_either OneServer
            (not (is_empty chosen.server) && not (text_eq item.server chosen.server)) (λ e'. w)
            (λ e'.
              if_either OneServer (has_ip item.ip chosen.ips) (λ e''. w)
                (λ e''. record {
                  of_server = All-snoc (P item.server) chosen.ips item.ip (before e') (trusted e);
                  started = λ empty. absurd (clash empty);
                })))
        (λ e. record { of_server = w.of_server; started = w.started })
    where
      clash : is_empty item.server ≢ true
      clash e = cc

      equal :
          is_empty chosen.server ≡ false
          → (not (is_empty chosen.server) && not (text_eq item.server chosen.server)) ≡ false
          → text_eq item.server chosen.server ≡ true
      equal h e = ground (arith, h, e)

      before :
          (not (is_empty chosen.server) && not (text_eq item.server chosen.server)) ≡ false
          → All (P item.server) chosen.ips
      before e = elim (Bool-cases (is_empty chosen.server)) [
        | inl h ↦ rw (w.started h) tt
        | inr h ↦
            subst (λ (s : Text). All (P s) chosen.ips)
              (sym (text_eq→eq item.server chosen.server (equal h e))) w.of_server
      ]

  choose-OneServer :
      (items : List DnsIpRecord) (chosen : Chosen)
      → All Trusted items
      → All (λ (item : DnsIpRecord). is_empty item.server ≡ false) items
      → OneServer chosen
      → OneServer (choose items chosen)
  unfolding choose
  choose-OneServer [] chosen trusted named w = w
  choose-OneServer (item ∷ items) chosen trusted named w =
      choose-OneServer items (choose_step item chosen) trusted.1 named.1
        (choose_step-OneServer item chosen trusted.0 named.0 w)

  From-Trusted :
      (items : List DnsIpRecord)
      → ((server : Text) (ip : ℕ) → From server ip items → P server ip)
      → All Trusted items
  From-Trusted [] f = tt
  From-Trusted (item ∷ items) f = (
    (λ e. f item.server item.ip (here item items e refl refl)),
    From-Trusted items (λ server ip h. f server ip (there item items h)),
  )

-- All the addresses that the first loop chooses come from one server's records, whose addresses lie in
-- its areas, provided that no server's name is empty.
pub choose-From :
    (items : List DnsIpRecord)
    → All (λ (item : DnsIpRecord). is_empty item.server ≡ false) items
    → All
        (λ (ip : ℕ). From (choose items none_chosen).server ip items)
        (choose items none_chosen).ips
choose-From items named =
    (choose-OneServer P items none_chosen (From-Trusted P items (λ server ip h. h)) named
      (record { of_server = tt; started = λ e. refl })).of_server
  where
    P : Text → ℕ → Type 0
    P server ip = From server ip items
