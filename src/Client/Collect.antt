-- ===== src/Client/Collect.antt =====
-- The replies of several areas are collected: the multi-area `tcp_dns` and `tcp_tls_dns` of
-- src/core/dns_client.cpp.
use st_dns.Base.{
  ℕ, ◌+◌, ◌^◌, ◌≤◌, ◌<◌, ◌≡◌, refl, sym, ap, ◌%◌, ◌∙◌, List, [], ◌∷◌, Bool, true, false, not, ◌&&◌,
  ◌||◌, leb, ◌==◌, if◌then◌else◌, arith, length, eq→==, ne→==, lt→leb,
}
use native.Mathlib.Nat.{mod-eq_of_lt}
use st_dns.Client.{
  Gathered, none_gathered, is_member, set_emplace, unordered_emplace, emplace_all, gather_reply,
  gather_tcp, gather_tls, collect_tcp, collect_tls,
}

-- Whether an address is in one of the replies.
unfoldable pub is_in_some : ℕ → List (List ℕ) → Bool
is_in_some ip [] = false
is_in_some ip (ips ∷ replies) = is_member ip ips || is_in_some ip replies

-- Whether every reply has an address.
unfoldable pub all_answered : List (List ℕ) → Bool
all_answered [] = true
all_answered (ips ∷ replies) = not (length ips == 0) && all_answered replies

-- The calls of two handlers bring the same addresses, in any order, and the same news.
abbrev pub SameCalls : List (List ℕ × Bool) → List (List ℕ × Bool) → Type 0
SameCalls [] [] = Unit {0}
SameCalls [] (call ∷ calls) = ⊥
SameCalls (call ∷ calls) [] = ⊥
SameCalls (call ∷ calls) (call' ∷ calls') =
    ((ip : ℕ) → is_member ip call.0 ≡ is_member ip call'.0)
    × (call.1 ≡ call'.1)
    × SameCalls calls calls'

-- The documented behaviour of the iterator of an unordered set: it passes the elements that are there.
abbrev pub IsOrder : (List ℕ → List ℕ) → Type 0
IsOrder hash_order = (ip : ℕ) (ips : List ℕ) → is_member ip (hash_order ips) ≡ is_member ip ips

-- What is shared behind these replies.
unfoldable gather_all : List (List ℕ) → Gathered → Gathered
gather_all [] g = g
gather_all (ips ∷ replies) g = gather_all replies (gather_reply set_emplace ips g)

pub is_member-set_emplace :
    (ip other : ℕ) (result : List ℕ)
    → is_member ip (set_emplace other result) ≡ (other == ip) || is_member ip result
unfolding is_member set_emplace
is_member-set_emplace ip other [] = ground arith
is_member-set_emplace ip other (first ∷ result) =
    grind (arith, is_member-set_emplace ip other result)

is_member-unordered_emplace :
    (ip other : ℕ) (result : List ℕ)
    → is_member ip (unordered_emplace other result) ≡ (other == ip) || is_member ip result
unfolding is_member unordered_emplace
is_member-unordered_emplace ip other result = ground arith

-- An `emplace` that puts the address in and leaves the others.
abbrev Emplaces : (ℕ → List ℕ → List ℕ) → Type 0
Emplaces emplace =
    (ip other : ℕ) (result : List ℕ)
    → is_member ip (emplace other result) ≡ (other == ip) || is_member ip result

is_member-emplace_all :
    (emplace : ℕ → List ℕ → List ℕ)
    → Emplaces emplace
    → (ip : ℕ) (ips result : List ℕ)
    → is_member ip (emplace_all emplace ips result) ≡ is_member ip ips || is_member ip result
unfolding is_member emplace_all
is_member-emplace_all emplace h ip [] result = refl
is_member-emplace_all emplace h ip (other ∷ ips) result =
    is_member-emplace_all emplace h ip ips (emplace other result)
    ∙ ground (arith, h ip other result)

is_member-gather_all :
    (ip : ℕ) (replies : List (List ℕ)) (g : Gathered)
    → is_member ip (gather_all replies g).result ≡ is_in_some ip replies || is_member ip g.result
unfolding gather_all is_in_some gather_reply
is_member-gather_all ip [] g = refl
is_member-gather_all ip (ips ∷ replies) g =
    is_member-gather_all ip replies (gather_reply set_emplace ips g)
    ∙ ground (arith, is_member-emplace_all set_emplace is_member-set_emplace ip ips g.result)

load_all-gather_all :
    (replies : List (List ℕ)) (g : Gathered)
    → (gather_all replies g).load_all ≡ g.load_all && all_answered replies
unfolding gather_all all_answered gather_reply
load_all-gather_all [] g = ground arith
load_all-gather_all (ips ∷ replies) g =
    load_all-gather_all replies (gather_reply set_emplace ips g) ∙ ground arith

counter-gather_reply :
    (emplace : ℕ → List ℕ → List ℕ) (ips : List ℕ) (g : Gathered)
    → g.counter + 1 < 2 ^ 16
    → (gather_reply emplace ips g).counter ≡ g.counter + 1
unfolding gather_reply
counter-gather_reply emplace ips g h = mod-eq_of_lt h

-- What the handler of all areas is called with when these replies have come.
abbrev collected : List (List ℕ) → Gathered → List ℕ × Bool
collected replies g = ((gather_all replies g).result, (gather_all replies g).load_all)

gather_tcp-once :
    (count : ℕ) (ips : List ℕ) (replies : List (List ℕ)) (g : Gathered)
    → count < 2 ^ 16
    → g.counter + (1 + length replies) ≡ count
    → gather_tcp count (ips ∷ replies) g ≡ collected (ips ∷ replies) g ∷ []
unfolding gather_tcp gather_all
gather_tcp-once count ips [] g small h = rw here refl
  where
    here : ((gather_reply set_emplace ips g).counter == count) ≡ true
    here =
        eq→== _ count
          (omega (arith, h, counter-gather_reply set_emplace ips g (omega (arith, small, h))))
gather_tcp-once count ips (ips' ∷ replies) g small h = rw later (
    gather_tcp-once count ips' replies (gather_reply set_emplace ips g) small
      (omega (arith, counter, h)))
  where
    counter : (gather_reply set_emplace ips g).counter ≡ g.counter + 1
    counter = counter-gather_reply set_emplace ips g (omega (arith, small, h))

    later : ((gather_reply set_emplace ips g).counter == count) ≡ false
    later = ne→== _ count (λ e. omega (arith, h, e, counter))

-- What the handlers share is the same but for the order of the addresses.
record SameGathered (g h : Gathered) : Type 0 where
  same_counter : g.counter ≡ h.counter
  same_news : g.load_all ≡ h.load_all
  same_ips : (ip : ℕ) → is_member ip g.result ≡ is_member ip h.result

SameGathered-gather_reply :
    (ips : List ℕ) (g h : Gathered)
    → SameGathered g h
    → SameGathered (gather_reply unordered_emplace ips g) (gather_reply set_emplace ips h)
unfolding gather_reply
SameGathered-gather_reply ips g h same = record {
  same_counter = ap (λ (n : ℕ). (n + 1) % 2 ^ 16) same.same_counter;
  same_news = ap (λ (b : Bool). if length ips == 0 then false else b) same.same_news;
  same_ips = λ ip.
      is_member-emplace_all unordered_emplace is_member-unordered_emplace ip ips g.result
      ∙ ap (λ (b : Bool). is_member ip ips || b) (same.same_ips ip)
      ∙ sym (is_member-emplace_all set_emplace is_member-set_emplace ip ips h.result);
}

-- Until the counter is at the number of areas, the two tests agree.
gather_tls-gather_tcp :
    (hash_order : List ℕ → List ℕ) (count : ℕ) (replies : List (List ℕ)) (g h : Gathered)
    → IsOrder hash_order
    → count < 2 ^ 16
    → h.counter + length replies ≤ count
    → SameGathered g h
    → SameCalls (gather_tls hash_order count replies g) (gather_tcp count replies h)
unfolding gather_tcp gather_tls
gather_tls-gather_tcp hash_order count [] g h order small k same = tt
gather_tls-gather_tcp hash_order count (ips ∷ replies) g h order small k same = rw agree (
    by_test (h'.counter == count) (
      gather_tls-gather_tcp hash_order count replies g' h' order small (omega (arith, counter, k))
        same'))
  where
    g' : Gathered
    g' = gather_reply unordered_emplace ips g

    h' : Gathered
    h' = gather_reply set_emplace ips h

    same' : SameGathered g' h'
    same' = SameGathered-gather_reply ips g h same

    counter : h'.counter ≡ h.counter + 1
    counter = counter-gather_reply set_emplace ips h (omega (arith, small, k))

    agree : leb count g'.counter ≡ (h'.counter == count)
    agree = ground (arith, k, counter, same'.same_counter)

    by_test :
        (b : Bool)
        → SameCalls (gather_tls hash_order count replies g') (gather_tcp count replies h')
        → SameCalls
            (if b
              then (hash_order g'.result, g'.load_all) ∷ gather_tls hash_order count replies g'
              else gather_tls hash_order count replies g')
            (if b
              then (h'.result, h'.load_all) ∷ gather_tcp count replies h'
              else gather_tcp count replies h')
    by_test true rest = ((λ ip. order ip g'.result ∙ same'.same_ips ip), same'.same_news, rest)
    by_test false rest = rest

or_false : (b : Bool) → b || false ≡ b
or_false b = ground arith

-- When each of the areas, from two to 65535, has sent its one reply, the multi-area tcp_dns has
-- called its handler once: with a list that has an address if and only if a reply has it, and with
-- the news that all is loaded if and only if every reply has an address.
pub collect_tcp-once :
    (count : ℕ) (replies : List (List ℕ))
    → 2 ≤ count
    → count < 2 ^ 16
    → length replies ≡ count
    → (result : List ℕ) × ((collect_tcp count replies ≡ (result, all_answered replies) ∷ [])
        × ((ip : ℕ) → is_member ip result ≡ is_in_some ip replies))
unfolding collect_tcp is_member
collect_tcp-once count [] two small h = absurd (omega (arith, two, h))
collect_tcp-once count (ips ∷ replies) two small h = (
  (gather_all (ips ∷ replies) none_gathered).result,
  (
    rw
        (
          lt→leb count 1 two,
          gather_tcp-once count ips replies none_gathered small (omega (arith, h)),
          load_all-gather_all (ips ∷ replies) none_gathered,
        )
        refl,
    λ ip. is_member-gather_all ip (ips ∷ replies) none_gathered ∙ or_false _,
  ),
)

-- As long as no area sends more than one reply, and there are fewer than 65536 areas, the multi-
-- area tcp_dns and tcp_tls_dns call their handlers equally often, with the same addresses, though
-- maybe in another order, and with the same news of whether all is loaded. An unordered set passes
-- the elements that are in it.
pub collect_tls-collect_tcp :
    (hash_order : List ℕ → List ℕ) (count : ℕ) (replies : List (List ℕ))
    → IsOrder hash_order
    → count < 2 ^ 16
    → length replies ≤ count
    → SameCalls (collect_tls hash_order count replies) (collect_tcp count replies)
unfolding collect_tcp collect_tls
collect_tls-collect_tcp hash_order count replies order small h = by_count (leb count 1) (
    gather_tls-gather_tcp hash_order count replies none_gathered none_gathered order small
      (omega (arith, h)) (record { same_counter = refl; same_news = refl; same_ips = λ ip. refl }))
  where
    first : List (List ℕ) → List (List ℕ × Bool)
    first l = elim l [ [] ↦ [] | ips ∷ others ↦ (ips, true) ∷ [] ]

    first_same : (l : List (List ℕ)) → SameCalls (first l) (first l)
    first_same [] = tt
    first_same (ips ∷ others) = ((λ ip. refl), refl, tt)

    by_count :
        (b : Bool)
        → SameCalls
            (gather_tls hash_order count replies none_gathered)
            (gather_tcp count replies none_gathered)
        → SameCalls
            (if b then first replies else gather_tls hash_order count replies none_gathered)
            (if b then first replies else gather_tcp count replies none_gathered)
    by_count true same = first_same replies
    by_count false same = same
