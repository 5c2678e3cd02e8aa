-- ===== src/Console/Answered.antt =====
-- How the client reads a response of success: src/common/main/console/client.h.
use st_dns.Base.{
  ℕ, ◌≤◌, ◌≡◌, ◌≢◌, refl, ap, ◌∙◌, List, [], ◌∷◌, ◌++◌, true, false, ltb, some, ok, length,
  length-append, All, All-append, All-map, arith,
}
use st_dns.Base.Text.{Text, codes, find}
use st_dns.Protocol.Domain.{c_str}
use st_dns.Utils.Strings.{split, join}
use st_dns.Utils.Strings.Split.{glue}
use st_dns.Utils.Strings.Join.{IsItem, join-glue, split_first}
use st_dns.Console.{BoostFunctions, response_text}
use st_dns.Console.Boost.{IsBoost, Solid, trim-Solid}
use st_dns.Console.Buffers.{NoZero, find-NoZero, receive_reply_fits}
use st_dns.Console.Client.{receive_reply, read_result, read_reply}

-- A name as the console can hand it on: some characters, no comma, no blank and no 0.
pub record IsListed (domain : Text) : Type 0 where
  pub item : IsItem b',' domain
  pub solid : Solid domain
  pub no_zero : NoZero domain

abbrev pub AllListed : List Text → Type 0
AllListed domains = All IsListed domains

glue-All :
    (P : ℕ → Type 0) (domains : List Text)
    → P b','
    → All (λ (domain : Text). All P domain) domains
    → All P (glue (b',' ∷ []) domains)
unfolding glue
glue-All P [] comma h = tt
glue-All P (domain ∷ []) comma h = h.0
glue-All P (domain ∷ (next ∷ domains)) comma h =
    All-append P domain (b',' ∷ glue (b',' ∷ []) (next ∷ domains)) h.0
      (comma, glue-All P (next ∷ domains) comma h.1)

pub join-All :
    (P : ℕ → Type 0) (domains : List Text)
    → AllListed domains
    → P b','
    → All (λ (domain : Text). All P domain) domains
    → All P (join domains (b',' ∷ []))
join-All P domains listed comma h =
    rw (join-glue b',' domains (All-map IsListed (IsItem b',') domains (λ d k. k.item) listed))
      (glue-All P domains comma h)

-- A response of success has no 0.
success-NoZero : (text : Text) → NoZero text → NoZero (response_text (true, text))
unfolding find
success-NoZero text h =
    All-append (λ (ch : ℕ). ch ≢ 0) (codes "success\n") (text ++ (b'\n' ∷ []))
      (find-NoZero (codes "success\n") refl)
      (All-append (λ (ch : ℕ). ch ≢ 0) text (b'\n' ∷ []) h (find-NoZero (b'\n' ∷ []) refl))

module _ (boost : BoostFunctions) (laws : IsBoost boost) where
  abbrev success : Text → Text
  success text = codes "success" ++ (b'\n' ∷ (text ++ (b'\n' ∷ [])))

  read_result_success :
      (text : Text) → Solid text → read_result boost.trim (success text) ≡ ok (true, text)
  unfolding read_result find
  read_result_success text solid = rw first.1 (rw long_enough (rw trimmed refl))
    where
      first :
          (lines : List Text) × (split (success text) (b'\n' ∷ []) 0 0
            ≡ ok (codes "success" ∷ lines))
      first = split_first b'\n' (codes "success") (text ++ (b'\n' ∷ [])) refl

      trimmed : boost.trim (b'\n' ∷ (text ++ (b'\n' ∷ []))) ≡ text
      trimmed =
          laws.trim-front b'\n' (text ++ (b'\n' ∷ [])) refl
          ∙ laws.trim-back b'\n' text refl
          ∙ trim-Solid boost laws text solid

      long_enough : ltb (length (success text)) 7 ≡ false
      long_enough = ground arith

  -- The client reads a response of success.
  pub read_reply_success :
      (text : Text)
      → Solid text
      → NoZero text
      → length text ≤ 10229
      → read_reply boost.trim (some (response_text (true, text))) ≡ ok (true, text)
  unfolding read_reply
  read_reply_success text solid plain h =
      rw reply.1.0 (ap (read_result boost.trim) reply.1.1 ∙ read_result_success text solid)
    where
      reply :
          (res : Text) × ((receive_reply (some (success text)) ≡ ok res)
            × (c_str res ≡ success text))
      reply =
          receive_reply_fits (success text) (success-NoZero text plain)
            (omega (arith, h, length-append text (b'\n' ∷ [])))
