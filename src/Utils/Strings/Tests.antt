-- ===== src/Utils/Strings/Tests.antt =====
-- Splitting at concrete texts.
use st_dns.Base.{◌≡◌, refl, List, [], ◌∷◌, ok, arith}
use st_dns.Base.Text.{Text, codes, starts_with}
use st_dns.Utils.Strings.{find_cut, split_loop, split}
use st_dns.Utils.Strings.Split.{glue, split-glue}

split-glue_example :
    (lines : List Text) × ((split (codes "http://a/b/c") (codes "/") 7 1 ≡ ok lines)
      × (glue (codes "/") lines ≡ codes "http://a/b/c"))
split-glue_example = split-glue (codes "http://a/b/c") (codes "/") 7 1 (omega arith)

-- What is split off once, behind the scheme.
split_once : split (codes "http://a/b/c") (codes "/") 7 1 ≡ ok (codes "http://a" ∷ codes "b/c" ∷ [])
unfolding split split_loop find_cut starts_with
split_once = refl
