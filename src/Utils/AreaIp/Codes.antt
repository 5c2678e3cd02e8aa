-- ===== src/Utils/AreaIp/Codes.antt =====
-- The codes of areas, and the areas of addresses.
use st_dns.Base.{
  ℕ, ◌+◌, ◌/◌, ◌%◌, ◌<◌, ◌≡◌, refl, ◌⊎◌, inl, inr, [], ◌∷◌, true, ltb, le→leb, arith, if_either,
}
use st_dns.Base.Text.{Text}
use st_dns.Utils.AreaIp.{
  DefaultCaches, is_cached_area_ip, find_area, cached_area, area_to_code, code_to_area,
}

-- Every number below 676 is the code of its area.
pub area_to_code-code_to_area : (mark : ℕ) → mark < 676 → area_to_code (code_to_area mark) ≡ mark
unfolding area_to_code code_to_area
area_to_code-code_to_area mark h =
    rw
      (
        le→leb mark 675 (omega (arith, h)),
        le→leb b'A' (b'A' + mark / 26) (omega arith),
        le→leb b'A' (b'A' + mark % 26) (omega arith),
        le→leb (b'A' + mark % 26) b'Z' (omega arith),
        le→leb (b'A' + mark / 26) b'Z' (omega (arith, h)),
      )
      (omega arith)

-- An address lies in a range of the area that is found for it.
find_area-Cached :
    (ip : ℕ) (caches left : DefaultCaches)
    → (find_area ip caches left ≡ [])
      ⊎ (is_cached_area_ip (find_area ip caches left) ip caches ≡ true)
unfolding find_area
find_area-Cached ip caches [] = inl refl
find_area-Cached ip caches ((area, ranges) ∷ left) =
    if_either (λ (found : Text). (found ≡ []) ⊎ (is_cached_area_ip found ip caches ≡ true))
      (is_cached_area_ip area ip caches) (λ e. inr e) (λ e. find_area-Cached ip caches left)

pub cached_area-Cached :
    (ip : ℕ) (caches : DefaultCaches)
    → (cached_area ip caches ≡ []) ⊎ (is_cached_area_ip (cached_area ip caches) ip caches ≡ true)
unfolding cached_area
cached_area-Cached ip caches =
    if_either (λ (found : Text). (found ≡ []) ⊎ (is_cached_area_ip found ip caches ≡ true))
      (ltb 0 ip) (λ e. find_area-Cached ip caches caches) (λ e. inl refl)
