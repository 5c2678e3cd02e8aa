-- ===== src/Kv/Shared.antt =====
-- src/common/main/kv/shm_kv.cpp: the map "KV" of the shared segment is a list with one entry for a key.
-- The lock makes every operation one step. A missing segment is `none`.
use st_dns.Base.{
  ◌≡◌, refl, ap, ◌∙◌, List, [], Bool, true, false, ◌||◌, Option, none, some, if◌then◌else◌,
}
use st_dns.Base.Text.{Text, text_eq, is_empty, text_eq_refl}
use st_dns.Protocol.Domain.{c_str}
use st_dns.Base.Assoc.{lookup, assign, remove_key, lookup-assign, lookup-remove_key}

abbrev pub Shm : Type 0
Shm = List (Text × Text)

-- `shm_kv::get`. Keys and values pass through `c_str`.
unfoldable pub shm_get : Option Shm → Text → Text
shm_get segment key = if is_empty key then [] else (elim segment [
  | none ↦ []
  | some kv ↦ elim (lookup (c_str key) kv) [ none ↦ [] | some value ↦ c_str value ]
])

-- `shm_kv::put`, also with a time to live, which is not kept.
unfoldable pub shm_put : Option Shm → Text → Text → Option Shm
shm_put segment key value =
    if is_empty key || is_empty value
    then segment
    else (elim segment [ none ↦ none | some kv ↦ some (assign (c_str key) (c_str value) kv) ])

-- `shm_kv::put_if_absent`: `insert` changes nothing if the key is there.
unfoldable pub shm_put_if_absent : Option Shm → Text → Text → Option Shm
shm_put_if_absent segment key value =
    if is_empty key || is_empty value then segment else (elim segment [
      | none ↦ none
      | some kv ↦ some (elim (lookup (c_str key) kv) [
        | none ↦ assign (c_str key) (c_str value) kv
        | some v ↦ kv
      ])
    ])

-- `shm_kv::erase`
unfoldable pub shm_erase : Shm → Text → Shm
shm_erase kv key = remove_key (c_str key) kv

-- `shm_kv::clear`
unfoldable pub shm_clear : Shm → Shm
shm_clear kv = []

-- In the shared map a key that is put is found with its value, one that is erased is not, other
-- keys are as before, and put_if_absent does not replace a value; keys and values are not empty
-- and have no 0.
pub shm_get-shm_put :
    (kv : Shm) (key value other : Text)
    → is_empty key ≡ false
    → is_empty value ≡ false
    → is_empty other ≡ false
    → c_str key ≡ key
    → c_str value ≡ value
    → c_str other ≡ other
    → (shm_get (shm_put (some kv) key value) other
        ≡ (if text_eq key other then value else shm_get (some kv) other))
      × (shm_get (some (shm_erase kv key)) other
          ≡ (if text_eq key other then [] else shm_get (some kv) other))
      × (shm_put_if_absent (shm_put (some kv) key value) key other ≡ shm_put (some kv) key value)
unfolding shm_get shm_put shm_erase shm_put_if_absent
shm_get-shm_put kv key value other some_key some_value some_other plain_key plain_value
      plain_other =
    (
      rw
          (
            put_assigns,
            get_looks (assign key value kv),
            get_looks kv,
            lookup-assign key value other kv,
          )
          (put_either (text_eq key other)),
      rw
          (
            get_looks (remove_key (c_str key) kv),
            get_looks kv,
            plain_key,
            lookup-remove_key key other kv,
          )
          (erase_either (text_eq key other)),
      rw put_assigns absent,
    )
  where
    put_assigns : shm_put (some kv) key value ≡ some (assign key value kv)
    put_assigns = rw (some_key, some_value) (ap some (rw (plain_key, plain_value) refl))

    Got : Option Text → Text
    Got o = elim o [ none ↦ [] | some v ↦ c_str v ]

    get_looks : (kv' : Shm) → shm_get (some kv') other ≡ Got (lookup other kv')
    get_looks kv' = rw some_other (ap (λ (t : Text). Got (lookup t kv')) plain_other)

    there : lookup (c_str key) (assign key value kv) ≡ some value
    there =
        ap (λ (t : Text). lookup t (assign key value kv)) plain_key
        ∙ lookup-assign key value key kv
        ∙ rw (text_eq_refl key) refl

    absent : shm_put_if_absent (some (assign key value kv)) key other ≡ some (assign key value kv)
    absent = rw (some_key, some_other, there) refl

    put_either :
        (b : Bool)
        → Got (if b then some value else lookup other kv)
          ≡ (if b then value else Got (lookup other kv))
    put_either true = plain_value
    put_either false = refl

    erase_either :
        (b : Bool)
        → Got (if b then none else lookup other kv) ≡ (if b then [] else Got (lookup other kv))
    erase_either true = refl
    erase_either false = refl
