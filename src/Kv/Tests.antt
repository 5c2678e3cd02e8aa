-- ===== src/Kv/Tests.antt =====
-- The theorems on stores at a list for leveldb and a list of numbers for a message.
use st_dns.Base.{ℕ, ◌≡◌, refl, List, [], ◌∷◌, none, some, arith, if◌then◌else◌}
use st_dns.Base.Text.{text_eq}
use st_dns.Base.Assoc.{lookup, remove_key, lookup-remove_key}
use st_dns.Kv.{Db, Codec, IsDb, IsCodec}
use st_dns.Protocol.Domain.{c_str}
use st_dns.Kv.Model.{Op, get_op, put_op, erase_op, clear_op, run_map, run_store}
use st_dns.Kv.Refine.{run_store-run_map}
use st_dns.Kv.Shared.{Shm, shm_get, shm_put, shm_put_if_absent, shm_erase, shm_get-shm_put}

abbrev pub list_db : Db Shm
list_db = record {
  get = λ s key. lookup key s;
  put = λ s key value. (key, value) ∷ s;
  delete = λ s key. remove_key key s;
  entries = λ s. s;
}

pub list_db-IsDb : IsDb list_db
unfolding lookup
list_db-IsDb = record {
  get-put = λ s key v other. refl;
  get-delete = λ s key other. lookup-remove_key key other s;
  get-entries = λ s key. refl;
}

abbrev pub list_codec : Codec
list_codec = record {
  serialize = λ v. v.expire ∷ v.content;
  parse = λ bytes. elim bytes [
    | [] ↦ record { content = []; expire = 0 }
    | e ∷ content ↦ record { content = content; expire = e }
  ];
}

pub list_codec-IsCodec : IsCodec list_codec
list_codec-IsCodec = record { parse-serialize = λ v. refl }

-- A value is put, seen while it lives and not thereafter; another stays until all is cleared.
abbrev ops : List (ℕ × Op)
ops =
    (0, put_op (1 ∷ []) (7 ∷ []) 2)
    ∷ (500, put_op (2 ∷ []) (8 ∷ []) 0)
    ∷ (600, get_op (1 ∷ []))
    ∷ (2000, get_op (1 ∷ []))
    ∷ (0, get_op (2 ∷ []))
    ∷ (0, erase_op (1 ∷ []))
    ∷ (0, clear_op)
    ∷ (0, get_op (2 ∷ []))
    ∷ []

run_store-run_map_example :
    run_store list_db list_codec 1000 [] ops ≡ run_map 1000 (λ key. none) ops
unfolding lookup c_str
run_store-run_map_example =
    run_store-run_map list_db list_codec list_db-IsDb list_codec-IsCodec 1000 [] (λ key. refl) ops
      (refl, omega arith, (refl, omega arith, tt))

seen : run_map 1000 (λ key. none) ops ≡ (7 ∷ []) ∷ [] ∷ (8 ∷ []) ∷ [] ∷ []
unfolding run_map
seen = refl

shm_get-shm_put_example :
    (shm_get (shm_put (some []) (1 ∷ []) (7 ∷ [])) (2 ∷ [])
      ≡ (if text_eq (1 ∷ []) (2 ∷ []) then 7 ∷ [] else shm_get (some []) (2 ∷ [])))
    × (shm_get (some (shm_erase [] (1 ∷ []))) (2 ∷ [])
        ≡ (if text_eq (1 ∷ []) (2 ∷ []) then [] else shm_get (some []) (2 ∷ [])))
    × (shm_put_if_absent (shm_put (some []) (1 ∷ []) (7 ∷ [])) (1 ∷ []) (2 ∷ [])
        ≡ shm_put (some []) (1 ∷ []) (7 ∷ []))
unfolding c_str
shm_get-shm_put_example =
    shm_get-shm_put [] (1 ∷ []) (7 ∷ []) (2 ∷ []) refl refl refl refl refl refl
