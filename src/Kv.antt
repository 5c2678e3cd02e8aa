-- ===== src/Kv.antt =====
-- The key-value stores: src/common/main/kv/disk_kv.cpp, over leveldb and protobuf, which are records of
-- operations here, and src/common/main/kv/shm_kv.cpp, over a map in shared memory.
pub mod Model
pub mod Refine
pub mod ReadBack
pub mod Shared
pub mod Tests
use st_dns.Base.{
  ℕ, zero, suc, ◌+◌, ◌/◌, ◌%◌, ◌^◌, ◌≡◌, List, [], ◌∷◌, ◌++◌, Bool, true, false, not, ◌||◌, Option,
  none, some, ltb, ◌==◌, if◌then◌else◌,
}
use st_dns.Base.Text.{Text, text_eq, is_empty}
use st_dns.Base.Assoc.{lookup}
use st_dns.Protocol.Domain.{c_str}

-- The message `value` of kv.proto.
pub record Value : Type 0 where
  pub content : Text
  pub expire : ℕ

-- What the code uses of a leveldb database.
pub record Db {ℓ} (S : Type ℓ) : Type ℓ where
  pub get : S → Text → Option Text
  pub put : S → Text → Text → S
  pub delete : S → Text → S
  pub entries : S → List (Text × Text)

-- What the code uses of protobuf.
pub record Codec : Type 0 where
  pub serialize : Value → Text
  pub parse : Text → Value

-- leveldb's documented behaviour: a read gives what was written last, and an iterator passes every key.
pub record IsDb {ℓ} {S : Type ℓ} (db : Db S) : Type ℓ where
  pub get-put :
      (s : S) (key v other : Text)
      → db.get (db.put s key v) other ≡ (if text_eq key other then some v else db.get s other)
  pub get-delete :
      (s : S) (key other : Text)
      → db.get (db.delete s key) other ≡ (if text_eq key other then none else db.get s other)
  pub get-entries : (s : S) (key : Text) → db.get s key ≡ lookup key (db.entries s)

-- A message is read back as it was written.
pub record IsCodec (codec : Codec) : Type 0 where
  pub parse-serialize : (v : Value) → codec.parse (codec.serialize v) ≡ v

-- `not_expired`, with the clock in milliseconds.
unfoldable pub not_expired : ℕ → Value → Bool
not_expired now v = v.expire == 0 || ltb (now / 1000) v.expire

-- The value that `disk_kv::put` stores.
unfoldable pub stored_value : ℕ → Text → ℕ → Value
stored_value now value expire = record {
  content = c_str value;
  expire = if expire == 0 then expire else (now / 1000 + expire) % 2 ^ 32;
}

module _ {ℓ} {S : Type ℓ} (db : Db S) (codec : Codec) where
  -- `disk_kv::get`, which erases what has expired.
  unfoldable pub get : ℕ → S → Text → Text × S
  get now s key = elim (db.get s key) [
    | none ↦ ([], s)
    | some bytes ↦
        let v = codec.parse bytes in
        if not_expired now v then (v.content, s) else ([], db.delete s key)
  ]

  -- `disk_kv::put(key, value, expire)`
  unfoldable pub put : ℕ → S → Text → Text → ℕ → S
  put now s key value expire = db.put s key (codec.serialize (stored_value now value expire))

  -- `disk_kv::erase`
  unfoldable pub erase : S → Text → S
  erase s key = db.delete s key

  unfoldable pub erase_all : List (Text × Text) → S → S
  erase_all [] s = s
  erase_all ((key, value) ∷ items) s = erase_all items (erase s key)

  -- `disk_kv::clear`: the iterator stands on a snapshot.
  unfoldable pub clear : S → S
  clear s = erase_all (db.entries s) s

  unfoldable pub list_items : ℕ → List (Text × Text) → List (Text × Text)
  list_items now [] = []
  list_items now ((key, bytes) ∷ items) =
      let rest = list_items now items in
      let v = codec.parse bytes in if not_expired now v then (key, v.content) ∷ rest else rest

  -- `disk_kv::list`: what the consumer is called with.
  unfoldable pub list : ℕ → S → List (Text × Text)
  list now s = list_items now (db.entries s)
