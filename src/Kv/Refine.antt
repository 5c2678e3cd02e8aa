-- ===== src/Kv/Refine.antt =====
-- The store on disk keeps the promise of the map.
use st_dns.Base.{
  ℕ, ◌+◌, ◌/◌, ◌%◌, ◌^◌, ◌<◌, ◌==◌, ◌≤◌, ◌≡◌, refl, sym, ap, subst, ◌∙◌, List, [], ◌∷◌, Bool, true,
  false, Option, none, some, if◌then◌else◌, arith, if_either, Bool-cases, Option-cases, inl, inr,
  ◌⊎◌,
}
use st_dns.Base.Text.{Text, text_eq, text_eq→eq}
use st_dns.Base.Assoc.{lookup}
use st_dns.Protocol.Domain.{c_str}
use native.Mathlib.Nat.{mod-eq_of_lt}
use st_dns.Kv.{
  Value, Db, Codec, IsDb, IsCodec, not_expired, get, put, stored_value, erase, erase_all, clear,
}
use st_dns.Kv.Model.{
  Lasting, seen_at, lasting, IsKept, KvMap, set, Op, get_op, put_op, erase_op, clear_op, run_map,
  run_store,
}

-- What has expired stays expired.
stays_expired :
    (now later : ℕ) (v : Value)
    → now ≤ later
    → not_expired now v ≡ false
    → not_expired later v ≡ false
unfolding not_expired
stays_expired now later v h e = ground (arith, h, e)

-- What is seen of a stored value at a time.
unfoldable visible : ℕ → Option Value → Text
visible now none = []
visible now (some v) = if not_expired now v then v.content else []

-- A value that is put is seen as long as it is to last.
visible-stored_value :
    (now later : ℕ) (value : Text) (expire : ℕ)
    → c_str value ≡ value
    → now / 1000 + expire < 2 ^ 32
    → visible later (some (stored_value now value expire))
      ≡ seen_at later (some (lasting now value expire))
unfolding visible stored_value not_expired
visible-stored_value now later value expire plain small = elim (Bool-cases (expire == 0)) [
  | inl e ↦ rw (plain, e) (rw e refl)
  | inr e ↦
      let fits : (now / 1000 + expire) % 2 ^ 32 ≡ now / 1000 + expire = mod-eq_of_lt small in
      let some_time : (now / 1000 + expire == 0) ≡ false = ground arith in
      rw (plain, e, fits, some_time) refl
]

-- The value that a store has for a key.
unfoldable view : Codec → Option Text → Option Value
view codec none = none
view codec (some bytes) = some (codec.parse bytes)

module _ {ℓ} {S : Type ℓ} (db : Db S) (codec : Codec) (lawful : IsDb db)
    (read_back : IsCodec codec) where
  -- From this time on the store and the map show the same.
  abbrev Agree : ℕ → S → KvMap → Type 0
  Agree now s m =
      (later : ℕ) (key : Text)
      → now ≤ later
      → visible later (view codec (db.get s key)) ≡ seen_at later (m key)

  put-Agree :
      (now : ℕ) (s : S) (m : KvMap) (key value : Text) (expire : ℕ)
      → c_str value ≡ value
      → now / 1000 + expire < 2 ^ 32
      → Agree now s m
      → Agree now
          (put db codec now s key value expire)
          (set m key (some (lasting now value expire)))
  unfolding put view
  put-Agree now s m key value expire plain small h later other l =
      rw (lawful.get-put s key (codec.serialize (stored_value now value expire)) other)
        (by_key (text_eq key other))
    where
      v : Value
      v = stored_value now value expire

      kept : Lasting
      kept = lasting now value expire

      by_key :
          (b : Bool)
          → visible later (view codec (if b then some (codec.serialize v) else db.get s other))
            ≡ seen_at later (if b then some kept else m other)
      by_key true =
          ap (λ x. visible later (some x)) (read_back.parse-serialize v)
          ∙ visible-stored_value now later value expire plain small
      by_key false = h later other l

  erase-Agree :
      (now : ℕ) (s : S) (m : KvMap) (key : Text)
      → Agree now s m
      → Agree now (erase db codec s key) (set m key none)
  unfolding erase view visible
  erase-Agree now s m key h later other l =
      rw (lawful.get-delete s key other) (by_key (text_eq key other))
    where
      by_key :
          (b : Bool)
          → visible later (view codec (if b then none else db.get s other))
            ≡ seen_at later (if b then none else m other)
      by_key true = refl
      by_key false = h later other l

  get-erase_all :
      (items : List (Text × Text)) (s : S) (key : Text)
      → db.get (erase_all db codec items s) key
        ≡ elim (lookup key items) [ none ↦ db.get s key | some v ↦ none ]
  unfolding erase_all erase lookup
  get-erase_all [] s key = refl
  get-erase_all ((k, v) ∷ items) s key =
      get-erase_all items (erase db codec s k) key
      ∙ ap (λ (x : Option Text). elim (lookup key items) [ none ↦ x | some v' ↦ none ])
          (lawful.get-delete s k key)
      ∙ by_key (text_eq k key) (lookup key items)
    where
      by_key :
          (b : Bool) (o : Option Text)
          → Path
              (Option Text)
              (elim o [ none ↦ (if b then none else db.get s key) | some v' ↦ none ])
              (elim (if b then some v else o) [ none ↦ db.get s key | some v' ↦ none ])
      by_key true none = refl
      by_key true (some v') = refl
      by_key false none = refl
      by_key false (some v') = refl

  get-clear : (s : S) (key : Text) → db.get (clear db codec s) key ≡ none
  unfolding clear
  get-clear s key =
      get-erase_all (db.entries s) s key
      ∙ by_lookup (lookup key (db.entries s)) (lawful.get-entries s key)
    where
      by_lookup :
          (o : Option Text)
          → db.get s key ≡ o
          → Path (Option Text) (elim o [ none ↦ db.get s key | some v' ↦ none ]) none
      by_lookup none e = e
      by_lookup (some v') e = refl

  clear-Agree : (now : ℕ) (s : S) (m : KvMap) → Agree now (clear db codec s) (λ key. none)
  unfolding view visible
  clear-Agree now s m later key l = rw (get-clear s key) refl

  get-visible :
      (now : ℕ) (s : S) (key : Text)
      → (get db codec now s key).0 ≡ visible now (view codec (db.get s key))
  unfolding get view visible
  get-visible now s key = elim (Option-cases (db.get s key)) [
    | inl e ↦ rw (e, get) refl
    | inr (bytes, e) ↦
        rw (e, get) (either (codec.parse bytes).content (not_expired now (codec.parse bytes)))
  ]
    where
      either :
          (v : Text) (b : Bool)
          → (if◌then◌else◌ {A = Text × S} b (v, s) ([], db.delete s key)).0 ≡ (if b then v else [])
      either v true = refl
      either v false = refl

  get-Agree :
      (now : ℕ) (s : S) (m : KvMap) (key : Text)
      → Agree now s m
      → Agree now (get db codec now s key).1 m
  unfolding get view visible
  get-Agree now s m key h later other l = elim (Option-cases (db.get s key)) [
    | inl e ↦ rw (e, get) (h later other l)
    | inr (bytes, e) ↦
        rw (e, get)
          (if_either
            (λ (r : Text × S).
              visible later (view codec (db.get r.1 other)) ≡ seen_at later (m other))
            (not_expired now (codec.parse bytes)) (λ alive. h later other l)
            (λ expired.
              rw (lawful.get-delete s key other)
                (by_key bytes e expired (Bool-cases (text_eq key other)))))
  ]
    where
      Shown : Option Text → Type 0
      Shown o = visible later (view codec o) ≡ seen_at later (m other)

      by_key :
          (bytes : Text)
          → db.get s key ≡ some bytes
          → not_expired now (codec.parse bytes) ≡ false
          → (text_eq key other ≡ true) ⊎ (text_eq key other ≡ false)
          → Shown (if text_eq key other then none else db.get s other)
      by_key bytes e expired (inl same) =
          rw same
            (sym gone ∙ shown ∙ ap (λ (k : Text). seen_at later (m k)) (text_eq→eq key other same))
        where
          gone : Path Text (visible later (some (codec.parse bytes))) []
          gone = rw (stays_expired now later (codec.parse bytes) l expired) refl

          shown : visible later (some (codec.parse bytes)) ≡ seen_at later (m key)
          shown =
              subst (λ (o : Option Text). visible later (view codec o) ≡ seen_at later (m key)) e
                (h later key l)
      by_key bytes e expired (inr differs) = rw differs (h later other l)

  later-Agree : (now delay : ℕ) (s : S) (m : KvMap) → Agree now s m → Agree (now + delay) s m
  later-Agree now delay s m h later key l = h later key (omega (arith, l))

  run_store-Agree :
      (now : ℕ) (s : S) (m : KvMap) (ops : List (ℕ × Op))
      → IsKept now ops
      → Agree now s m
      → run_store db codec now s ops ≡ run_map now m ops
  unfolding run_store run_map
  run_store-Agree now s m [] k h = refl
  run_store-Agree now s m ((delay, get_op key) ∷ ops) k h =
      let agree = later-Agree now delay s m h in
      let first = get-visible (now + delay) s key ∙ agree (now + delay) key (omega arith) in
      let rest =
        run_store-Agree (now + delay) (get db codec (now + delay) s key).1 m ops k
          (get-Agree (now + delay) s m key agree) in
      rw (first, rest) refl
  run_store-Agree now s m ((delay, put_op key value expire) ∷ ops) k h =
      run_store-Agree (now + delay) _ _ ops k.2
        (put-Agree (now + delay) s m key value expire k.0 k.1 (later-Agree now delay s m h))
  run_store-Agree now s m ((delay, erase_op key) ∷ ops) k h =
      run_store-Agree (now + delay) _ _ ops k
        (erase-Agree (now + delay) s m key (later-Agree now delay s m h))
  run_store-Agree now s m ((delay, clear_op) ∷ ops) k h =
      run_store-Agree (now + delay) _ _ ops k (clear-Agree (now + delay) s m)

-- For any sequence of get, put, erase and clear at times that do not run backwards, an empty store
-- on disk returns what a map returns in which each value is seen until its deadline, that is for
-- its expiry in seconds after it was put, or for ever when that is 0. What is put has no 0 in it,
-- the deadlines fit into 32 bits, and leveldb and protobuf keep what they are given.
pub run_store-run_map {ℓ} :
    {S : Type ℓ} (db : Db S) (codec : Codec)
    → IsDb db
    → IsCodec codec
    → (now : ℕ) (s : S) → ((key : Text) → db.get s key ≡ none)
    → (ops : List (ℕ × Op)) → IsKept now ops
    → run_store db codec now s ops ≡ run_map now (λ key. none) ops
unfolding view visible
run_store-run_map db codec lawful read_back now s empty ops kept =
    run_store-Agree db codec lawful read_back now s (λ key. none) ops kept
      (λ later key l. rw (empty key) refl)
