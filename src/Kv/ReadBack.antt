-- ===== src/Kv/ReadBack.antt =====
-- What is put without a time to live is read back.
use st_dns.Base.{ℕ, ◌≡◌, refl, ap, ◌∙◌, [], Option, none, some, if◌then◌else◌}
use st_dns.Base.Text.{Text, text_eq_refl}
use st_dns.Protocol.Domain.{c_str}
use st_dns.Kv.{Db, Codec, IsDb, IsCodec, not_expired, get, put, stored_value}

module _ {ℓ} {S : Type ℓ} (db : Db S) (codec : Codec) (lawful : IsDb db)
    (read_back : IsCodec codec) where
  pub get-put_whole :
      (now later : ℕ) (s : S) (key value : Text)
      → c_str value ≡ value
      → get db codec later (put db codec now s key value 0) key
        ≡ (value, put db codec now s key value 0)
  unfolding get put stored_value not_expired
  get-put_whole now later s key value plain =
      ap read found ∙ rw (read_back.parse-serialize (stored_value now value 0), plain) refl
    where
      s' : S
      s' = put db codec now s key value 0

      read : Option Text → Text × S
      read o = elim o [
        | none ↦ ([], s')
        | some bytes ↦
            let v = codec.parse bytes in
            if not_expired later v then (v.content, s') else ([], db.delete s' key)
      ]

      found : db.get s' key ≡ some (codec.serialize (stored_value now value 0))
      found =
          lawful.get-put s key (codec.serialize (stored_value now value 0)) key
          ∙ rw (text_eq_refl key) refl
