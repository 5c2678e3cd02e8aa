-- ===== src/Kv/Model.antt =====
-- What a store promises, as a function from keys to values, and the operations of a client over time.
-- The promise knows nothing of how the store keeps a value: a value is seen until its deadline, if it
-- has one.
use st_dns.Base.{
  ℕ, ◌+◌, ◌/◌, ◌^◌, ◌<◌, ◌≡◌, List, [], ◌∷◌, Option, none, some, ltb, ◌==◌, if◌then◌else◌,
}
use st_dns.Base.Text.{Text, text_eq}
use st_dns.Protocol.Domain.{c_str}
use st_dns.Kv.{Db, Codec, get, put, erase, clear}

-- A value, and the second from which on it is not seen any more.
pub record Lasting : Type 0 where
  pub value : Text
  pub deadline : Option ℕ

-- What is seen at a time in milliseconds.
abbrev pub seen_at : ℕ → Option Lasting → Text
seen_at now none = []
seen_at now (some kept) = elim kept.deadline [
  | none ↦ kept.value
  | some second ↦ if ltb (now / 1000) second then kept.value else []
]

-- A value that is to be kept for this many seconds; 0 stands for ever.
abbrev pub lasting : ℕ → Text → ℕ → Lasting
lasting now value expire = record {
  value = value;
  deadline = if expire == 0 then none else some (now / 1000 + expire);
}

abbrev pub KvMap : Type 0
KvMap = Text → Option Lasting

abbrev pub set : KvMap → Text → Option Lasting → KvMap
set m key value other = if text_eq key other then value else m other

-- An operation of a client. Keys are not looked at while they expire.
pub data Op : Type 0 where
  get_op : Text → Op
  put_op : Text → Text → ℕ → Op
  erase_op : Text → Op
  clear_op : Op

-- What `get` returns, for operations that follow each other after these milliseconds.
unfoldable pub run_map : ℕ → KvMap → List (ℕ × Op) → List Text
run_map now m [] = []
run_map now m ((delay, get_op key) ∷ ops) =
    seen_at (now + delay) (m key) ∷ run_map (now + delay) m ops
run_map now m ((delay, put_op key value expire) ∷ ops) =
    run_map (now + delay) (set m key (some (lasting (now + delay) value expire))) ops
run_map now m ((delay, erase_op key) ∷ ops) = run_map (now + delay) (set m key none) ops
run_map now m ((delay, clear_op) ∷ ops) = run_map (now + delay) (λ key. none) ops

-- What is put has no 0 in it, and its deadline fits into 32 bits.
abbrev pub IsKept : ℕ → List (ℕ × Op) → Type 0
IsKept now [] = Unit {0}
IsKept now ((delay, get_op key) ∷ ops) = IsKept (now + delay) ops
IsKept now ((delay, put_op key value expire) ∷ ops) =
    (c_str value ≡ value) × ((now + delay) / 1000 + expire < 2 ^ 32) × IsKept (now + delay) ops
IsKept now ((delay, erase_op key) ∷ ops) = IsKept (now + delay) ops
IsKept now ((delay, clear_op) ∷ ops) = IsKept (now + delay) ops

-- The same on the store.
unfoldable pub run_store {ℓ} : {S : Type ℓ} → Db S → Codec → ℕ → S → List (ℕ × Op) → List Text
run_store db codec now s [] = []
run_store db codec now s ((delay, get_op key) ∷ ops) =
    let (found, s') = get db codec (now + delay) s key in
    found ∷ run_store db codec (now + delay) s' ops
run_store db codec now s ((delay, put_op key value expire) ∷ ops) =
    run_store db codec (now + delay) (put db codec (now + delay) s key value expire) ops
run_store db codec now s ((delay, erase_op key) ∷ ops) =
    run_store db codec (now + delay) (erase db codec s key) ops
run_store db codec now s ((delay, clear_op) ∷ ops) =
    run_store db codec (now + delay) (clear db codec s) ops
