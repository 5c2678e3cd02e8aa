-- ===== src/Protocol/Header.antt =====
-- The fixed header of a message: class dns_header of src/core/protocol/dns_message.h.
pub mod RoundTrip
use st_dns.Base.{
  ℕ, ◌+◌, ◌*◌, ◌/◌, ◌%◌, ◌^◌, ◌≡◌, refl, length, List, [], ◌∷◌, ◌++◌, Bool, true, false, Option,
  none, some, bit_and, bit_or, Outcome, ok, ◌>>=◌, load, store, leb, if◌then◌else◌, ◌==◌,
}
use st_dns.Utils.Bytes.{read}

-- The fields that a parse fills in; the constructor's values elsewhere.
pub record DnsHeader : Type 0 where
  pub id : ℕ
  pub answer_count : ℕ
  pub question_count : ℕ
  pub response_code : ℕ
  pub qr : ℕ
  pub opcode : ℕ

-- DEFAULT_LEN
abbrev pub default_len : ℕ
default_len = 12

-- `new dns_header(data, DEFAULT_LEN)` before anything is read or written.
abbrev pub blank : DnsHeader
blank = record {
  id = 0;
  answer_count = 0;
  question_count = 0;
  response_code = 0;
  qr = 0;
  opcode = 0;
}

-- `dns_header::parse(data + at, len)`; `none` is the null pointer.
unfoldable pub parse : List ℕ → ℕ → ℕ → Outcome (Option DnsHeader)
parse buf at len =
    if leb default_len len
    then (do
      high ← load buf at
      low ← load buf (at + 1)
      flags ← load buf (at + 2)
      codes ← load buf (at + 3)
      questions ← read buf 2 (at + 4) blank.question_count
      answers ← read buf 2 (at + 6) blank.answer_count
      ok (
          some (record {
            id = bit_or (bit_or blank.id (high * 2 ^ 8)) low;
            answer_count = answers;
            question_count = questions;
            response_code = bit_and codes 0xf;
            qr = bit_and flags 0x80;
            opcode = bit_and flags 0x78 / 2 ^ 3;
          })))
    else ok none

-- The second word of `init`: the flags of a query or of an answer.
unfoldable pub flags_word : ℕ → Bool → ℕ
flags_word answer_count is_answer =
    if is_answer then bit_or (if answer_count == 0 then 0x8000 else 0x8000) 0x0080 else 0x0100

-- `data[i * 2] = (tmpData[i] & maskA) >> 8; data[i * 2 + 1] = tmpData[i] & maskB`
unfoldable pub encode_words : List ℕ → List ℕ
encode_words [] = []
encode_words (word ∷ words) =
    (bit_and word (0xff * 2 ^ 8) / 2 ^ 8) ∷ bit_and word 0xff ∷ encode_words words

-- The twelve bytes that `init` writes. The counts are ints, cut to `uint16_t`.
unfoldable pub init_bytes : ℕ → ℕ → ℕ → ℕ → Bool → List ℕ
unfolding flags_word encode_words
init_bytes id host_count additional_count answer_count is_answer = encode_words (
    id
    ∷ flags_word answer_count is_answer
    ∷ (host_count % 2 ^ 16)
    ∷ (answer_count % 2 ^ 16)
    ∷ 0
    ∷ (additional_count % 2 ^ 16)
    ∷ [])

-- `generate(data + at, …)`: `init` writes the bytes and sets `id` alone in the object.
unfoldable pub generate : List ℕ → ℕ → ℕ → ℕ → ℕ → ℕ → Bool → Outcome (DnsHeader × List ℕ)
unfolding init_bytes
generate buf at id host_count additional_count answer_count is_answer = do
  buf' ← store buf at (init_bytes id host_count additional_count answer_count is_answer)
  ok (record blank { id = id }, buf')

unfoldable pub generate_answer : List ℕ → ℕ → ℕ → ℕ → ℕ → Outcome (DnsHeader × List ℕ)
unfolding generate
generate_answer buf at id host_count answer_count =
    generate buf at id host_count 0 answer_count true

-- `generateQuery`, with the number that `dns_id_generator::id16` returned.
unfoldable pub generate_query : List ℕ → ℕ → ℕ → ℕ → Outcome (DnsHeader × List ℕ)
unfolding generate
generate_query buf at id16 host_count = generate buf at id16 host_count 0 0 false

-- `updateId`
unfoldable pub update_id : List ℕ → ℕ → DnsHeader → ℕ → Outcome (DnsHeader × List ℕ)
update_id buf at header id = do
  buf' ← store buf at ((id / 2 ^ 8) ∷ bit_and id 0xff ∷ [])
  ok (record header { id = id }, buf')

pub length-init_bytes :
    (id hosts additional answers : ℕ) (is_answer : Bool)
    → length (init_bytes id hosts additional answers is_answer) ≡ default_len
unfolding init_bytes
length-init_bytes id hosts additional answers is_answer = refl
