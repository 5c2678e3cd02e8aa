-- ===== src/Protocol/Header/RoundTrip.antt =====
-- What `parse` finds in the bytes that `init` wrote.
use st_dns.Base.{
  ℕ, ◌+◌, ◌*◌, ◌/◌, ◌%◌, ◌^◌, ◌≤◌, ◌<◌, ◌≡◌, refl, ◌∙◌, List, [], ◌∷◌, ◌++◌, Bool, true, false,
  Option, some, bit_and, bit_or, Outcome, ok, load, load-shift, le→leb, if◌then◌else◌, ◌==◌, arith,
  length,
}
use st_dns.Base.Bits.{byte_at, bit_and-ones, bit_or-shifted, zero-bit_or}
use st_dns.Utils.Bytes.{read, read-shift}
use st_dns.Protocol.Header.{DnsHeader, default_len, parse, flags_word, encode_words, init_bytes}

-- A header is read from its own bytes alone.
pub parse-shift :
    (front buf : List ℕ) (at j len : ℕ)
    → at ≡ length front + j
    → parse (front ++ buf) at len ≡ parse buf j len
unfolding parse
parse-shift front buf at j len h = rw (
  load-shift front buf at j h,
  load-shift front buf (at + 1) (j + 1) (omega arith),
  load-shift front buf (at + 2) (j + 2) (omega arith),
  load-shift front buf (at + 3) (j + 3) (omega arith),
  read-shift front buf 2 (at + 4) (j + 4) 0 (omega arith),
  read-shift front buf 2 (at + 6) (j + 6) 0 (omega arith),
)

-- The two bytes of a word, put together as `parse` and `read` do.
join_id :
    (word : ℕ)
    → word < 2 ^ 16
    → bit_or (bit_or 0 (bit_and word 65280 / 256 * 256)) (bit_and word 255) ≡ word
join_id word h = rw (zero-bit_or (bit_and word 65280 / 256 * 256)) (
    bit_or-shifted 8 (bit_and word 65280 / 256) (bit_and word 255)
      (omega (arith, bit_and-ones 8 word))
    ∙ omega (arith, byte_at 8 word, bit_and-ones 8 word))

join_count :
    (word : ℕ)
    → word < 2 ^ 16
    → bit_or (bit_or 0 (bit_and word 65280 / 256 * 256)) (bit_and word 255 * 1) ≡ word
join_count word h =
    let e : bit_and word 255 * 1 ≡ bit_and word 255 = omega arith in rw e (join_id word h)

parse-encode_words :
    (rest words : List ℕ) (id flags questions answers len : ℕ)
    → default_len ≤ len
    → id < 2 ^ 16
    → questions < 2 ^ 16
    → answers < 2 ^ 16
    → parse (encode_words (id ∷ flags ∷ questions ∷ answers ∷ words) ++ rest) 0 len
      ≡ ok (
          some (record {
            id = id;
            answer_count = answers;
            question_count = questions;
            response_code = bit_and (bit_and flags 255) 0xf;
            qr = bit_and (bit_and flags 65280 / 256) 0x80;
            opcode = bit_and (bit_and flags 65280 / 256) 0x78 / 2 ^ 3;
          }))
unfolding parse encode_words read load
parse-encode_words rest words id flags questions answers len hlen hid hq ha =
    rw (le→leb default_len len hlen, join_id id hid, join_count questions hq, join_count answers ha)

if_same : (b : Bool) (x : ℕ) → (if b then x else x) ≡ x
if_same true x = refl
if_same false x = refl

flags_word_lem :
    (answers : ℕ) (is_answer : Bool)
    → flags_word answers is_answer ≡ (if is_answer then 0x8080 else 0x0100)
unfolding flags_word
flags_word_lem answers true = rw (if_same (answers == 0) 0x8000)
flags_word_lem answers false = refl

-- For an id of 16 bits and a length of at least a header, `parse` reads from the bytes of `init`,
-- wherever they stand, the id, the counts cut to 16 bits and the flags.
pub parse-init_bytes :
    (front rest : List ℕ) (id hosts additional answers : ℕ) (is_answer : Bool) (len at : ℕ)
    → at ≡ length front
    → default_len ≤ len
    → id < 2 ^ 16
    → parse (front ++ (init_bytes id hosts additional answers is_answer ++ rest)) at len
      ≡ ok (
          some (record {
            id = id;
            answer_count = answers % 2 ^ 16;
            question_count = hosts % 2 ^ 16;
            response_code = 0;
            qr = if is_answer then 0x80 else 0;
            opcode = 0;
          }))
unfolding init_bytes
parse-init_bytes front rest id hosts additional answers is_answer len at hat hlen hid =
    parse-shift front _ at 0 len (omega arith)
    ∙ parse-encode_words rest (0 ∷ (additional % 2 ^ 16) ∷ []) id (flags_word answers is_answer)
        (hosts % 2 ^ 16) (answers % 2 ^ 16) len hlen hid (omega arith) (omega arith)
    ∙ rw (flags_word_lem answers is_answer) (bits is_answer)
  where
    word : Bool → ℕ
    word b = if b then 0x8080 else 0x0100

    found : ℕ → ℕ → ℕ → Outcome (Option DnsHeader)
    found r q o = ok (
        some (record {
          id = id;
          answer_count = answers % 2 ^ 16;
          question_count = hosts % 2 ^ 16;
          response_code = r;
          qr = q;
          opcode = o;
        }))

    bits :
        (b : Bool)
        → found
            (bit_and (bit_and (word b) 255) 0xf)
            (bit_and (bit_and (word b) 65280 / 256) 0x80)
            (bit_and (bit_and (word b) 65280 / 256) 0x78 / 2 ^ 3)
          ≡ found 0 (if b then 0x80 else 0) 0
    bits true = refl
    bits false = refl
