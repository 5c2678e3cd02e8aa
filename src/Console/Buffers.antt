-- ===== src/Console/Buffers.antt =====
-- Texts in the buffers of the console and of its client.
use st_dns.Base.{
  take-drop, ℕ, zero, suc, ◌+◌, ◌-◌, ◌≤◌, ◌<◌, ◌≡◌, ◌≢◌, refl, sym, ap, ◌∙◌, [], ◌∷◌, ◌++◌,
  append_assoc, false, ok, ◌>>=◌, store, store-append, store_zeros, replicate, take, drop,
  take-append, length, length-append, length-drop, some, none, ◌==◌, All, arith,
}
use st_dns.Base.Text.{Text, find}
use st_dns.Protocol.Domain.{c_str}
use st_dns.Utils.Strings.Join.{find-cons}
use st_dns.Console.{read_command, send_response}
use st_dns.Console.Client.{receive_reply}

-- No 0, which would end a C string.
abbrev pub NoZero : Text → Type 0
NoZero text = All (λ (ch : ℕ). ch ≢ 0) text

pub find-NoZero : (text : Text) → find 0 text ≡ none → NoZero text
find-NoZero [] h = tt
find-NoZero (ch ∷ text) h =
    let (differs, later) = find-cons 0 ch text h in (not_zero ch differs, find-NoZero text later)
  where
    not_zero : (x : ℕ) → (0 == x) ≡ false → x ≢ 0
    not_zero x e = ground (arith, e)

c_str_before : (text rest : Text) → NoZero text → c_str (text ++ (0 ∷ rest)) ≡ text
unfolding c_str
c_str_before [] rest h = refl
c_str_before (ch ∷ text) rest h =
    let k : ch ≢ 0 = h.0 in ground (arith, k, c_str_before text rest h.1)

length-take_within : (n : ℕ) (text : Text) → n ≤ length text → length (take n text) ≡ n
length-take_within zero text h = refl
length-take_within (suc n) [] h = absurd (omega (arith, h))
length-take_within (suc n) (ch ∷ text) h =
    omega (arith, length-take_within n text (omega (arith, h)))

-- A text is written over the front of a buffer, or behind its front.
store_over :
    (front buf bytes : Text)
    → length bytes ≤ length buf
    → store (front ++ buf) (length front) bytes ≡ ok (front ++ (bytes ++ drop (length bytes) buf))
store_over front buf bytes h =
    ap (λ (b : Text). store (front ++ b) (length front) bytes) (sym (take-drop (length bytes) buf))
    ∙ store-append front (take (length bytes) buf) (drop (length bytes) buf) bytes (length front)
        refl (length-take_within (length bytes) buf h)

pub read_command_fits :
    (trim : Text → Text) (buf bytes : Text)
    → NoZero bytes
    → length bytes < length buf
    → read_command trim buf bytes ≡ ok (trim bytes, bytes ++ (0 ∷ drop 1 (drop (length bytes) buf)))
unfolding read_command
read_command_fits trim buf bytes plain h =
    rw
      (
        store_over [] buf bytes (omega (arith, h)),
        store_over bytes (drop (length bytes) buf) (0 ∷ [])
            (omega (arith, h, length-drop (length bytes) buf)),
        c_str_before bytes (drop 1 (drop (length bytes) buf)) plain,
      )
      refl

pub send_response_fits :
    (buf result : Text)
    → length result ≤ length buf
    → send_response buf result ≡ ok (result, result ++ drop (length result) buf)
unfolding send_response
send_response_fits buf result h =
    rw
      (
        store_over [] buf result h,
        take-append result (drop (length result) buf) (length result) refl,
      )
      refl

pub receive_reply_fits :
    (bytes : Text)
    → NoZero bytes
    → length bytes + 2 ≤ 10240
    → (res : Text) × ((receive_reply (some bytes) ≡ ok res) × (c_str res ≡ bytes))
unfolding receive_reply
receive_reply_fits bytes plain h = (res, (e, c_str_before bytes (0 ∷ replicate k 0) plain))
  where
    k : ℕ
    k = 10240 - (length bytes + 2)

    res : Text
    res = bytes ++ (0 ∷ (0 ∷ replicate k 0))

    first : store (replicate 10240 0) 0 bytes ≡ ok (bytes ++ (0 ∷ replicate (suc k) 0))
    first = store_zeros [] bytes 0 10240 (suc (suc k)) refl (omega (arith, h))

    second : store (bytes ++ (0 ∷ replicate (suc k) 0)) (length bytes + 1) (0 ∷ []) ≡ ok res
    second =
        ap (λ (b : Text). store b (length bytes + 1) (0 ∷ []))
          (sym (append_assoc bytes (0 ∷ []) (replicate (suc k) 0)))
        ∙ store_zeros (bytes ++ (0 ∷ [])) (0 ∷ []) (length bytes + 1) (suc k) k
            (omega (arith, length-append bytes (0 ∷ []))) (omega arith)
        ∙ ap ok (append_assoc bytes (0 ∷ []) (0 ∷ replicate k 0))

    e :
        (store (replicate 10240 0) 0 bytes >>= λ buf. store buf (length bytes + 1) (0 ∷ []))
        ≡ ok res
    e = rw first second
