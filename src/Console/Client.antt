-- ===== src/Console/Client.antt =====
-- The console's client: src/common/main/console/client.h and src/common/main/command/dns_command.h.
use st_dns.Base.{
  ℕ, ◌+◌, List, [], ◌∷◌, ◌++◌, Bool, true, false, Option, none, some, Outcome, ok, err, thrown,
  ◌>>=◌, store, drop, length, replicate, ltb, if◌then◌else◌,
}
use st_dns.Base.Text.{Text, codes, text_eq}
use st_dns.Protocol.Domain.{c_str}
use st_dns.Utils.Strings.{split}
use st_dns.Utils.Ipv4.{ip_to_str}

-- `result.substr(pos)`
abbrev pub substr : Text → ℕ → Outcome Text
substr result pos = if ltb (length result) pos then err thrown else ok (drop pos result)

-- The buffer behind the exchange: `none` where no reply came in time.
unfoldable pub receive_reply : Option (List ℕ) → Outcome (List ℕ)
receive_reply none = ok (replicate 10240 0)
receive_reply (some bytes) = do
  res ← store (replicate 10240 0) 0 bytes
  store res (length bytes + 1) (0 ∷ [])

-- What the client makes of the text in its buffer.
unfoldable pub read_result : (Text → Text) → Text → Outcome (Bool × Text)
read_result trim result = do
  splits ← split result (b'\n' ∷ []) 0 0
  elim splits [
    | [] ↦ ok (false, codes "network error!")
    | first ∷ others ↦
        if text_eq first (codes "success")
        then (substr result 7 >>= λ text. ok (true, trim text))
        else (substr result 6 >>= λ text. ok (false, trim text))
  ]

-- `command`, behind the exchange. The buffer is read up to its first 0.
unfoldable pub read_reply : (Text → Text) → Option (List ℕ) → Outcome (Bool × Text)
read_reply trim reply = receive_reply reply >>= λ res. read_result trim (c_str res)

-- The command that `reverse_resolve` sends.
unfoldable pub reverse_resolve_command : ℕ → Text
reverse_resolve_command ip = codes "dns reverse resolve --ip=" ++ ip_to_str ip

-- `reverse_resolve`, behind the exchange.
unfoldable pub reverse_resolve_reply : (Text → Text) → Option (List ℕ) → Outcome (List Text)
reverse_resolve_reply trim reply = do
  (success, text) ← read_reply trim reply
  if success then split text (b',' ∷ []) 0 0 else ok []
