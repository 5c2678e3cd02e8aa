-- ===== src/Console.antt =====
-- The console of the server and its client: src/common/main/console. boost's `trim` and its
-- program_options are a record of functions here.
pub mod Commands
pub mod Client
pub mod Buffers
pub mod Boost
pub mod Asked
pub mod Answered
pub mod Remote
mod Tests
use st_dns.Base.{
  ℕ, ◌+◌, List, [], ◌∷◌, ◌++◌, Bool, true, false, not, ◌&&◌, ◌||◌, Outcome, ok, ◌>>=◌, store, take,
  length, ◌==◌, if◌then◌else◌,
}
use st_dns.Base.Text.{Text, codes, text_eq}
use st_dns.Protocol.Domain.{c_str}
use st_dns.Utils.Strings.{split}

-- The options that the console knows, "" by default.
pub record Options : Type 0 where
  pub domain : Text
  pub ip : Text

-- What the code uses of boost. An option that cannot be parsed is an exception.
pub record BoostFunctions : Type 0 where
  pub trim : Text → Text
  pub parse_options : List Text → Outcome Options

abbrev pub is_dash : Text → Bool
is_dash [] = false
is_dash (ch ∷ item) = ch == b'-'

-- The loop of `parse_command`: the commands, and from the first dash on the options.
unfoldable pub sort_items : (Text → Text) → Bool → List Text → List Text × List Text
sort_items trim is_option [] = ([], [])
sort_items trim is_option (item ∷ items) =
    let item' = trim item in
    let option = is_option || is_dash item' in
    let (commands, options) = sort_items trim option items in
    if option then (commands, item' ∷ options) else (item' ∷ commands, options)

-- `parse_command`
unfoldable pub parse_command : BoostFunctions → Text → Outcome (List Text × Options)
parse_command boost command = do
  splits ← split command (b' ' ∷ []) 0 0
  let items : List Text × List Text = sort_items boost.trim false splits
  options ← boost.parse_options items.1
  ok (items.0, options)

-- A `udp_console` around the state of what its commands work on.
pub record UdpConsole {ℓ} (St : Type ℓ) : Type ℓ where
  pub command_buffer : List ℕ
  pub response_buffer : List ℕ
  pub state : St

-- The text of a command: the datagram is ended by a 0 in the buffer.
unfoldable pub read_command : (Text → Text) → List ℕ → List ℕ → Outcome (Text × List ℕ)
read_command trim command_buffer bytes = do
  received ← store command_buffer 0 bytes
  ended ← store received (length bytes) (0 ∷ [])
  ok (trim (c_str ended), ended)

-- `send_response`: the datagram that is sent, and the buffer.
unfoldable pub send_response : List ℕ → Text → Outcome (List ℕ × List ℕ)
send_response response_buffer result = do
  filled ← store response_buffer 0 result
  ok (take (length result) filled, filled)

abbrev pub response_text : Bool × Text → Text
response_text (true, text) = codes "success\n" ++ (text ++ (b'\n' ∷ []))
response_text (false, text) = codes "failed\n" ++ (text ++ (b'\n' ∷ []))

-- The handler of `receive`, where `impl` carries out a command: the response, and the console.
unfoldable pub receive {ℓ} :
    {St : Type ℓ}
    → BoostFunctions
    → (List Text → Options → St → Outcome ((Bool × Text) × St))
    → UdpConsole St
    → List ℕ
    → Outcome (List ℕ × UdpConsole St)
receive boost impl console bytes = do
  (command, command_buffer) ← read_command boost.trim console.command_buffer bytes
  (commands, options) ← parse_command boost command
  (result, state) ← impl commands options console.state
  (sent, response_buffer) ← send_response console.response_buffer (response_text result)
  ok (
    sent,
    record { command_buffer = command_buffer; response_buffer = response_buffer; state = state },
  )
