-- ===== src/Server/Session/Steps.antt =====
-- The handlers of a session as steps, in whatever order the timer, the remote server and the sending
-- complete.
use st_dns.Base.{ℕ, suc, ◌+◌, ◌≤◌, ◌≡◌, List, Bool, Option, Outcome, ok, ◌>>=◌, length}
use st_dns.Client.{Forwarded}
use st_dns.Server.Session.{
  Phase, receiving, waiting, forwarding, sending, ended, Session, World, Tasks, timer_expired,
  forwarded, end_session, received,
}

-- What completes: the receiving, the timer, the request to a remote server, the sending.
pub data Event : Type 0 where
  datagram : Bool → List ℕ → Event
  timer : Event
  remote : Option Forwarded → Event
  written : Event

-- Which completion a session waits for.
pub data Awaits : Phase → Event → Type 0 where
  awaits_datagram : (failed : Bool) (bytes : List ℕ) → Awaits receiving (datagram failed bytes)
  awaits_timer : Awaits waiting timer
  awaits_remote : (response : Option Forwarded) → Awaits forwarding (remote response)
  awaits_written : Awaits sending written

unfoldable pub handle : World → Event → Session → Tasks → Outcome (Session × Tasks)
handle w (datagram failed bytes) s tasks = received w failed bytes s tasks
handle w timer s tasks = timer_expired w s >>= λ s'. ok (s', tasks)
handle w (remote response) s tasks = forwarded w response s >>= λ s'. ok (s', tasks)
handle w written s tasks = end_session s >>= λ s'. ok (s', tasks)

-- How many completions are still to come at most.
unfoldable pub remaining : Phase → ℕ
remaining receiving = 3
remaining waiting = 2
remaining forwarding = 2
remaining sending = 1
remaining ended = 0

-- How many responses are still to be sent at most.
unfoldable pub unsent : Phase → ℕ
unsent receiving = 1
unsent waiting = 1
unsent forwarding = 1
unsent sending = 0
unsent ended = 0

-- No session sends a second response.
abbrev pub IsSession : Session → Type 0
IsSession s = length s.sent + unsent s.phase ≤ 1

-- A handler that a session waits for runs, in whatever state the rest of the server is then.
infix 20 ◌⟶◌
pub data ◌⟶◌ : Session × Tasks → Session × Tasks → Type 0 where
  step :
      (w : World) (event : Event) (s : Session) (tasks : Tasks) (r : Session × Tasks)
      → Awaits s.phase event
      → handle w event s tasks ≡ ok r
      → (s, tasks) ⟶ r

pub data Steps : ℕ → Session × Tasks → Session × Tasks → Type 0 where
  no_step : (r : Session × Tasks) → Steps 0 r r
  one_more : (n : ℕ) (r r' r'' : Session × Tasks) → r ⟶ r' → Steps n r' r'' → Steps (suc n) r r''
