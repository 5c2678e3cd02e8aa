-- ===== src/TaskQueue/Steps.antt =====
-- Sequences of submissions, dispatches and completions.
use st_dns.Base.{ℕ, ◌^◌, ◌<◌, ◌≡◌, Bool, Option, none, ok}
use st_dns.TaskQueue.{
  pending, running, PriorityTask, Queue, empty_queue, find_task, submit, dispatch, complete,
}
use st_dns.TaskQueue.Find.{HasStatus}
use st_dns.TaskQueue.Invariant.{IsQueue, empty_queue-IsQueue, submit-IsQueue, complete-IsQueue}
use st_dns.TaskQueue.Dispatch.{dispatch-IsQueue}

-- A task under an id that is new is submitted; the executor completes a task that runs.
pub data Step {A : Type 0} : Queue A → Queue A → Type 0 where
  submitted :
      (task : PriorityTask A) (q : Queue A)
      → find_task task.id q.tasks ≡ none
      → task.status ≡ pending
      → Step q (submit task q).1
  dispatched :
      (has_key : Bool) (q q' : Queue A) (started : Option (PriorityTask A))
      → dispatch has_key q ≡ ok (started, q')
      → Step q q'
  completed :
      (task : PriorityTask A) (q : Queue A)
      → HasStatus running q.tasks task.id
      → Step q (complete task q)

module _ {A : Type 0} where
  -- Every step keeps the queue well formed.
  pub Step-IsQueue : (q q' : Queue A) → Step q q' → IsQueue q → IsQueue q'
  Step-IsQueue _ _ (submitted task q fresh waits) w = submit-IsQueue task q fresh waits w
  Step-IsQueue _ _ (dispatched has_key q q' result h) w = dispatch-IsQueue has_key q q' result h w
  Step-IsQueue _ _ (completed task q runs) w = complete-IsQueue task q runs w

-- The queues that steps lead to.
pub data Reachable {A : Type 0} (max_running : ℕ) : Queue A → Type 0 where
  made : Reachable max_running (empty_queue max_running)
  stepped : (q q' : Queue A) → Reachable max_running q → Step q q' → Reachable max_running q'

-- Whatever sequence of submissions under new ids, dispatches and completions of tasks that run led
-- to a queue, it is well formed: the count of the tasks that run is right and within its bound,
-- and the entries of the heap are tasks that wait, each once.
pub Reachable-IsQueue :
    {A : Type 0} (max_running : ℕ) (q : Queue A)
    → max_running < 2 ^ 32
    → Reachable max_running q
    → IsQueue q
Reachable-IsQueue max_running _ h made = empty_queue-IsQueue max_running h
Reachable-IsQueue max_running _ h (stepped q q' r s) =
    Step-IsQueue q q' s (Reachable-IsQueue max_running q h r)
