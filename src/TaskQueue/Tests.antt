-- ===== src/TaskQueue/Tests.antt =====
-- The theorems on the task queue at a queue of two tasks.
use st_dns.Base.{ℕ, ◌≡◌, refl, [], ◌∷◌, true, Option, ok, arith}
use st_dns.TaskQueue.{
  pending, PriorityTask, Queue, empty_queue, find_task, emplace_task, has_pk, submit, dispatch,
}
use st_dns.TaskQueue.Invariant.{IsQueue}
use st_dns.TaskQueue.Dispatch.{Dispatched, dispatch-Dispatched}
use st_dns.TaskQueue.Steps.{submitted, Reachable, made, stepped, Reachable-IsQueue}

abbrev low : PriorityTask ℕ
low = record { input = 5; priority = 1; id = 10; pk = b'a' ∷ []; status = pending }

abbrev high : PriorityTask ℕ
high = record { input = 6; priority = 9; id = 11; pk = b'b' ∷ []; status = pending }

abbrev one_task : Queue ℕ
one_task = (submit low (empty_queue 4)).1

abbrev two_tasks : Queue ℕ
two_tasks = (submit high one_task).1

two_tasks-Reachable : Reachable 4 two_tasks
unfolding find_task submit emplace_task has_pk
two_tasks-Reachable =
    stepped one_task two_tasks
      (stepped (empty_queue 4) one_task made (submitted low (empty_queue 4) refl refl))
      (submitted high one_task refl refl)

Reachable-IsQueue_example : IsQueue two_tasks
Reachable-IsQueue_example = Reachable-IsQueue 4 two_tasks (omega arith) two_tasks-Reachable

dispatch-Dispatched_example :
    (result : Option (PriorityTask ℕ)) × (q' : Queue ℕ) × (dispatch true two_tasks
      ≡ ok (result, q'))
    × Dispatched true two_tasks result q'
dispatch-Dispatched_example =
    dispatch-Dispatched true two_tasks
      (Reachable-IsQueue 4 two_tasks (omega arith) two_tasks-Reachable)
