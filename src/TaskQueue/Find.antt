-- ===== src/TaskQueue/Find.antt =====
-- Lookup, change and removal in the map of tasks.
use st_dns.Base.{ℕ, suc, ◌≡◌, ◌≢◌, refl, List, [], ◌∷◌, some, arith}
use st_dns.TaskQueue.{
  TaskStatus, pending, running, PriorityTask, find_task, set_running, erase_task,
}

-- How many tasks run.
abbrev pub count_running {ℓ} : {A : Type ℓ} → List (PriorityTask A) → ℕ
count_running [] = 0
count_running (task ∷ tasks) = elim task.status [
  | pending ↦ count_running tasks
  | running ↦ suc (count_running tasks)
]

-- The map holds a task under this id that waits, or runs.
abbrev pub HasStatus {ℓ} : {A : Type ℓ} → TaskStatus → List (PriorityTask A) → ℕ → Type ℓ
HasStatus {A = A} status tasks id =
    (task : PriorityTask A) × (find_task id tasks ≡ some task) × (task.status ≡ status)

module _ {ℓ} {A : Type ℓ} where
  pub find_task-set_running :
      (id other : ℕ) (tasks : List (PriorityTask A))
      → other ≢ id
      → find_task other (set_running id tasks) ≡ find_task other tasks
  unfolding find_task set_running
  find_task-set_running id other [] h = refl
  find_task-set_running id other (task ∷ tasks) h =
      grind (arith, find_task-set_running id other tasks)

  pub find_task-erase_task :
      (id other : ℕ) (tasks : List (PriorityTask A))
      → other ≢ id
      → find_task other (erase_task id tasks) ≡ find_task other tasks
  unfolding find_task erase_task
  find_task-erase_task id other [] h = refl
  find_task-erase_task id other (task ∷ tasks) h =
      grind (arith, find_task-erase_task id other tasks)

  count_pending :
      (id : ℕ) (tasks : List (PriorityTask A)) (found : PriorityTask A)
      → find_task id tasks ≡ some found
      → found.status ≡ pending
      → count_running (set_running id tasks) ≡ suc (count_running tasks)
  unfolding find_task set_running
  count_pending id [] found h e = cc
  count_pending id (task ∷ tasks) found h e = grind (arith, count_pending id tasks found)

  -- To set a task that waits adds one to those that run.
  pub count_running-set_running :
      (id : ℕ) (tasks : List (PriorityTask A))
      → HasStatus pending tasks id
      → count_running (set_running id tasks) ≡ suc (count_running tasks)
  count_running-set_running id tasks (found, h, e) = count_pending id tasks found h e

  count_erased :
      (id : ℕ) (tasks : List (PriorityTask A)) (found : PriorityTask A)
      → find_task id tasks ≡ some found
      → found.status ≡ running
      → count_running tasks ≡ suc (count_running (erase_task id tasks))
  unfolding find_task erase_task
  count_erased id [] found h e = cc
  count_erased id (task ∷ tasks) found h e = grind (arith, count_erased id tasks found)

  -- To erase a task that runs takes one from those that run.
  pub count_running-erase_task :
      (id : ℕ) (tasks : List (PriorityTask A))
      → HasStatus running tasks id
      → count_running tasks ≡ suc (count_running (erase_task id tasks))
  count_running-erase_task id tasks (found, h, e) = count_erased id tasks found h e
