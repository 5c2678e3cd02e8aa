-- ===== src/TaskQueue.antt =====
-- The queue of prioritised tasks: src/common/main/taskquque/task_queue.h.
pub mod Find
pub mod Top
pub mod Invariant
pub mod Dispatch
pub mod Steps
pub mod Keys
mod Tests
use st_dns.Base.{
  ℕ, ◌+◌, ◌-◌, ◌%◌, ◌^◌, List, [], ◌∷◌, ◌++◌, Bool, true, false, ◌&&◌, Option, none, some, Outcome,
  ok, err, thrown, ltb, ◌==◌, if◌then◌else◌, length,
}
use st_dns.Base.Text.{Text, text_eq, is_empty}

pub data TaskStatus : Type 0 where
  pending : TaskStatus
  running : TaskStatus

-- `create_time`, which is only reported, is left out.
pub record PriorityTask {ℓ} (A : Type ℓ) : Type ℓ where
  pub input : A
  pub priority : ℕ
  pub id : ℕ
  pub pk : Text
  pub status : TaskStatus

-- The members that the operations change. `p_queue` holds an id and a priority for each task that
-- waits; the map `tasks` is a list.
pub record Queue {ℓ} (A : Type ℓ) : Type ℓ where
  pub max_running : ℕ
  pub running_count : ℕ
  pub tasks : List (PriorityTask A)
  pub p_queue : List (ℕ × ℕ)
  pub task_pks : List Text

-- The queue that the constructor makes.
abbrev pub empty_queue {ℓ} : {A : Type ℓ} → ℕ → Queue A
empty_queue max_running = record {
  max_running = max_running;
  running_count = 0;
  tasks = [];
  p_queue = [];
  task_pks = [];
}

-- `tasks.find`
unfoldable pub find_task {ℓ} : {A : Type ℓ} → ℕ → List (PriorityTask A) → Option (PriorityTask A)
find_task id [] = none
find_task id (task ∷ tasks) =
    let rest = find_task id tasks in if task.id == id then some task else rest

-- `tasks.emplace`: a task whose id is there already is not put in.
unfoldable pub emplace_task {ℓ} :
    {A : Type ℓ} → PriorityTask A → List (PriorityTask A) → List (PriorityTask A)
emplace_task task tasks = elim (find_task task.id tasks) [ none ↦ task ∷ tasks | some old ↦ tasks ]

-- `tasks.at(id).status = RUNNING`
unfoldable pub set_running {ℓ} : {A : Type ℓ} → ℕ → List (PriorityTask A) → List (PriorityTask A)
set_running id [] = []
set_running id (task ∷ tasks) =
    let rest = set_running id tasks in
    if task.id == id then record task { status = running } ∷ tasks else task ∷ rest

-- `tasks.erase(id)`
unfoldable pub erase_task {ℓ} : {A : Type ℓ} → ℕ → List (PriorityTask A) → List (PriorityTask A)
erase_task id [] = []
erase_task id (task ∷ tasks) =
    let rest = erase_task id tasks in if task.id == id then tasks else task ∷ rest

unfoldable pub has_pk : Text → List Text → Bool
has_pk pk [] = false
has_pk pk (other ∷ pks) = let rest = has_pk pk pks in if text_eq pk other then true else rest

unfoldable pub erase_pk : Text → List Text → List Text
erase_pk pk [] = []
erase_pk pk (other ∷ pks) =
    let rest = erase_pk pk pks in if text_eq pk other then pks else other ∷ rest

-- `top` and `pop`: an entry of the highest priority, and the others. Among equal priorities the heap
-- may have any of them on top; here it is the first.
unfoldable pub take_top : List (ℕ × ℕ) → Option ((ℕ × ℕ) × List (ℕ × ℕ))
take_top [] = none
take_top (entry ∷ entries) = elim (take_top entries) [
  | none ↦ some (entry, [])
  | some (best, rest) ↦
      if ltb entry.1 best.1 then some (best, entry ∷ rest) else some (entry, entries)
]

-- `submit`
unfoldable pub submit {ℓ} : {A : Type ℓ} → PriorityTask A → Queue A → Bool × Queue A
submit {A = A} task q =
    let entered : Queue A = record q {
      tasks = emplace_task task q.tasks;
      p_queue = (task.id, task.priority) ∷ q.p_queue;
    } in
    if is_empty task.pk
    then (true, entered)
    else if has_pk task.pk q.task_pks
    then (false, q)
    else (true, record entered { task_pks = task.pk ∷ q.task_pks })

-- The body that `schedule_dispatch_task` posts, and the task that it hands to the executor, as it
-- stood in the map. `has_key` is `key_count >= 1`, a test on a double that a timer feeds.
unfoldable pub dispatch {ℓ} :
    {A : Type ℓ} → Bool → Queue A → Outcome (Option (PriorityTask A) × Queue A)
dispatch has_key q =
    if has_key && ltb q.running_count q.max_running
    then (elim (take_top q.p_queue) [
      | none ↦ ok (none, q)
      | some (best, rest) ↦ elim (find_task best.0 q.tasks) [
        | none ↦ err thrown
        | some task ↦ ok (
          some (record task { status = running }),
          record q {
            running_count = (q.running_count + 1) % 2 ^ 32;
            tasks = set_running best.0 q.tasks;
            p_queue = rest;
          },
        )
      ]
    ])
    else ok (none, q)

-- `complete`
unfoldable pub complete {ℓ} : {A : Type ℓ} → PriorityTask A → Queue A → Queue A
complete task q = record q {
  running_count = (q.running_count + 2 ^ 32 - 1) % 2 ^ 32;
  tasks = erase_task task.id q.tasks;
  task_pks = erase_pk task.pk q.task_pks;
}

-- `size`
abbrev pub size {ℓ} : {A : Type ℓ} → Queue A → ℕ
size q = length q.tasks % 2 ^ 32
