-- ===== src/TaskQueue/Invariant.antt =====
-- What holds of the queue after any sequence of its operations.
use st_dns.Base.{
  ℕ, ◌^◌, ◌≤◌, ◌<◌, ◌≡◌, ◌≢◌, refl, sym, ◌∙◌, List, ◌∷◌, Option, none, some, arith, All, inl, inr,
  Bool-cases,
}
use st_dns.Base.Text.{is_empty}
use st_dns.TaskQueue.{
  pending, running, PriorityTask, Queue, empty_queue, find_task, emplace_task, erase_task, has_pk,
  submit, complete,
}
use st_dns.TaskQueue.Find.{count_running, HasStatus, find_task-erase_task, count_running-erase_task}
use st_dns.TaskQueue.Top.{Entry, Distinct, All-map}

-- Every entry of the heap is a task of the map that waits, no two are the same, and `running` counts
-- the tasks that run, which are not more than `max_running`.
pub record IsQueue {A : Type 0} (q : Queue A) : Type 0 where
  pub queued : All (λ (entry : Entry). HasStatus pending q.tasks entry.0) q.p_queue
  pub distinct : Distinct q.p_queue
  pub counted : q.running_count ≡ count_running q.tasks
  pub bounded : q.running_count ≤ q.max_running
  pub small : q.max_running < 2 ^ 32

module _ {A : Type 0} where
  pub empty_queue-IsQueue :
      (max_running : ℕ) → max_running < 2 ^ 32 → IsQueue {A = A} (empty_queue max_running)
  empty_queue-IsQueue max_running h = record {
    queued = tt;
    distinct = tt;
    counted = refl;
    bounded = omega arith;
    small = h;
  }

  -- The queue with one more task that waits.
  abbrev with_task : PriorityTask A → Queue A → Queue A
  with_task task q = record q {
    tasks = task ∷ q.tasks;
    p_queue = (task.id, task.priority) ∷ q.p_queue;
  }

  pub emplaced :
      (task : PriorityTask A) (tasks : List (PriorityTask A))
      → find_task task.id tasks ≡ none
      → emplace_task task tasks ≡ task ∷ tasks
  unfolding emplace_task
  emplaced task tasks fresh = rw (emplace_task, fresh) refl

  other_id :
      (task : PriorityTask A) (tasks : List (PriorityTask A)) (id : ℕ)
      → find_task task.id tasks ≡ none
      → HasStatus pending tasks id
      → id ≢ task.id
  other_id task tasks id fresh (found, h, waits) = λ e. absurd (apart (sym h ∙ rw e fresh))
    where
      apart : Option.some found ≢ none
      apart = λ e. cc

  find_task-first :
      (task : PriorityTask A) (tasks : List (PriorityTask A))
      → find_task task.id (task ∷ tasks) ≡ some task
  unfolding find_task
  find_task-first task tasks = ground arith

  find_task-behind :
      (task : PriorityTask A) (tasks : List (PriorityTask A)) (id : ℕ)
      → id ≢ task.id
      → find_task id (task ∷ tasks) ≡ find_task id tasks
  unfolding find_task
  find_task-behind task tasks id h = ground arith

  with_task-IsQueue :
      (task : PriorityTask A) (q : Queue A)
      → find_task task.id q.tasks ≡ none
      → task.status ≡ pending
      → IsQueue q
      → IsQueue (with_task task q)
  with_task-IsQueue task q fresh waits w = record {
    queued = (
      (task, find_task-first task q.tasks, waits),
      All-map (λ (entry : Entry). HasStatus pending q.tasks entry.0)
          (λ (entry : Entry). HasStatus pending (task ∷ q.tasks) entry.0) q.p_queue
          (λ entry h. (
            h.0,
            find_task-behind task q.tasks entry.0 (other_id task q.tasks entry.0 fresh h) ∙ h.1,
            h.2,
          ))
          w.queued,
    );
    distinct = (
      All-map (λ (entry : Entry). HasStatus pending q.tasks entry.0)
          (λ (entry : Entry). entry.0 ≢ task.id) q.p_queue
          (λ entry h. other_id task q.tasks entry.0 fresh h) w.queued,
      w.distinct,
    );
    counted = rw waits w.counted;
    bounded = w.bounded;
    small = w.small;
  }

  pub submit-IsQueue :
      (task : PriorityTask A) (q : Queue A)
      → find_task task.id q.tasks ≡ none
      → task.status ≡ pending
      → IsQueue q
      → IsQueue (submit task q).1
  unfolding submit
  submit-IsQueue task q fresh waits w = elim (Bool-cases (is_empty task.pk)) [
    | inl e ↦ rw (e, emplaced task q.tasks fresh) added
    | inr e ↦ elim (Bool-cases (has_pk task.pk q.task_pks)) [
      | inl e' ↦ rw (e, e') w
      | inr e' ↦
          rw (e, e', emplaced task q.tasks fresh)
            (record {
              queued = added.queued;
              distinct = added.distinct;
              counted = added.counted;
              bounded = added.bounded;
              small = added.small;
            })
    ]
  ]
    where
      added : IsQueue (with_task task q)
      added = with_task-IsQueue task q fresh waits w

  pub complete-IsQueue :
      (task : PriorityTask A) (q : Queue A)
      → HasStatus running q.tasks task.id
      → IsQueue q
      → IsQueue (complete task q)
  unfolding complete
  complete-IsQueue task q runs w = record {
    queued =
        All-map (λ (entry : Entry). HasStatus pending q.tasks entry.0)
          (λ (entry : Entry). HasStatus pending (erase_task task.id q.tasks) entry.0) q.p_queue
          (λ entry h.
            (h.0, find_task-erase_task task.id entry.0 q.tasks (apart entry.0 h) ∙ h.1, h.2))
          w.queued;
    distinct = w.distinct;
    counted =
        omega (arith, w.counted, w.small, w.bounded, count_running-erase_task task.id q.tasks runs);
    bounded =
        omega (arith, w.counted, w.small, w.bounded, count_running-erase_task task.id q.tasks runs);
    small = w.small;
  }
    where
      apart : (id : ℕ) → HasStatus pending q.tasks id → id ≢ task.id
      apart id (other, h, waits) = λ e. clash other h waits e runs
        where
          clash :
              (other : PriorityTask A)
              → find_task id q.tasks ≡ some other
              → other.status ≡ pending
              → id ≡ task.id
              → HasStatus running q.tasks task.id
              → ⊥
          clash other h waits e (found, k, works) = cc
