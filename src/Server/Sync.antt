-- ===== src/Server/Sync.antt =====
-- The tasks that the server submits keep the task queue well formed.
use st_dns.Base.{
  ℕ, ◌+◌, ◌-◌, ◌%◌, ◌^◌, ◌<◌, ◌≡◌, refl, sym, List, [], ◌∷◌, Bool, none, length, All, if_either,
  arith, subst,
}
use st_dns.Base.Text.{Text, is_empty}
use st_dns.Config.{RemoteDnsServer, select_servers}
use st_dns.TaskQueue.{PriorityTask, Queue, find_task, emplace_task, has_pk, submit}
use st_dns.TaskQueue.Invariant.{IsQueue, submit-IsQueue, emplaced}
use st_dns.Server.{server_task, submit_all, sync_dns_record_from_remote, max_priority}

module _ {A : Type 0} where
  -- The ids given so far.
  abbrev pub Below : ℕ → List (PriorityTask A) → Type 0
  Below next_id = All (λ (task : PriorityTask A). task.id < next_id)

  Below-suc : (n : ℕ) (tasks : List (PriorityTask A)) → Below n tasks → Below (n + 1) tasks
  Below-suc n [] h = tt
  Below-suc n (task ∷ tasks) h = (omega (arith, h.0), Below-suc n tasks h.1)

  pub find_task-fresh :
      (n : ℕ) (tasks : List (PriorityTask A)) → Below n tasks → find_task n tasks ≡ none
  unfolding find_task
  find_task-fresh n [] h = refl
  find_task-fresh n (task ∷ tasks) h =
      let first : task.id < n = h.0 in ground (arith, first, find_task-fresh n tasks h.1)

  submit-Below :
      (task : PriorityTask A) (q : Queue A)
      → Below task.id q.tasks
      → Below (task.id + 1) (submit task q).1.tasks
  unfolding submit
  submit-Below task q h =
      if_either In (is_empty task.pk) (λ e. added)
        (λ e.
          if_either In (has_pk task.pk q.task_pks) (λ e'. Below-suc task.id q.tasks h)
            (λ e'. added))
    where
      In : Bool × Queue A → Type 0
      In result = Below (task.id + 1) result.1.tasks

      added : Below (task.id + 1) (emplace_task task q.tasks)
      added =
          subst (Below (task.id + 1))
            (sym (emplaced task q.tasks (find_task-fresh task.id q.tasks h)))
            (omega arith, Below-suc task.id q.tasks h)

submit_all-IsQueue :
    (host : Text) (servers : List RemoteDnsServer) (priority next_id : ℕ)
    (q : Queue (Text × RemoteDnsServer))
    → Below next_id q.tasks
    → next_id + length servers < 2 ^ 64
    → IsQueue q
    → IsQueue (submit_all host servers priority next_id q)
unfolding submit_all
submit_all-IsQueue host [] priority next_id q b h w = w
submit_all-IsQueue host (server ∷ servers) priority next_id q b h w =
    let task = server_task host server priority next_id in
    let next : (next_id + 1) % 2 ^ 64 ≡ next_id + 1 = omega arith in
    rw next (
      submit_all-IsQueue host servers ((priority + 2 ^ 32 - 1) % 2 ^ 32) (next_id + 1)
        (submit task q).1 (submit-Below task q b) (omega arith)
        (submit-IsQueue task q (find_task-fresh next_id q.tasks b) refl w))

-- To fetch a name keeps the queue well formed, while the counter of the ids is above those given and
-- does not wrap around.
pub sync-IsQueue :
    (regex_match : Text → Text → Bool) (servers : List RemoteDnsServer) (host : Text) (next_id : ℕ)
    (q : Queue (Text × RemoteDnsServer))
    → Below next_id q.tasks
    → next_id + length (select_servers regex_match host servers) < 2 ^ 64
    → IsQueue q
    → IsQueue (sync_dns_record_from_remote regex_match servers host next_id q)
unfolding sync_dns_record_from_remote
sync-IsQueue regex_match servers host next_id q b h w =
    submit_all-IsQueue host (select_servers regex_match host servers) max_priority next_id q b h w
