-- ===== src/Server/Started.antt =====
-- The first of the tasks that `sync_dns_record_from_remote` of src/core/dns_server.cpp submits, and how
-- the queue starts and completes it.
use st_dns.Base.{
  ℕ, ◌+◌, ◌-◌, ◌%◌, ◌^◌, ◌<◌, ◌≤◌, ◌≡◌, ◌≢◌, refl, sym, ap, ◌∙◌, ◌⊎◌, List, [], ◌∷◌, ◌++◌, Bool,
  true, false, Option, none, some, ok, length, All, arith, subst, if_either, Option-cases, inl, inr,
}
use st_dns.Base.Text.{Text, is_empty}
use st_dns.Config.{RemoteDnsServer, select_servers}
use st_dns.TaskQueue.{
  running, PriorityTask, Queue, find_task, set_running, emplace_task, erase_task, has_pk, submit,
  dispatch, complete,
}
use st_dns.TaskQueue.Top.{Entry, Removes-All, All-map, nothing_on_top}
use st_dns.TaskQueue.Invariant.{IsQueue, emplaced, complete-IsQueue}
use st_dns.TaskQueue.Dispatch.{
  Dispatched, idle, empty, started, dispatch-Dispatched, dispatch-IsQueue,
}
use st_dns.Server.{server_task, submit_all, sync_dns_record_from_remote, max_priority}
use st_dns.Server.Sync.{Below, find_task-fresh, sync-IsQueue}

-- The entry is in the heap.
abbrev HasEntry : Entry → List Entry → Type 0
HasEntry entry [] = ⊥
HasEntry entry (other ∷ entries) = (other ≡ entry) ⊎ HasEntry entry entries

All-HasEntry :
    (P : Entry → Type 0) (entry : Entry) (entries : List Entry)
    → All P entries
    → HasEntry entry entries
    → P entry
All-HasEntry P entry [] h k = elim k [ ]
All-HasEntry P entry (other ∷ entries) h (inl same) = subst P same h.0
All-HasEntry P entry (other ∷ entries) h (inr k) = All-HasEntry P entry entries h.1 k

module _ {A : Type 0} where
  abbrev entry_of : PriorityTask A → Entry
  entry_of task = (task.id, task.priority)

  -- The task waits before all others, in a queue where so many run.
  record Leading (task : PriorityTask A) (count : ℕ) (max : ℕ) (q : Queue A) : Type 0 where
    first : All (λ (entry : Entry). (entry ≡ entry_of task) ⊎ (entry.1 < task.priority)) q.p_queue
    queued : HasEntry (entry_of task) q.p_queue
    found : find_task task.id q.tasks ≡ some task
    alone : find_task task.id (erase_task task.id q.tasks) ≡ none
    same_count : q.running_count ≡ count
    same_max : q.max_running ≡ max

  find_task-emplace_task :
      (task other : PriorityTask A) (tasks : List (PriorityTask A))
      → other.id ≢ task.id
      → (find_task task.id (emplace_task other tasks) ≡ find_task task.id tasks)
        × (find_task task.id (erase_task task.id (emplace_task other tasks))
            ≡ find_task task.id (erase_task task.id tasks))
  unfolding find_task erase_task emplace_task
  find_task-emplace_task task other tasks h = elim (Option-cases (find_task other.id tasks)) [
    | inl e ↦ rw (emplaced other tasks e) (ground (arith, h), ground (arith, h))
    | inr (old, e) ↦ rw (kept old e) (refl, refl)
  ]
    where
      kept :
          (old : PriorityTask A)
          → find_task other.id tasks ≡ some old
          → emplace_task other tasks ≡ tasks
      kept old e = rw (emplace_task, e) refl

  submit-Leading :
      (task other : PriorityTask A) (count max : ℕ) (q : Queue A)
      → other.id ≢ task.id
      → other.priority < task.priority
      → Leading task count max q
      → Leading task count max (submit other q).1
  unfolding submit
  submit-Leading task other count max q apart lower l =
      if_either (λ (r : Bool × Queue A). Leading task count max r.1) (is_empty other.pk)
        (λ e. entered q.task_pks)
        (λ e.
          if_either (λ (r : Bool × Queue A). Leading task count max r.1)
            (has_pk other.pk q.task_pks) (λ e'. l) (λ e'. entered (other.pk ∷ q.task_pks)))
    where
      entered :
          (pks : List Text)
          → Leading task count max (record q {
            tasks = emplace_task other q.tasks;
            p_queue = (other.id, other.priority) ∷ q.p_queue;
            task_pks = pks;
          })
      entered pks =
          let (same, same') = find_task-emplace_task task other q.tasks apart in
          record {
            first = (inr lower, l.first);
            queued = inr l.queued;
            found = same ∙ l.found;
            alone = same' ∙ l.alone;
            same_count = l.same_count;
            same_max = l.same_max;
          }

  submit-first :
      (task : PriorityTask A) (q : Queue A)
      → is_empty task.pk ≡ false
      → has_pk task.pk q.task_pks ≡ false
      → find_task task.id q.tasks ≡ none
      → All (λ (entry : Entry). entry.1 < task.priority) q.p_queue
      → Leading task q.running_count q.max_running (submit task q).1
  unfolding submit find_task erase_task
  submit-first task q named new fresh lower =
      rw (named, new, emplaced task q.tasks fresh)
        (record {
          first = (
            inl refl,
            All-map (λ (entry : Entry). entry.1 < task.priority)
                (λ (entry : Entry). (entry ≡ entry_of task) ⊎ (entry.1 < task.priority)) q.p_queue
                (λ entry h. inr h) lower,
          );
          queued = inl refl;
          found = ground arith;
          alone = ground (arith, fresh);
          same_count = refl;
          same_max = refl;
        })

  find_task-started :
      (task : PriorityTask A) (tasks : List (PriorityTask A)) (id : ℕ)
      → find_task id tasks ≡ some task
      → find_task id (set_running id tasks) ≡ some (record task { status = running })
  unfolding find_task set_running
  find_task-started task [] id h = cc
  find_task-started task (other ∷ tasks) id h = grind (arith, find_task-started task tasks id)

  find_task-erased :
      (id : ℕ) (tasks : List (PriorityTask A))
      → find_task id (erase_task id (set_running id tasks)) ≡ find_task id (erase_task id tasks)
  unfolding find_task set_running erase_task
  find_task-erased id [] = refl
  find_task-erased id (task ∷ tasks) = grind (arith, find_task-erased id tasks)

  -- The queue behind the start of a task.
  Started : PriorityTask A → ℕ → Queue A → Option (PriorityTask A) → Queue A → Type 0
  Started task count q result q' =
      let task' = record task { status = running } in
      (result ≡ some task')
      × IsQueue (complete task' q')
      × ((complete task' q').running_count ≡ count)
      × (find_task task.id (complete task' q').tasks ≡ none)

  Dispatched-Started :
      (task : PriorityTask A) (count max : ℕ) (q q' : Queue A) (result : Option (PriorityTask A))
      → count < max
      → Leading task count max q
      → IsQueue q
      → IsQueue q'
      → Dispatched true q result q'
      → Started task count q result q'
  unfolding Started complete
  Dispatched-Started task count max q _ _ room l w w' (idle e) =
      absurd (ground (arith, e, room, l.same_count, l.same_max))
  Dispatched-Started task count max q _ _ room l w w' (empty e) =
      elim (subst (HasEntry (entry_of task)) (nothing_on_top q.p_queue e) l.queued) [ ]
  Dispatched-Started task count max q _ _ room l w w' (started best rest task' key free t found _) =
      (
        ap (λ (x : PriorityTask A). some (record x { status = running })) same_task,
        complete-IsQueue (record task { status = running }) _
            (record task { status = running }, runs, refl) w',
        omega (arith, l.same_count, free, w.small),
        subst (λ (id : ℕ). find_task task.id (erase_task task.id (set_running id q.tasks)) ≡ none)
            (sym same_id) (find_task-erased task.id q.tasks ∙ l.alone),
      )
    where
      highest : task.priority ≤ best.1
      highest =
          All-HasEntry (λ (entry : Entry). entry.1 ≤ best.1) (entry_of task) q.p_queue t.best_of
            l.queued

      same_id : best.0 ≡ task.id
      same_id =
          elim (Removes-All (λ (entry : Entry). (entry ≡ entry_of task) ⊎ (entry.1 < task.priority))
            best q.p_queue rest t.removes l.first).0 [
              | inl e ↦ ap (λ (entry : Entry). entry.0) e
              | inr h ↦ absurd (omega (arith, h, highest))
            ]

      same_task : task' ≡ task
      same_task = some_inj (sym found ∙ ap (λ (id : ℕ). find_task id q.tasks) same_id ∙ l.found)
        where
          some_inj : {x y : PriorityTask A} → Option.some x ≡ some y → x ≡ y
          some_inj e = cc

      runs :
          find_task task.id (set_running best.0 q.tasks) ≡ some (record task { status = running })
      runs =
          subst
            (λ (id : ℕ).
              find_task task.id (set_running id q.tasks) ≡ some (record task { status = running }))
            (sym same_id) (find_task-started task q.tasks task.id l.found)

  dispatch-Started :
      (task : PriorityTask A) (count max : ℕ) (q : Queue A)
      → count < max
      → Leading task count max q
      → IsQueue q
      → (result : Option (PriorityTask A)) × (q' : Queue A) × ((dispatch true q ≡ ok (result, q'))
          × Started task count q result q')
  dispatch-Started task count max q room l w =
      let (result, q', same, d) = dispatch-Dispatched true q w in
      (
        result,
        q',
        (
          same,
          Dispatched-Started task count max q q' result room l w
              (dispatch-IsQueue true q q' result same w) d,
        ),
      )

submit_all-Leading :
    (task : PriorityTask (Text × RemoteDnsServer)) (count max : ℕ) (host : Text)
    → (servers : List RemoteDnsServer) (priority next_id : ℕ) (q : Queue (Text × RemoteDnsServer))
    → length servers ≤ priority
    → priority < task.priority
    → task.priority < 2 ^ 32
    → task.id < next_id
    → next_id + length servers < 2 ^ 64
    → Leading task count max q
    → Leading task count max (submit_all host servers priority next_id q)
unfolding submit_all
submit_all-Leading task count max host [] priority next_id q few lower small new fits l = l
submit_all-Leading task count max host (server ∷ servers) priority next_id q few lower small new
      fits l =
    let next : (next_id + 1) % 2 ^ 64 ≡ next_id + 1 = omega arith in
    let one_less : (priority + 2 ^ 32 - 1) % 2 ^ 32 ≡ priority - 1 =
      omega (arith, few, lower, small) in
    rw (next, one_less)
      (submit_all-Leading task count max host servers (priority - 1) (next_id + 1) _
        (omega (arith, few)) (omega (arith, lower)) small (omega (arith, new)) (omega (arith, fits))
        (submit-Leading task (server_task host server priority next_id) count max q
          (λ e. omega (arith, e, new)) lower l))

-- The first server that is asked for a host has its task started at once, if no other task of its
-- priority waits, and there is room.
pub sync-Started :
    (regex_match : Text → Text → Bool) (servers : List RemoteDnsServer) (host : Text)
    → (next_id : ℕ) (server : RemoteDnsServer) (after : List RemoteDnsServer)
    → (q : Queue (Text × RemoteDnsServer))
    → select_servers regex_match host servers ≡ server ∷ after
    → 1 + length after ≤ max_priority
    → next_id + (1 + length after) < 2 ^ 64
    → IsQueue q
    → Below next_id q.tasks
    → All (λ (entry : Entry). entry.1 < max_priority) q.p_queue
    → has_pk (server_task host server max_priority next_id).pk q.task_pks ≡ false
    → q.running_count < q.max_running
    → let task = server_task host server max_priority next_id in
      let task' = record task { status = running } in
      (q' : Queue (Text × RemoteDnsServer)) × ((dispatch true
            (sync_dns_record_from_remote regex_match servers host next_id q)
          ≡ ok (some task', q'))
        × IsQueue (complete task' q')
        × ((complete task' q').running_count ≡ q.running_count)
        × (find_task next_id (complete task' q').tasks ≡ none))
unfolding sync_dns_record_from_remote submit_all Started
sync-Started regex_match servers host next_id server after q chosen few fits w below lower new
      room =
    let (result, q', (same, (is_task, works, count, gone))) =
      dispatch-Started task q.running_count q.max_running
        (sync_dns_record_from_remote regex_match servers host next_id q) room leading
        (sync-IsQueue regex_match servers host next_id q below
          (subst (λ (l : List RemoteDnsServer). next_id + length l < 2 ^ 64) (sym chosen)
            (omega (arith, fits)))
          w) in
    (
      q',
      (
        same ∙ ap (λ (r : Option (PriorityTask (Text × RemoteDnsServer))). ok (r, q')) is_task,
        works,
        count,
        gone,
      ),
    )
  where
    task : PriorityTask (Text × RemoteDnsServer)
    task = server_task host server max_priority next_id

    named : (t : Text) → is_empty (t ++ (b'/' ∷ server.id)) ≡ false
    named [] = refl
    named (ch ∷ t) = refl

    leading :
        Leading task q.running_count q.max_running
          (sync_dns_record_from_remote regex_match servers host next_id q)
    leading = rw chosen (
        let next : (next_id + 1) % 2 ^ 64 ≡ next_id + 1 = omega (arith, fits) in
        rw next (
          submit_all-Leading task q.running_count q.max_running host after 99 (next_id + 1) _
            (omega (arith, few)) (omega arith) (omega arith) (omega arith) (omega (arith, fits))
            (submit-first task q (named host) new (find_task-fresh next_id q.tasks below) lower)))
