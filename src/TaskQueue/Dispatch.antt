-- ===== src/TaskQueue/Dispatch.antt =====
-- What a dispatch does to a well-formed queue.
use st_dns.Base.{
  ◌+◌, ◌%◌, ◌^◌, ◌<◌, ◌≡◌, ◌≢◌, refl, ◌∙◌, subst, List, [], ◌∷◌, Bool, true, false, ◌&&◌, Option,
  none, some, ok, ltb, arith, All, inl, inr, Option-cases, Bool-cases,
}
use st_dns.TaskQueue.{
  pending, running, PriorityTask, Queue, find_task, set_running, take_top, dispatch,
}
use st_dns.TaskQueue.Find.{HasStatus, find_task-set_running, count_running-set_running}
use st_dns.TaskQueue.Top.{Entry, Taken, take_top-Taken, Removes-All, Removes-Distinct}
use st_dns.TaskQueue.Invariant.{IsQueue}

module _ {A : Type 0} where
  -- The queue once the entry `best` is taken from the heap.
  abbrev with_started : Queue A → Entry → List Entry → Queue A
  with_started q best rest = record q {
    running_count = (q.running_count + 1) % 2 ^ 32;
    tasks = set_running best.0 q.tasks;
    p_queue = rest;
  }

  with_started-IsQueue :
      (q : Queue A) (best : Entry) (rest : List Entry)
      → Taken q.p_queue rest best
      → q.running_count < q.max_running
      → IsQueue q
      → IsQueue (with_started q best rest)
  with_started-IsQueue q best rest t room w = record {
    queued =
        both rest (Removes-All waits best q.p_queue rest t.removes w.queued).1
          (Removes-Distinct best q.p_queue rest t.removes w.distinct).0;
    distinct = (Removes-Distinct best q.p_queue rest t.removes w.distinct).1;
    counted = omega (
      arith,
      w.counted,
      w.small,
      room,
      count_running-set_running best.0 q.tasks
          (Removes-All waits best q.p_queue rest t.removes w.queued).0,
    );
    bounded = omega (arith, w.small, room);
    small = w.small;
  }
    where
      waits : Entry → Type 0
      waits entry = HasStatus pending q.tasks entry.0

      both :
          (entries : List Entry)
          → All waits entries
          → All (λ (entry : Entry). entry.0 ≢ best.0) entries
          → All (λ (entry : Entry). HasStatus pending (set_running best.0 q.tasks) entry.0) entries
      both [] h k = tt
      both (entry ∷ entries) h k = (
        (h.0.0, find_task-set_running best.0 entry.0 q.tasks k.0 ∙ h.0.1, h.0.2),
        both entries h.1 k.1,
      )

  -- What `dispatch` does to a queue that is well formed: nothing, or it starts the best task.
  pub data Dispatched (has_key : Bool) (q : Queue A)
      : Option (PriorityTask A) → Queue A → Type 0 where
    idle : (has_key && ltb q.running_count q.max_running) ≡ false → Dispatched has_key q none q
    empty : take_top q.p_queue ≡ none → Dispatched has_key q none q
    started :
        (best : Entry) (rest : List Entry) (task : PriorityTask A)
        → has_key ≡ true
        → q.running_count < q.max_running
        → Taken q.p_queue rest best
        → find_task best.0 q.tasks ≡ some task
        → task.status ≡ pending
        → Dispatched has_key q (some (record task { status = running })) (with_started q best rest)

  -- On a well-formed queue the lookup of `dispatch` never throws: without a key, without room or
  -- without a task that waits nothing changes; else a task that waits and has the highest priority of
  -- the heap is started, and it alone leaves the heap.
  pub dispatch-Dispatched :
      (has_key : Bool) (q : Queue A)
      → IsQueue q
      → (result : Option (PriorityTask A)) × (q' : Queue A) × (dispatch has_key q ≡ ok (result, q'))
        × Dispatched has_key q result q'
  unfolding dispatch
  dispatch-Dispatched has_key q w =
      elim (Bool-cases (has_key && ltb q.running_count q.max_running)) [
        | inr e ↦ (none, q, rw e refl, idle e)
        | inl e ↦ elim (Option-cases (take_top q.p_queue)) [
          | inl e' ↦ (none, q, rw (e, e') refl, empty e')
          | inr ((best, rest), e') ↦
              let t : Taken q.p_queue rest best = take_top-Taken q.p_queue best rest e' in
              let (task, found, waits) =
                (Removes-All (λ (entry : Entry). HasStatus pending q.tasks entry.0) best q.p_queue
                  rest t.removes w.queued).0 in
              (
                some (record task { status = running }),
                with_started q best rest,
                rw (e, e', found) refl,
                started best rest task (key e) (room e) t found waits,
              )
        ]
      ]
    where
      key : (has_key && ltb q.running_count q.max_running) ≡ true → has_key ≡ true
      key e = grind arith

      room : (has_key && ltb q.running_count q.max_running) ≡ true → q.running_count < q.max_running
      room e = grind arith

  Dispatched-IsQueue :
      (has_key : Bool) (q q' : Queue A) (result : Option (PriorityTask A))
      → Dispatched has_key q result q'
      → IsQueue q
      → IsQueue q'
  Dispatched-IsQueue has_key q q' result (idle e) w = w
  Dispatched-IsQueue has_key q q' result (empty e) w = w
  Dispatched-IsQueue has_key q q' result (started best rest task e room t found waits) w =
      with_started-IsQueue q best rest t room w

  pub dispatch-IsQueue :
      (has_key : Bool) (q q' : Queue A) (result : Option (PriorityTask A))
      → dispatch has_key q ≡ ok (result, q')
      → IsQueue q
      → IsQueue q'
  dispatch-IsQueue has_key q q' result h w =
      let (result', q'', h', d) = dispatch-Dispatched has_key q w in
      let same : q'' ≡ q' = cc in subst IsQueue same (Dispatched-IsQueue has_key q q'' result' d w)
