-- ===== src/TaskQueue/Keys.antt =====
-- The keys that keep a task from being queued twice.
use st_dns.Base.{◌≡◌, refl, true, false}
use st_dns.Base.Text.{is_empty, text_eq_refl}
use st_dns.TaskQueue.{PriorityTask, Queue, has_pk, erase_pk, submit, complete}

module _ {ℓ} {A : Type ℓ} where
  -- A task with a key that is not empty and is new is let in. While it is not complete, a task
  -- with the same key is refused and changes nothing; once it is, one is let in again.
  pub submit-complete :
      (task other : PriorityTask A) (q : Queue A)
      → is_empty task.pk ≡ false
      → has_pk task.pk q.task_pks ≡ false
      → other.pk ≡ task.pk
      → ((submit task q).0 ≡ true)
        × (submit other (submit task q).1 ≡ (false, (submit task q).1))
        × ((submit other (complete task (submit task q).1)).0 ≡ true)
  unfolding submit complete has_pk erase_pk
  submit-complete task other q named fresh same = (
    rw (named, fresh) refl,
    rw (named, fresh, same, named, text_eq_refl task.pk) refl,
    rw (named, fresh, same, named, text_eq_refl task.pk, fresh) refl,
  )
