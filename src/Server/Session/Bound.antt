-- ===== src/Server/Session/Bound.antt =====
-- Every handler of a session ends, and how many there are.
use st_dns.Base.{
  ℕ, ◌+◌, ◌≤◌, ◌==◌, ◌<◌, ◌≡◌, refl, inl, List, [], ◌∷◌, ◌++◌, take, length-append, Bool, not, ◌&&◌,
  Option, none, some, Outcome, ok, ◌>>=◌, ltb, length, arith, Ends, EndsIn, bind-EndsIn,
  EndsIn-bind, EndsIn-map, EndsIn-ok, if-EndsIn, bind-Ends, ok-Ends, store-Ends,
}
use st_dns.Base.Text.{text_eq}
use st_dns.Protocol.Request.{get_host}
use st_dns.Client.{Forwarded}
use st_dns.Server.{ProcessType, query, forward, drop_query, process_type, query_record_from_cache}
use st_dns.Server.Session.{
  Phase, waiting, Session, World, Tasks, build_response, send_response, complete, complete_query,
  query_dns_record, timer_expired, has_udp_server, forward_dns_request, forwarded, process_session,
  end_session, received, new_session, localhost,
}
use st_dns.Server.Session.Ends.{type-Ends, type_value-Ends, request-Ends, udp_response-Ends}
use st_dns.Server.Session.Steps.{
  Event, Awaits, awaits_datagram, awaits_timer, awaits_remote, awaits_written, handle, remaining,
  unsent, IsSession, ◌⟶◌, step, Steps, no_step, one_more,
}

abbrev Within : ℕ → Session → Type 0
Within n s = (remaining s.phase ≤ n) × IsSession s

abbrev WithinBoth : ℕ → Session × Tasks → Type 0
WithinBoth n r = Within n r.0

build-Ends : (w : World) (s : Session) → Ends (build_response w s)
unfolding build_response
build-Ends w s =
    bind-Ends _ _ (udp_response-Ends s.buf s.request s.dns_record.ips _) (λ r. ok-Ends _)

complete-Within : (w : World) (s : Session) → length s.sent ≡ 0 → EndsIn (Within 1) (complete w s)
unfolding complete remaining unsent
complete-Within w s u = by_response s.response
  where
    one : (r : Forwarded) → length (s.sent ++ (take r.len r.buf ∷ [])) + 0 ≤ 1
    one r = omega (arith, u, length-append s.sent (take r.len r.buf ∷ []))

    by_response :
        (o : Option Forwarded)
        → EndsIn (Within 1) (elim o [
          | none ↦ build_response w s >>= λ r. ok (send_response s r)
          | some r ↦ ok (send_response s r)
        ])
    by_response none =
        bind-EndsIn (Within 1) _ _ (build-Ends w s) (λ r. inl (_, refl, (omega arith, one r)))
    by_response (some r) = inl (_, refl, (omega arith, one r))

query-Within :
    (w : World) (s : Session) → length s.sent ≡ 0 → EndsIn (Within 1) (complete_query w s)
unfolding complete_query
query-Within w s u = bind-EndsIn (Within 1) _ _ (build-Ends w s) (λ r. complete-Within w _ u)

-- The session of an outcome and the tasks beside it.
beside :
    (n m : ℕ) (f : Session → Tasks) (o : Outcome Session)
    → n ≤ m
    → EndsIn (Within n) o
    → EndsIn (WithinBoth m) (o >>= λ s. ok (s, f s))
beside n m f o l h =
    EndsIn-bind (Within n) (WithinBoth m) o _ h (λ s p. inl (_, refl, (omega (arith, p.0, l), p.1)))

end-Within : (s : Session) → length s.sent ≤ 1 → EndsIn (Within 0) (end_session s)
unfolding end_session remaining unsent
end-Within s u =
    bind-EndsIn (Within 0) _ _ (type-Ends s.request)
      (λ t. inl (_, refl, (omega arith, omega (arith, u))))

dns_record-Within :
    (w : World) (s : Session) (tasks : Tasks)
    → length s.sent ≡ 0
    → EndsIn (WithinBoth 2) (query_dns_record w s tasks)
unfolding query_dns_record remaining unsent
dns_record-Within w s tasks u =
    if-EndsIn (WithinBoth 2) (text_eq (get_host s.request) localhost)
      (λ e. beside 1 2 (λ s'. tasks) _ (omega arith) (query-Within w _ u))
      (if-EndsIn (WithinBoth 2)
        (length (query_record_from_cache w.resolve (get_host s.request)).ips == 0)
        (λ e. inl ((record s { phase = waiting }, _), refl, (omega arith, omega (arith, u))))
        (beside 1 2 _ _ (omega arith) (query-Within w _ u)))

process-Within :
    (w : World) (s : Session) (tasks : Tasks)
    → length s.sent ≡ 0
    → EndsIn (WithinBoth 2) (process_session w s tasks)
unfolding process_session forward_dns_request remaining unsent
process-Within w s tasks u =
    bind-EndsIn (WithinBoth 2) _ _ (type_value-Ends s.request) (λ v.
      bind-EndsIn (WithinBoth 2) _ _ (type-Ends s.request) (λ t. by_type (process_type t) _ u))
  where
    by_type :
        (p : ProcessType) (s' : Session)
        → length s'.sent ≡ 0
        → EndsIn (WithinBoth 2) (elim p [
          | query ↦ query_dns_record w s' tasks
          | drop_query ↦ complete w s' >>= λ s''. ok (s'', tasks)
          | forward ↦ forward_dns_request w s' >>= λ s''. ok (s'', tasks)
        ])
    by_type query s' u' = dns_record-Within w s' tasks u'
    by_type drop_query s' u' = beside 1 2 (λ s''. tasks) _ (omega arith) (complete-Within w s' u')
    by_type forward s' u' =
        EndsIn-bind (Within 2) (WithinBoth 2) _ _
          (if-EndsIn (Within 2) (has_udp_server w.servers)
            (λ e. inl (_, refl, (omega arith, omega (arith, u'))))
            (EndsIn-map (Within 1) (Within 2) _ (λ r p. (omega (arith, p.0), p.1))
              (complete-Within w s' u')))
          (λ s'' p. inl (_, refl, p))

received-Within :
    (w : World) (failed : Bool) (bytes : List ℕ) (s : Session) (tasks : Tasks)
    → length s.sent ≡ 0
    → EndsIn (WithinBoth 2) (received w failed bytes s tasks)
unfolding received
received-Within w failed bytes s tasks u =
    bind-EndsIn (WithinBoth 2) _ _ (store-Ends s.buf 0 bytes) (λ buf.
      if-EndsIn (WithinBoth 2) (not failed && ltb 0 (length bytes))
        (λ e. bind-EndsIn (WithinBoth 2) _ _ (request-Ends buf (length bytes)) (λ request.
          if-EndsIn (WithinBoth 2) request.valid (λ v. process-Within w _ tasks u)
            (beside 0 2 (λ s'. tasks) _ (omega arith) (end-Within _ (omega (arith, u))))))
        (beside 0 2 (λ s'. tasks) _ (omega arith) (end-Within _ (omega (arith, u)))))

timer-Within : (w : World) (s : Session) → length s.sent ≡ 0 → EndsIn (Within 1) (timer_expired w s)
unfolding timer_expired
timer-Within w s u = query-Within w _ u

-- Every handler that a session waits for ends, whatever it is called with: with fewer completions
-- to come and not more than one response sent, or with a read outside of its memory.
pub handle-Advances :
    (w : World) (event : Event) (s : Session) (tasks : Tasks)
    → Awaits s.phase event
    → IsSession s
    → EndsIn
        (λ (r : Session × Tasks). (remaining r.0.phase < remaining s.phase) × IsSession r.0)
        (handle w event s tasks)
unfolding handle remaining forwarded unsent
handle-Advances w event s tasks h i = by_phase s.phase event h i
  where
    earlier :
        (n m : ℕ) (o : Outcome (Session × Tasks))
        → n < m
        → EndsIn (WithinBoth n) o
        → EndsIn (λ (r : Session × Tasks). (remaining r.0.phase < m) × IsSession r.0) o
    earlier n m o l p =
        EndsIn-map (WithinBoth n)
          (λ (r : Session × Tasks). (remaining r.0.phase < m) × IsSession r.0) o
          (λ r q. (omega (arith, q.0, l), q.1)) p

    by_phase :
        (p : Phase) (e : Event)
        → Awaits p e
        → length s.sent + unsent p ≤ 1
        → EndsIn
            (λ (r : Session × Tasks). (remaining r.0.phase < remaining p) × IsSession r.0)
            (handle w e s tasks)
    by_phase _ _ (awaits_datagram failed bytes) u =
        earlier 2 3 (received w failed bytes s tasks) (omega arith)
          (received-Within w failed bytes s tasks (omega (arith, u)))
    by_phase _ _ awaits_timer u =
        earlier 1 2 (timer_expired w s >>= λ s'. ok (s', tasks)) (omega arith) (
          beside 1 1 (λ s'. tasks) (timer_expired w s) (omega arith)
            (timer-Within w s (omega (arith, u))))
    by_phase _ _ (awaits_remote response) u =
        earlier 1 2 (forwarded w response s >>= λ s'. ok (s', tasks)) (omega arith) (
          beside 1 1 (λ s'. tasks) (forwarded w response s) (omega arith)
            (complete-Within w (record s { response = response }) (omega (arith, u))))
    by_phase _ _ awaits_written u =
        earlier 0 1 (end_session s >>= λ s'. ok (s', tasks)) (omega arith)
          (beside 0 0 (λ s'. tasks) (end_session s) (omega arith) (end-Within s (omega (arith, u))))

⟶-Advances :
    (r r' : Session × Tasks)
    → r ⟶ r'
    → IsSession r.0
    → (remaining r'.0.phase < remaining r.0.phase) × IsSession r'.0
⟶-Advances _ _ (step w event s tasks r h e) i =
    EndsIn-ok
      (λ (r' : Session × Tasks). (remaining r'.0.phase < remaining s.phase) × IsSession r'.0)
      (handle w event s tasks) r (handle-Advances w event s tasks h i) e

Steps-Advances :
    (n : ℕ) (r r' : Session × Tasks)
    → Steps n r r'
    → IsSession r.0
    → (n + remaining r'.0.phase ≤ remaining r.0.phase) × IsSession r'.0
Steps-Advances _ _ _ (no_step r) i = (omega arith, i)
Steps-Advances _ _ _ (one_more n r r' r'' h hs) i =
    let first = ⟶-Advances r r' h i in
    let later = Steps-Advances n r' r'' hs first.1 in (omega (arith, first.0, later.0), later.1)

-- From its datagram on, a session takes at most three steps, whatever the handlers are called
-- with; with the third it has ended, and it has sent one response at most.
pub Steps-remaining :
    (n : ℕ) (tasks : Tasks) (r : Session × Tasks)
    → Steps n (new_session, tasks) r
    → (n + remaining r.0.phase ≤ 3) × (length r.0.sent ≤ 1)
unfolding remaining unsent
Steps-remaining n tasks r h =
    let (few, once) = Steps-Advances n (new_session, tasks) r h (omega arith) in
    (few, omega (arith, once))
