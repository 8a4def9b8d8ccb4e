-- ===== src/WorkerManager/Shutdown.antt =====
-- The graceful shutdown of listener/src/services/worker-manager.ts: the jobs that start, and the
-- promises that are waited for.
use notify_chain.Prelude.{
  ℕ, zero, suc, ◌≤◌, ◌≡◌, ◌≢◌, refl, sym, ap, subst, ◌∙◌, inl, inr, String, true, false, ◌||◌, some,
  List, [], ◌∷◌, arith, ◌==◌, length, All, Bool-cases, Option-cases, string_key,
}
use notify_chain.Prelude.JsSet
use notify_chain.Prelude.JsSet.{JsSet, has-delete}
use notify_chain.WorkerManager.{
  Waiter, WorkerManager, new_manager, update_waiter, start_job, complete_job, wait_for_active_jobs,
  initiate_graceful_shutdown, expire, timer_fires, disarm, clear_shutdown_timeout, finish,
  is_ticking, check_jobs, Event, starts, completes, initiates, forces, timeouts, checks, step, run,
}

-- None of the events is a `forceShutdown`.
abbrev pub IsGraceful : List Event → Type 0
IsGraceful [] = Unit
IsGraceful (e ∷ es) = (e ≢ forces) × IsGraceful es

clear_shutdown_timeout-jobs :
    (m : WorkerManager)
    → ((clear_shutdown_timeout m).active_jobs ≡ m.active_jobs)
      × ((clear_shutdown_timeout m).is_shutting_down ≡ m.is_shutting_down)
unfolding clear_shutdown_timeout
clear_shutdown_timeout-jobs m = elim (Option-cases m.shutdown_timeout) [
  | inl absent ↦ rw absent (refl, refl)
  | inr (i, at) ↦ rw at (refl, refl)
]

step-closed :
    (e : Event) (m : WorkerManager) (k : String)
    → e ≢ forces
    → m.is_shutting_down ≡ true
    → ((step e m).is_shutting_down ≡ true)
      × (JsSet.has k (step e m).active_jobs ≡ true → JsSet.has k m.active_jobs ≡ true)
unfolding step start_job complete_job initiate_graceful_shutdown timer_fires check_jobs
step-closed (starts job_id) m k graceful closed = ground (arith, closed)
step-closed (completes job_id) m k graceful closed =
    ground (arith, closed, has-delete k job_id m.active_jobs)
step-closed initiates m k graceful closed = ground (arith, closed)
step-closed forces m k graceful closed = absurd (graceful refl)
step-closed (timeouts i) m k graceful closed = (closed, (λ h. h))
step-closed (checks i) m k graceful closed = ground (arith, closed, clear_shutdown_timeout-jobs m)

-- Once a graceful shutdown has begun, no job is accepted, and every active job was active then, as long
-- as no shutdown is forced.
pub run-closed :
    (es : List Event) (m : WorkerManager) (job_id k : String)
    → IsGraceful es
    → m.is_shutting_down ≡ true
    → ((start_job job_id (run es m)).1 ≡ false)
      × (JsSet.has k (run es m).active_jobs ≡ true → JsSet.has k m.active_jobs ≡ true)
unfolding run start_job
run-closed [] m job_id k graceful closed = (ground (arith, closed), (λ h. h))
run-closed (e ∷ es) m job_id k graceful closed =
    let (still, before) = step-closed e m k graceful.0 closed in
    let (rejects, later) = run-closed es (step e m) job_id k graceful.1 still in
    (rejects, (λ h. before (later h)))

abbrev pub IsAnswered : Waiter → Type 0
IsAnswered w = (w.resolved || w.timer_armed) ≡ true

-- At most one promise is waited for, only during a shutdown; the timer that is held is its timer, and
-- it is resolved or its timer is set.
pub record IsTimed (m : WorkerManager) : Type 0 where
  pub few : length m.waiters ≤ 1
  pub closing : m.is_shutting_down ≡ false → m.waiters ≡ []
  pub held : (i : ℕ) → m.shutdown_timeout ≡ some i → i ≡ 0
  pub answered : All IsAnswered m.waiters

update_waiter-length :
    (i : ℕ) (f : Waiter → Waiter) (ws : List Waiter) → length (update_waiter i f ws) ≡ length ws
update_waiter-length i f [] = refl
update_waiter-length zero f (w ∷ ws) = refl
update_waiter-length (suc i) f (w ∷ ws) = ap suc (update_waiter-length i f ws)

update_waiter-none :
    (i : ℕ) (f : Waiter → Waiter) (ws : List Waiter) → ws ≡ [] → update_waiter i f ws ≡ []
update_waiter-none i f [] h = refl
update_waiter-none i f (w ∷ ws) h = absurd (ground (arith, h))

expire-IsAnswered :
    (i : ℕ) (ws : List Waiter) → All IsAnswered ws → All IsAnswered (update_waiter i expire ws)
expire-IsAnswered i [] h = tt
expire-IsAnswered zero (w ∷ ws) h = ground (arith, h.0, h.1)
expire-IsAnswered (suc i) (w ∷ ws) h = (h.0, expire-IsAnswered i ws h.1)

-- The callback of the interval of the only waiter, after the timer was cleared.
finish-IsAnswered :
    (ws : List Waiter)
    → length ws ≤ 1
    → All IsAnswered ws
    → All IsAnswered (update_waiter 0 finish ws)
finish-IsAnswered [] few h = tt
finish-IsAnswered (w ∷ []) few h = ground (arith, h.0)
finish-IsAnswered (w ∷ v ∷ ws) few h = absurd (omega (arith, few))

ticking-first : (i : ℕ) (ws : List Waiter) → length ws ≤ 1 → is_ticking i ws ≡ true → i ≡ 0
ticking-first i [] few h = absurd (ground (arith, h))
ticking-first zero (w ∷ ws) few h = refl
ticking-first (suc i) (w ∷ []) few h = absurd (ground (arith, h))
ticking-first (suc i) (w ∷ v ∷ ws) few h = absurd (omega (arith, few))

disarm-IsAnswered :
    (ws : List Waiter)
    → length ws ≤ 1
    → is_ticking 0 ws ≡ true
    → All IsAnswered (update_waiter 0 finish (update_waiter 0 disarm ws))
disarm-IsAnswered [] few h = tt
disarm-IsAnswered (w ∷ []) few h = ground (arith, h)
disarm-IsAnswered (w ∷ v ∷ ws) few h = absurd (omega (arith, few))

initiate-IsTimed : (m : WorkerManager) → IsTimed m → IsTimed (initiate_graceful_shutdown m)
unfolding initiate_graceful_shutdown wait_for_active_jobs
initiate-IsTimed m t = elim (Bool-cases m.is_shutting_down) [
  | inl closing ↦
      let same : initiate_graceful_shutdown m ≡ m = ground (arith, closing) in
      subst IsTimed (sym same) t
  | inr running ↦
      let none_waits = t.closing running in
      elim (Bool-cases (length m.active_jobs == 0)) [
        | inl idle ↦
            rw (running, idle)
              (record {
                few = t.few;
                closing = λ h. none_waits;
                held = t.held;
                answered = t.answered;
              })
        | inr busy ↦
            rw (running, busy, none_waits)
              (record {
                few = omega arith;
                closing = λ h. absurd (ground (arith, h));
                held = λ i h. ground (arith, h);
                answered = (refl, tt);
              })
      ]
]

check-IsTimed : (i : ℕ) (m : WorkerManager) → IsTimed m → IsTimed (check_jobs i m)
unfolding check_jobs clear_shutdown_timeout
check-IsTimed i m t = elim (Bool-cases (is_ticking i m.waiters)) [
  | inr still ↦ rw still t
  | inl ticks ↦
      let first = ticking-first i m.waiters t.few ticks in
      let ticks_first : is_ticking 0 m.waiters ≡ true =
        ap (λ j. is_ticking j m.waiters) (sym first) ∙ ticks in
      elim (Bool-cases (length m.active_jobs == 0)) [
        | inr busy ↦ rw (ticks, busy) t
        | inl idle ↦ elim (Option-cases m.shutdown_timeout) [
          | inl absent ↦
              rw (ticks, idle, absent, first)
                (record {
                  few = omega (arith, t.few, update_waiter-length 0 finish m.waiters);
                  closing = λ h. update_waiter-none 0 finish m.waiters (t.closing h);
                  held = λ j h. t.held j (absent ∙ h);
                  answered = finish-IsAnswered m.waiters t.few t.answered;
                })
          | inr (j, at) ↦
              let ws = update_waiter 0 disarm m.waiters in
              rw (ticks, idle, at, t.held j at, first)
                (record {
                  few = omega (
                    arith,
                    t.few,
                    update_waiter-length 0 finish ws,
                    update_waiter-length 0 disarm m.waiters,
                  );
                  closing = λ h.
                      update_waiter-none 0 finish ws
                        (update_waiter-none 0 disarm m.waiters (t.closing h));
                  held = λ j h. absurd (ground (arith, h));
                  answered = disarm-IsAnswered m.waiters t.few ticks_first;
                })
        ]
      ]
]

Step-IsTimed : (e : Event) (m : WorkerManager) → e ≢ forces → IsTimed m → IsTimed (step e m)
unfolding step start_job complete_job initiate_graceful_shutdown wait_for_active_jobs timer_fires
    check_jobs
Step-IsTimed (starts job_id) m graceful t = record {
  few = ground (arith, t.few);
  closing = ground (arith, t.closing);
  held = ground (arith, t.held);
  answered = ground (arith, t.answered);
}
Step-IsTimed (completes job_id) m graceful t = record {
  few = t.few;
  closing = t.closing;
  held = t.held;
  answered = t.answered;
}
Step-IsTimed initiates m graceful t = initiate-IsTimed m t
Step-IsTimed forces m graceful t = absurd (graceful refl)
Step-IsTimed (timeouts i) m graceful t = record {
  few = omega (arith, t.few, update_waiter-length i expire m.waiters);
  closing = λ h. update_waiter-none i expire m.waiters (t.closing h);
  held = t.held;
  answered = expire-IsAnswered i m.waiters t.answered;
}
Step-IsTimed (checks i) m graceful t = check-IsTimed i m t

Run-IsTimed : (es : List Event) (m : WorkerManager) → IsGraceful es → IsTimed m → IsTimed (run es m)
unfolding run
Run-IsTimed [] m graceful t = t
Run-IsTimed (e ∷ es) m graceful t =
    Run-IsTimed es (step e m) graceful.1 (Step-IsTimed e m graceful.0 t)

abbrev pub IsResolved : Waiter → Type 0
IsResolved w = w.resolved ≡ true

expire-IsResolved :
    (ws : List Waiter)
    → length ws ≤ 1
    → All IsAnswered ws
    → All IsResolved (update_waiter 0 expire ws)
expire-IsResolved [] few h = tt
expire-IsResolved (w ∷ []) few h = ground (arith, h.0)
expire-IsResolved (w ∷ v ∷ ws) few h = absurd (omega (arith, few))

-- After any events of a new manager with no forced shutdown, every promise that a graceful shutdown
-- waits for is resolved once the timer of the first has fired, whatever jobs are still active.
pub run-new_manager-resolves :
    (es : List Event) → IsGraceful es → All IsResolved (timer_fires 0 (run es new_manager)).waiters
unfolding timer_fires
run-new_manager-resolves es graceful =
    let t : IsTimed (run es new_manager) = Run-IsTimed es new_manager graceful (record {
      few = omega arith;
      closing = λ h. refl;
      held = λ i h. absurd (ground (arith, h));
      answered = tt;
    }) in
    expire-IsResolved (run es new_manager).waiters t.few t.answered
