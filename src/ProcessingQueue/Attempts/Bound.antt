-- ===== src/ProcessingQueue/Attempts/Bound.antt =====
-- How often a run of the event loop around listener/src/services/event-processing-queue.ts calls
-- the processor.
use notify_chain.Prelude.{ℕ, ◌+◌, ◌*◌, ◌≤◌, ◌≡◌, refl, inl, inr, ap, arith}
use notify_chain.Prelude.Count.{sum_of}
use notify_chain.RetryPolicy.{TextCase}
use notify_chain.RetryPolicy.Budget.{resolve_max_attempts_bounds}
use notify_chain.ProcessingQueue.{
  QueueConfig, QueuedEvent, Metrics, new_item, enqueue, enqueue_item, start, stop,
}
use notify_chain.ProcessingQueue.System.{
  System, Step, initial, enqueues, polls, settles, starts, stops, poll_system,
}
use notify_chain.ProcessingQueue.Invariant.{Inv, initial-Inv}
use notify_chain.ProcessingQueue.Invariant.Polling.{poll-keeps}
use notify_chain.ProcessingQueue.Invariant.Reachable.{Step-Inv}
use notify_chain.ProcessingQueue.Attempts.{
  budget, attempts_left, overdrawn, total, total-poll_system, total-enqueue_item, settling-falls,
  settling-within, settle-Settled,
}

-- 1 for a step in which a processor settles, 0 for any other.
unfoldable pub settlements :
    {c : QueueConfig} {text : TextCase} {s u : System} → Step c text s u → ℕ
settlements (settles _ _ _ _ _ _ _ _) = 1
settlements (enqueues _ _ _ _ _ _) = 0
settlements (polls _ _ _) = 0
settlements (starts _) = 0
settlements (stops _) = 0

-- A run from the initial state, with the number of settlements in it.
pub data Run (c : QueueConfig) (text : TextCase) : System → ℕ → Type 0 where
  here : Run c text initial 0
  next :
      {s u : System} {n m : ℕ}
      → Run c text s n
      → (st : Step c text s u) → m ≡ n + settlements st
      → Run c text u m

-- Attempts made, attempts left, and the budgets of the events accepted so far.
pub record Accounts (c : QueueConfig) (s : System) (n : ℕ) : Type 0 where
  pub inv : Inv c s
  pub within : total (overdrawn c) s ≡ 0
  pub paid : n + total (attempts_left c) s ≤ budget c * s.queue.metrics.total_enqueued

budget_pos : (c : QueueConfig) → 1 ≤ budget c
unfolding budget
budget_pos c = (resolve_max_attempts_bounds c.policy c.max_retries).0

module _ {c : QueueConfig} {s : System} {n : ℕ} (a : Accounts c s n) where
  enqueued-paid :
      (item : QueuedEvent)
      → item.retry_count ≡ 0
      → let u = record s { queue = (enqueue_item item s.queue).0 } in
        n + total (attempts_left c) u ≤ budget c * u.queue.metrics.total_enqueued
  unfolding attempts_left
  enqueued-paid item fresh = elim (total-enqueue_item (attempts_left c) item s) [
    | inl (same, count) ↦ omega (arith, a.paid, same, ap (λ (t : ℕ). budget c * t) count)
    | inr (more, count) ↦ omega (arith, a.paid, more, fresh, ap (λ (t : ℕ). budget c * t) count)
  ]

  enqueued-within :
      (item : QueuedEvent)
      → item.retry_count ≡ 0
      → total (overdrawn c) (record s { queue = (enqueue_item item s.queue).0 }) ≡ 0
  unfolding overdrawn
  enqueued-within item fresh =
      ground (arith, a.within, fresh, budget_pos c, total-enqueue_item (overdrawn c) item s)

polled-Accounts :
    {c : QueueConfig} {s : System} {n : ℕ} (now : ℕ)
    → Accounts c s n
    → (n + total (attempts_left c) (poll_system c now s)
        ≤ budget c * (poll_system c now s).queue.metrics.total_enqueued)
      × (total (overdrawn c) (poll_system c now s) ≡ 0)
unfolding poll_system
polled-Accounts {c} {s} now a = (
  omega (
    arith,
    a.paid,
    total-poll_system (attempts_left c) c now a.inv,
    ap (λ (m : Metrics). budget c * m.total_enqueued) (poll-keeps c a.inv now).2,
  ),
  omega (arith, a.within, total-poll_system (overdrawn c) c now a.inv),
)

Step-paid :
    {c : QueueConfig} {text : TextCase} {s u : System} {n : ℕ} (st : Step c text s u)
    → Accounts c s n
    → (n + settlements st + total (attempts_left c) u ≤ budget c * u.queue.metrics.total_enqueued)
      × (total (overdrawn c) u ≡ 0)
unfolding settlements enqueue new_item start stop total
Step-paid {c} (enqueues now event_id address request p e) a =
    let item = new_item c now event_id address request p in
    rw e (omega (arith, enqueued-paid a item refl), enqueued-within a item refl)
Step-paid {c} (polls now on e) a =
    let (paid, within) = polled-Accounts now a in rw e (omega (arith, paid), within)
Step-paid {c} {text} {s} (settles now draw before after r o split e) a =
    let count = (settle-Settled c text draw now r.started_at r.item o s.queue).0 in
    rw e (
      omega (
        arith,
        a.paid,
        settling-falls c text s now draw before after r o split a.within,
        ap (λ (t : ℕ). budget c * t) count,
      ),
      settling-within c text s now draw before after r o split a.within,
    )
Step-paid (starts e) a = rw e (omega (arith, a.paid), a.within)
Step-paid (stops e) a = rw e (omega (arith, a.paid), a.within)

Run-Accounts :
    {c : QueueConfig} {text : TextCase} {s : System} {n : ℕ} → Run c text s n → Accounts c s n
unfolding total sum_of
Run-Accounts {c} here = record { inv = initial-Inv c; within = refl; paid = omega arith }
Run-Accounts {c} (next r st e) =
    let a = Run-Accounts r in
    record { inv = Step-Inv st a.inv; within = (Step-paid st a).1; paid = rw e (Step-paid st a).0 }

-- In every run the processor settles at most as often as the retry budget for each event accepted,
-- and the attempts still left to the waiting and running events are part of that sum: retries end.
pub Run-settles_boundedly :
    {c : QueueConfig} {text : TextCase} {s : System} {n : ℕ}
    → Run c text s n
    → n + total (attempts_left c) s ≤ budget c * s.queue.metrics.total_enqueued
Run-settles_boundedly r = (Run-Accounts r).paid
