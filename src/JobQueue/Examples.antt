-- ===== src/JobQueue/Examples.antt =====
-- A run of the dispatcher: two jobs are submitted, one is dispatched, and both are cancelled.
use queryfabric.Base.{
  All, Ordering, [], arith, nat_eq, negsuc, none, pos, refl, some, ℕ, ◌<ℤ◌, ◌↔◌, ◌∷◌, ◌≡◌, ◌≤ℤ◌,
  ◌⊎◌,
}
use queryfabric.JobQueue.Runner.{
  Dispatch, Entry, PriorityRunner, cancel, cmp, drain_loop, new, pop, removed_from_queue,
  signalled_running, submit, try_dispatch,
}
use queryfabric.JobQueue.Invariant.{
  IsWellFormed, Reach, Reach-IsWellFormed, here, new-IsWellFormed, next, submits,
}
use queryfabric.JobQueue.Order.{IsFirst, dispatch-IsFirst, submit_order, try_dispatch-none}
use queryfabric.JobQueue.Cancel.{Outcome, cancel-Outcome}

abbrev r0 : PriorityRunner ℕ
unfolding new
r0 = new 2

abbrev r1 : PriorityRunner ℕ
unfolding new submit
r1 = submit r0 7 (pos 10) 1

abbrev r2 : PriorityRunner ℕ
unfolding new submit
r2 = submit r1 8 (negsuc 4) 2

abbrev r3 : PriorityRunner ℕ
r3 = record {
  available = 1;
  pending = record { job_id = 7; priority = pos 10; seq = 1; kind = 1 } ∷ [];
  seq = 2;
  running = (8, (0, 2)) ∷ [];
  next_token = 1;
  cancelled = [];
}

abbrev d3 : Dispatch ℕ
d3 = record { job_id = 8; kind = 2; cancel = 0 }

-- The second job has the lower priority value and goes first.
dispatch_test : try_dispatch r2 ≡ some (d3, r3)
unfolding try_dispatch pop cmp submit new
dispatch_test = refl

cancel_test : (cancel r3 8).1 ≡ signalled_running
unfolding cancel
cancel_test = refl

queue_test : (cancel r3 7).1 ≡ removed_from_queue
unfolding cancel drain_loop
queue_test = refl

abbrev reach2 : Reach (new 2) r2
unfolding new submit
reach2 =
    next (next here (submits r0 7 (pos 10) 1 (omega arith)))
      (submits r1 8 (negsuc 4) 2 (omega arith))

dispatch-IsFirst_example : (e : Entry ℕ) × IsFirst r2 d3 r3 e
dispatch-IsFirst_example = dispatch-IsFirst 2 r2 d3 r3 reach2 dispatch_test

try_dispatch-none_example : (try_dispatch r3 ≡ none) ↔ ((r3.available ≡ 0) ⊎ (r3.pending ≡ []))
try_dispatch-none_example = try_dispatch-none r3

submit_order_example :
    (e : Entry ℕ) × ((submit r2 9 (pos 10) 3).pending ≡ e ∷ r2.pending)
    × (e.job_id ≡ 9)
    × (e.priority ≡ pos 10)
    × (e.kind ≡ 3)
    × All
        (λ f.
          ((cmp f e ≡ Ordering.gt) ↔ (f.priority ≤ℤ pos 10))
          × ((cmp e f ≡ Ordering.gt) ↔ (pos 10 <ℤ f.priority)))
        r2.pending
unfolding r2
submit_order_example = submit_order 2 r2 9 (pos 10) 3 reach2 (omega arith)

cancel-Outcome_example : Outcome r3 7 (cancel r3 7)
cancel-Outcome_example = cancel-Outcome r3 7

Reach-IsWellFormed_example : IsWellFormed r2
Reach-IsWellFormed_example = Reach-IsWellFormed (new-IsWellFormed 2) reach2
