-- ===== src/JobQueue/Invariant.antt =====
-- The states that a runner of crates/queryfabric-job-queue/src/priority.rs can reach, and what holds in
-- all of them.
use queryfabric.Base.{
  All, All-keep, All-map, Option-cases, Values, Values-insert, Values-lookup, Values-remove, arith,
  inl, inr, insert, lookup, nat_eq, some, subst, sym, ℕ, ℤ, ◌+◌, ◌-◌, ◌<◌, ◌^◌, ◌≡◌, ◌≤◌,
}
use queryfabric.JobQueue.Runner.{
  Dispatch, Entry, PriorityRunner, Uuid, cancel, finish, new, pop, release, submit, try_dispatch,
}
use queryfabric.JobQueue.Pending.{
  Distinct, Distinct-keep, OnPop-some, drain_loop_lem, pop-All, pop-first,
}

-- What holds of a runner between two calls.
pub record IsWellFormed {K : Type 0} (r : PriorityRunner K) : Type 0 where
  pub distinct : Distinct r.pending
  pub counted : All (λ (e : Entry K). e.seq ≤ r.seq) r.pending
  pub running_issued : Values (λ (p : ℕ × K). p.0 < r.next_token) r.running
  pub cancelled_issued : All (λ t. t < r.next_token) r.cancelled

-- The calls of the runner and of its handles, and the end of a worker.
pub data Step {K : Type 0} : PriorityRunner K → PriorityRunner K → Type 0 where
  submits :
      (r : PriorityRunner K) (id : Uuid) (priority : ℤ) (kind : K)
      → r.seq + 1 < 2 ^ 64
      → Step r (submit r id priority kind)
  dispatches : {r s : PriorityRunner K} (d : Dispatch K) → try_dispatch r ≡ some (d, s) → Step r s
  cancels : (r : PriorityRunner K) (id : Uuid) → Step r (cancel r id).0
  finishes : (r : PriorityRunner K) (id : Uuid) → Step r (finish r id)
  releases : (r : PriorityRunner K) → Step r (release r)

pub data Reach {K : Type 0} (r : PriorityRunner K) : PriorityRunner K → Type 0 where
  here : Reach r r
  next : {s t : PriorityRunner K} → Reach r s → Step s t → Reach r t

module _ {K : Type 0} where
  pub dispatch_cases :
      (r : PriorityRunner K) (d : Dispatch K) (s : PriorityRunner K)
      → try_dispatch r ≡ some (d, s)
      → (e : Entry K) × (pop r.pending ≡ some (e, s.pending))
        × (s.available + 1 ≡ r.available)
        × (d.job_id ≡ e.job_id)
        × (d.kind ≡ e.kind)
        × (d.cancel ≡ r.next_token)
        × (s ≡ record r {
          available = r.available - 1;
          pending = s.pending;
          running = insert e.job_id (r.next_token, e.kind) r.running;
          next_token = r.next_token + 1;
        })
  unfolding try_dispatch
  dispatch_cases r d s h = elim (Option-cases (pop r.pending)) [
    | inl empty ↦ ground arith
    | inr ((e, rest), popped) ↦
        (e, ground arith, ground arith, ground arith, ground arith, ground arith, ground arith)
  ]

  pub new-IsWellFormed : (permits : ℕ) → IsWellFormed (new {K = K} permits)
  unfolding new
  new-IsWellFormed permits = record {
    distinct = tt;
    counted = tt;
    running_issued = tt;
    cancelled_issued = tt;
  }

  submit-IsWellFormed :
      (r : PriorityRunner K) (id : Uuid) (priority : ℤ) (kind : K)
      → r.seq + 1 < 2 ^ 64
      → IsWellFormed r
      → IsWellFormed (submit r id priority kind)
  unfolding submit
  submit-IsWellFormed r id priority kind fits w = record {
    distinct = (All-map r.pending (λ e old. omega (arith, fits)) w.counted, w.distinct);
    counted = (omega arith, All-map r.pending (λ e old. omega (arith, fits)) w.counted);
    running_issued = w.running_issued;
    cancelled_issued = w.cancelled_issued;
  }

  dispatched-IsWellFormed :
      (r s : PriorityRunner K) (d : Dispatch K)
      → try_dispatch r ≡ some (d, s)
      → IsWellFormed r
      → IsWellFormed s
  dispatched-IsWellFormed r s d h w =
      let (e, popped, permits, id, kind, token, after) = dispatch_cases r d s h in
      let first = OnPop-some _ popped (pop-first r.pending w.distinct) in
      let counted = OnPop-some _ popped (pop-All (λ e. e.seq ≤ r.seq) r.pending w.counted) in
      let older : (t : ℕ) → t < r.next_token → t < r.next_token + 1 = λ t lt. omega arith in
      subst IsWellFormed (sym after) (record {
        distinct = first.1.1;
        counted = counted.1;
        running_issued =
            Values-insert _ e.job_id (r.next_token, e.kind) r.running (omega arith)
              (All-map r.running (λ p lt. older p.1.0 lt) w.running_issued);
        cancelled_issued = All-map r.cancelled older w.cancelled_issued;
      })

  cancel-IsWellFormed :
      (r : PriorityRunner K) (id : Uuid) → IsWellFormed r → IsWellFormed (cancel r id).0
  unfolding cancel
  cancel-IsWellFormed r id w = elim (Option-cases (lookup id r.running)) [
    | inl idle ↦
        let kept = (drain_loop_lem id r.pending).0 in
        rw (idle, cancel)
          (record {
            distinct = subst Distinct (sym kept) (Distinct-keep _ r.pending w.distinct);
            counted =
                subst (All (λ e. e.seq ≤ r.seq)) (sym kept) (All-keep _ _ r.pending w.counted);
            running_issued = w.running_issued;
            cancelled_issued = w.cancelled_issued;
          })
    | inr ((token, kind), busy) ↦
        rw (busy, cancel)
          (record {
            distinct = w.distinct;
            counted = w.counted;
            running_issued = Values-remove _ id r.running w.running_issued;
            cancelled_issued = (
              Values-lookup (λ (p : ℕ × K). p.0 < r.next_token) id r.running w.running_issued busy,
              w.cancelled_issued,
            );
          })
  ]

  pub Step-IsWellFormed : {r s : PriorityRunner K} → Step r s → IsWellFormed r → IsWellFormed s
  unfolding finish release
  Step-IsWellFormed (submits r id priority kind fits) w =
      submit-IsWellFormed r id priority kind fits w
  Step-IsWellFormed (dispatches {r = r} {s = s} d h) w = dispatched-IsWellFormed r s d h w
  Step-IsWellFormed (cancels r id) w = cancel-IsWellFormed r id w
  Step-IsWellFormed (finishes r id) w = record {
    distinct = w.distinct;
    counted = w.counted;
    running_issued = Values-remove _ id r.running w.running_issued;
    cancelled_issued = w.cancelled_issued;
  }
  Step-IsWellFormed (releases r) w = record {
    distinct = w.distinct;
    counted = w.counted;
    running_issued = w.running_issued;
    cancelled_issued = w.cancelled_issued;
  }

  -- Every state that is reached from a well-formed one by submissions before the counter is used up,
  -- dispatches, cancellations, completions and released permits is well-formed: the sequence numbers of the queue are distinct
  -- and at most the counter, and every token that runs or is cancelled has been issued.
  pub Reach-IsWellFormed : {r s : PriorityRunner K} → IsWellFormed r → Reach r s → IsWellFormed s
  Reach-IsWellFormed w here = w
  Reach-IsWellFormed w (next reach step) = Step-IsWellFormed step (Reach-IsWellFormed w reach)
