-- ===== src/JobQueue/Order.antt =====
-- The order in which crates/queryfabric-job-queue/src/priority.rs dispatches, over all runs of a runner.
use mathlib.Core.List.{Perm}
use queryfabric.Base.{
  All, All-map, Option-cases, Ordering, Values, [], arith, eq_of_parts, inl, inr, lookup,
  lookup-insert_self, nat_eq, none, refl, some, ℕ, ℤ, ◌%◌, ◌+◌, ◌<ℤ◌, ◌<◌, ◌^◌, ◌↔◌, ◌∷◌, ◌≡◌, ◌≢◌,
  ◌≤ℤ◌, ◌⊎◌,
}
use queryfabric.JobQueue.Runner.{
  Dispatch, Entry, PriorityRunner, Uuid, cmp, new, pop, submit, try_dispatch,
}
use queryfabric.JobQueue.Pending.{Before, OnPop-some, pop-first, pop-none, pop-perm}
use queryfabric.JobQueue.Invariant.{Reach, Reach-IsWellFormed, dispatch_cases, new-IsWellFormed}

-- What is said of a dispatched entry `e`, of the dispatch and of the states before and after.
pub record IsFirst {K : Type 0} (r : PriorityRunner K) (d : Dispatch K) (s : PriorityRunner K)
    (e : Entry K) : Type 0 where
  pub job : d.job_id ≡ e.job_id
  pub kind : d.kind ≡ e.kind
  pub taken : Perm (e ∷ s.pending) r.pending
  pub first : All (Before e) s.pending
  pub permit : s.available + 1 ≡ r.available
  pub registered : lookup d.job_id s.running ≡ some (d.cancel, d.kind)
  pub fresh : Values (λ (p : ℕ × K). p.0 ≢ d.cancel) r.running
  pub live : All (λ t. t ≢ d.cancel) s.cancelled

module _ {K : Type 0} where
  -- In every state that a runner reaches before its counter is used up, a dispatch takes the pending
  -- entry of the lowest priority value, the oldest of those, and leaves the other entries; it takes
  -- one permit, and registers the job under a cancellation token that no running job has and that
  -- is not cancelled.
  pub dispatch-IsFirst :
      (permits : ℕ) (r : PriorityRunner K) (d : Dispatch K) (s : PriorityRunner K)
      → Reach (new permits) r
      → try_dispatch r ≡ some (d, s)
      → (e : Entry K) × IsFirst r d s e
  dispatch-IsFirst permits r d s reach h =
      let w = Reach-IsWellFormed (new-IsWellFormed permits) reach in
      let (e, popped, permit, job, kind, token, after) = dispatch_cases r d s h in
      (
        e,
        record {
          job = job;
          kind = kind;
          taken = OnPop-some (λ b rest. Perm (b ∷ rest) r.pending) popped (pop-perm r.pending);
          first = (OnPop-some _ popped (pop-first r.pending w.distinct)).0;
          permit = permit;
          registered = cc (
            after,
            job,
            kind,
            token,
            lookup-insert_self e.job_id (r.next_token, e.kind) r.running,
          );
          fresh = All-map r.running (λ p lt same. omega (arith, lt, same, token)) w.running_issued;
          live = rw after (
              All-map r.cancelled (λ t lt same. omega (arith, lt, same, token)) w.cancelled_issued);
        },
      )

  -- A dispatch is refused exactly when no permit is free or no entry is pending.
  pub try_dispatch-none :
      (r : PriorityRunner K) → (try_dispatch r ≡ none) ↔ ((r.available ≡ 0) ⊎ (r.pending ≡ []))
  unfolding try_dispatch
  try_dispatch-none r = (
    λ h. elim (Option-cases (pop r.pending)) [
      | inl empty ↦ inr (pop-none r.pending empty)
      | inr (e, popped) ↦ inl (ground arith)
    ],
    λ h. elim h [ inl zero_left ↦ ground arith | inr empty ↦ rw empty (ground arith) ],
  )

  cmp_older :
      (f e : Entry K)
      → f.seq < e.seq
      → ((cmp f e ≡ Ordering.gt) ↔ (f.priority ≤ℤ e.priority))
        × ((cmp e f ≡ Ordering.gt) ↔ (e.priority <ℤ f.priority))
  unfolding cmp
  cmp_older f e older = ground (arith, eq_of_parts f.priority e.priority)

  -- In every state that a runner reaches before its counter is used up, a submitted entry joins the
  -- pending ones, and by `cmp`, the order in which the queue pops its greatest entry, the pending
  -- entries that are greater are exactly those whose priority value is the same or lower, and the
  -- submitted entry is greater than exactly the others.
  pub submit_order :
      (permits : ℕ) (r : PriorityRunner K) (id : Uuid) (priority : ℤ) (kind : K)
      → Reach (new permits) r
      → r.seq + 1 < 2 ^ 64
      → (e : Entry K) × ((submit r id priority kind).pending ≡ e ∷ r.pending)
        × (e.job_id ≡ id)
        × (e.priority ≡ priority)
        × (e.kind ≡ kind)
        × All
            (λ f.
              ((cmp f e ≡ Ordering.gt) ↔ (f.priority ≤ℤ priority))
              × ((cmp e f ≡ Ordering.gt) ↔ (priority <ℤ f.priority)))
            r.pending
  unfolding submit
  submit_order permits r id priority kind reach fits =
      let w = Reach-IsWellFormed (new-IsWellFormed permits) reach in
      let e : Entry K = record {
        job_id = id;
        priority = priority;
        seq = (r.seq + 1) % 2 ^ 64;
        kind = kind;
      } in
      (
        e,
        refl,
        refl,
        refl,
        refl,
        All-map r.pending (λ f old. cmp_older f e (omega (arith, old, fits))) w.counted,
      )
