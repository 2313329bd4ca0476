-- ===== src/JobQueue/Cancel.antt =====
-- Cancellation in crates/queryfabric-job-queue/src/priority.rs.
use queryfabric.Base.{
  All, Bool-cases, Option-cases, ap, inl, inr, keep, length, lookup, lookup-remove_self, nat_eq,
  none, refl, some, subst, ℕ, ◌<◌, ◌∷◌, ◌≡◌, ◌≢◌,
}
use queryfabric.JobQueue.Runner.{
  CancelOutcome, PriorityRunner, Uuid, cancel, drain_loop, not_found, removed_from_queue,
  signalled_running,
}
use queryfabric.JobQueue.Pending.{drain_loop_lem, is_other}

module _ {K : Type 0} where
  -- What each outcome of cancelling `id` says of the states before and after.
  abbrev pub Outcome : PriorityRunner K → Uuid → PriorityRunner K × CancelOutcome → Type 0
  Outcome r id (s, signalled_running) =
      (token : ℕ) × (kind : K) × (lookup id r.running ≡ some (token, kind))
      × (lookup id s.running ≡ none)
      × (s.cancelled ≡ token ∷ r.cancelled)
      × (s.pending ≡ r.pending)
  Outcome r id (s, removed_from_queue) =
      (lookup id r.running ≡ none)
      × (s ≡ record r { pending = keep (is_other id) r.pending })
      × All (λ e. e.job_id ≢ id) s.pending
      × (length s.pending < length r.pending)
  Outcome r id (s, not_found) =
      (lookup id r.running ≡ none) × (s ≡ r) × All (λ e. e.job_id ≢ id) r.pending

  -- Cancelling a job that runs signals its token, takes it from the running jobs and leaves the queue
  -- alone. A job that does not run is taken from the queue, all its entries and no others, in the
  -- order they had. Only if it is in neither place is it not found, and then nothing changes.
  pub cancel-Outcome : (r : PriorityRunner K) (id : Uuid) → Outcome r id (cancel r id)
  unfolding cancel
  cancel-Outcome r id = elim (Option-cases (lookup id r.running)) [
    | inr ((token, kind), busy) ↦
        rw (busy, cancel) (token, kind, busy, lookup-remove_self id r.running, refl, refl)
    | inl idle ↦
        let (kept, others, found, missed) = drain_loop_lem id r.pending in
        elim (Bool-cases (drain_loop id r.pending).1) [
          | inl yes_found ↦
              rw (idle, cancel, yes_found)
                (idle, ap (λ es. record r { pending = es }) kept, others, found yes_found)
          | inr not_there ↦
              rw (idle, cancel, not_there)
                (
                  idle,
                  ap (λ es. record r { pending = es }) (missed not_there),
                  subst (All _) (missed not_there) others,
                )
        ]
  ]
