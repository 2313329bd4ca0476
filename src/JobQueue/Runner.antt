-- ===== src/JobQueue/Runner.antt =====
-- `PriorityRunner` of crates/queryfabric-job-queue/src/priority.rs. A job id is the number of its UUID. The
-- `BinaryHeap` is the list of its entries, from which `pop` takes a greatest one by `cmp`. The shared
-- semaphore is the number of its free permits. A `CancellationToken` is a number, the next unused one
-- when it is made, and a token is cancelled once it is in `cancelled`; the `DashMap` of running jobs
-- is shared with every handle, so a handle's `finish` is the runner's.
use queryfabric.Base.{
  Bool, Key, List, Option, Ordering, [], compare, false, if◌then◌else◌, insert, keep, length,
  lookup, nat_beq, nat_eq, neg_part, none, pos_part, remove, some, true, ℕ, ℤ, ◌%◌, ◌+◌, ◌-◌, ◌==◌,
  ◌^◌, ◌∷◌,
}

abbrev pub Uuid : Type 0
Uuid = ℕ

pub record Entry (K : Type 0) : Type 0 where
  pub job_id : Uuid
  pub priority : ℤ
  pub seq : ℕ
  pub kind : K

-- `i16::cmp` and `u64::cmp`
abbrev cmp_ℤ : ℤ → ℤ → Ordering
cmp_ℤ a b = compare (pos_part a + neg_part b) (pos_part b + neg_part a)

abbrev then_with : Ordering → Ordering → Ordering
then_with Ordering.eq o = o
then_with o _ = o

pub data CancelOutcome : Type 0 where
  removed_from_queue signalled_running not_found : CancelOutcome

pub record Dispatch (K : Type 0) : Type 0 where
  pub job_id : Uuid
  pub kind : K
  pub cancel : ℕ

pub record PriorityRunner (K : Type 0) : Type 0 where
  pub available : ℕ
  pub pending : List (Entry K)
  pub seq : ℕ
  pub running : List (Uuid × (ℕ × K))
  pub next_token : ℕ
  pub cancelled : List ℕ

module _ {K : Type 0} where
  -- `Ord for Entry`: the greater entry is dispatched first.
  unfoldable pub cmp : Entry K → Entry K → Ordering
  cmp e f = then_with (cmp_ℤ f.priority e.priority) (compare f.seq e.seq)

  abbrev pub is_greater : Entry K → Entry K → Bool
  unfolding cmp
  is_greater e f = elim (cmp e f) [ Ordering.gt ↦ true | _ ↦ false ]

  -- An entry beside a heap whose greatest entry and others are given.
  abbrev pub pick : Entry K → Option (Entry K × List (Entry K)) → Option (Entry K × List (Entry K))
  pick e none = some (e, [])
  pick e (some (best, rest)) =
      if is_greater best e then some (best, e ∷ rest) else some (e, best ∷ rest)

  -- `BinaryHeap::pop`
  unfoldable pub pop : List (Entry K) → Option (Entry K × List (Entry K))
  unfolding cmp
  pop [] = none
  pop (e ∷ es) = pick e (pop es)

  unfoldable pub new : ℕ → PriorityRunner K
  new permits = record {
    available = permits;
    pending = [];
    seq = 0;
    running = [];
    next_token = 0;
    cancelled = [];
  }

  -- `self.seq += 1` on a `u64`.
  unfoldable pub submit : PriorityRunner K → Uuid → ℤ → K → PriorityRunner K
  submit r job_id priority kind =
      let seq = (r.seq + 1) % 2 ^ 64 in
      let entry : Entry K = record {
        job_id = job_id;
        priority = priority;
        seq = seq;
        kind = kind;
      } in
      record r { seq = seq; pending = entry ∷ r.pending }

  -- A permit that is acquired for an empty queue is dropped again.
  unfoldable pub try_dispatch : PriorityRunner K → Option (Dispatch K × PriorityRunner K)
  unfolding pop
  try_dispatch r = if nat_beq r.available 0 then none else elim (pop r.pending) [
    | none ↦ none
    | some (entry, rest) ↦
        let cancel = r.next_token in
        some (
          record { job_id = entry.job_id; kind = entry.kind; cancel = cancel },
          record r {
            available = r.available - 1;
            pending = rest;
            running = insert entry.job_id (cancel, entry.kind) r.running;
            next_token = cancel + 1;
          },
        )
  ]

  -- The loop over the drained entries: what is pushed back, and `found`.
  unfoldable pub drain_loop : Uuid → List (Entry K) → List (Entry K) × Bool
  drain_loop job_id [] = ([], false)
  drain_loop job_id (e ∷ es) =
      let (kept, found) = drain_loop job_id es in
      if nat_beq e.job_id job_id then (kept, true) else (e ∷ kept, found)

  unfoldable pub cancel : PriorityRunner K → Uuid → PriorityRunner K × CancelOutcome
  unfolding drain_loop
  cancel r job_id = elim (lookup job_id r.running) [
    | some (token, kind) ↦ (
      record r { running = remove job_id r.running; cancelled = token ∷ r.cancelled },
      signalled_running,
    )
    | none ↦
        let (kept, found) = drain_loop job_id r.pending in
        (record r { pending = kept }, if found then removed_from_queue else not_found)
  ]

  unfoldable pub finish : PriorityRunner K → Uuid → PriorityRunner K
  finish r job_id = record r { running = remove job_id r.running }

  -- The drop of an `OwnedSemaphorePermit`, when a worker ends.
  unfoldable pub release : PriorityRunner K → PriorityRunner K
  release r = record r { available = r.available + 1 }

  abbrev pub total_pending : PriorityRunner K → ℕ
  total_pending r = length r.pending

  abbrev pub total_running : PriorityRunner K → ℕ
  total_running r = length r.running

module _ {K : Type 0} ⦃e : Key K⦄ where
  unfoldable pub pending_count : PriorityRunner K → K → ℕ
  pending_count r kind = length (keep (λ (p : Entry K). p.kind == kind) r.pending)

  unfoldable pub running_count : PriorityRunner K → K → ℕ
  running_count r kind = length (keep (λ (p : Uuid × (ℕ × K)). p.1.1 == kind) r.running)
