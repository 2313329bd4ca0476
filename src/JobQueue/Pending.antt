-- ===== src/JobQueue/Pending.antt =====
-- The queue of crates/queryfabric-job-queue/src/priority.rs: the order of its entries, and what `pop` and the
-- drain loop of `cancel` take out.
use mathlib.Core.List.Perm
use mathlib.Core.List.{Perm}
use queryfabric.Base.{
  All, All-keep, All-map, Bool, Bool-cases, List, Option, [], arith, eq_of_parts, false, inl, inr,
  keep, length, length-keep-le, nat_beq, none, not, refl, some, subst, sym, true, ◌<ℤ◌, ◌<◌, ◌∷◌,
  ◌≡◌, ◌≢◌, ◌⊎◌,
}
use queryfabric.JobQueue.Runner.{Entry, Uuid, cmp, drain_loop, is_greater, pick, pop}

module _ {K : Type 0} where
  -- A lower priority goes first, and of equal priorities the older entry.
  abbrev pub Before : Entry K → Entry K → Type 0
  Before e f = (e.priority <ℤ f.priority) ⊎ ((e.priority ≡ f.priority) × (e.seq < f.seq))

  pub is_greater→Before : (e f : Entry K) → is_greater e f ≡ true → Before e f
  unfolding cmp
  is_greater→Before e f h = ground (arith, eq_of_parts e.priority f.priority)

  not_greater→Before : (e f : Entry K) → is_greater e f ≡ false → e.seq ≢ f.seq → Before f e
  unfolding cmp
  not_greater→Before e f h other = ground (arith, eq_of_parts f.priority e.priority)

  Before-trans : (e f g : Entry K) → Before e f → Before f g → Before e g
  Before-trans e f g h k = ground arith

  -- No two entries have the same sequence number.
  abbrev pub Distinct : List (Entry K) → Type 0
  Distinct [] = Unit
  Distinct (e ∷ es) = All (λ f. e.seq ≢ f.seq) es × Distinct es

  -- What holds of the entry that is popped and of the others.
  abbrev pub OnPop :
      (Entry K → List (Entry K) → Type 0) → Option (Entry K × List (Entry K)) → Type 0
  OnPop Q none = Unit
  OnPop Q (some (best, rest)) = Q best rest

  pick-All :
      (P : Entry K → Type 0) (e : Entry K) (o : Option (Entry K × List (Entry K)))
      → P e
      → OnPop (λ b r. P b × All P r) o
      → OnPop (λ b r. P b × All P r) (pick e o)
  pick-All P e none pe h = (pe, tt)
  pick-All P e (some (b, r)) pe h = elim (Bool-cases (is_greater b e)) [
    | inl up ↦ rw up (h.0, (pe, h.1))
    | inr down ↦ rw down (pe, (h.0, h.1))
  ]

  pub pop-All :
      (P : Entry K → Type 0) (es : List (Entry K))
      → All P es
      → OnPop (λ b r. P b × All P r) (pop es)
  unfolding pop
  pop-All P [] h = tt
  pop-All P (e ∷ es) h = pick-All P e (pop es) h.0 (pop-All P es h.1)

  pick-perm :
      (e : Entry K) (es : List (Entry K)) (o : Option (Entry K × List (Entry K)))
      → ((o ≡ none) → es ≡ [])
      → OnPop (λ b r. Perm (b ∷ r) es) o
      → OnPop (λ b r. Perm (b ∷ r) (e ∷ es)) (pick e o)
  pick-perm e es none empty h = rw (empty refl) (Perm.refl (e ∷ []))
  pick-perm e es (some (b, r)) empty h = elim (Bool-cases (is_greater b e)) [
    | inl up ↦ rw up (Perm.trans (Perm.swap e b r) (Perm.cons e h))
    | inr down ↦ rw down (Perm.cons e h)
  ]

  pick-ne-none : (e : Entry K) (o : Option (Entry K × List (Entry K))) → pick e o ≢ none
  pick-ne-none e none h = cc
  pick-ne-none e (some (b, r)) h = ground arith

  pub pop-none : (es : List (Entry K)) → pop es ≡ none → es ≡ []
  unfolding pop
  pop-none [] h = refl
  pop-none (e ∷ es) h = absurd (pick-ne-none e (pop es) h)

  pub pop-perm : (es : List (Entry K)) → OnPop (λ b r. Perm (b ∷ r) es) (pop es)
  unfolding pop
  pop-perm [] = tt
  pop-perm (e ∷ es) = pick-perm e es (pop es) (pop-none es) (pop-perm es)

  pick-first :
      (e : Entry K) (o : Option (Entry K × List (Entry K)))
      → OnPop (λ b r. (e.seq ≢ b.seq) × All (λ f. e.seq ≢ f.seq) r) o
      → OnPop (λ b r. All (Before b) r × Distinct (b ∷ r)) o
      → OnPop (λ b r. All (Before b) r × Distinct (b ∷ r)) (pick e o)
  pick-first e none h k = (tt, (tt, tt))
  pick-first e (some (b, r)) h k = elim (Bool-cases (is_greater b e)) [
    | inl up ↦ rw up ((is_greater→Before b e up, k.0), (((λ s. h.0 (sym s)), k.1.0), (h.1, k.1.1)))
    | inr down ↦
        let first = not_greater→Before b e down (λ s. h.0 (sym s)) in
        rw down
          ((first, All-map r (λ f later. Before-trans e b f first later) k.0), ((h.0, h.1), k.1))
  ]

  -- With distinct sequence numbers `pop` takes the one entry that goes before all others.
  pub pop-first :
      (es : List (Entry K))
      → Distinct es
      → OnPop (λ b r. All (Before b) r × Distinct (b ∷ r)) (pop es)
  unfolding pop
  pop-first [] d = tt
  pop-first (e ∷ es) d =
      pick-first e (pop es) (pop-All (λ f. e.seq ≢ f.seq) es d.0) (pop-first es d.1)

  pub OnPop-some :
      (Q : Entry K → List (Entry K) → Type 0) {o : Option (Entry K × List (Entry K))} {b : Entry K}
      {r : List (Entry K)}
      → o ≡ some (b, r)
      → OnPop Q o
      → Q b r
  OnPop-some Q e h = subst (OnPop Q) e h

  abbrev pub is_other : Uuid → Entry K → Bool
  is_other id e = not (nat_beq e.job_id id)

  -- What the drain loop keeps, and what `found` says.
  pub drain_loop_lem :
      (id : Uuid) (es : List (Entry K))
      → let (kept, found) = drain_loop id es in
        (kept ≡ keep (is_other id) es)
        × All (λ f. f.job_id ≢ id) kept
        × (found ≡ true → length kept < length es)
        × (found ≡ false → kept ≡ es)
  unfolding drain_loop
  drain_loop_lem id [] = (refl, tt, (λ h. cc), (λ h. refl))
  drain_loop_lem id (e ∷ es) = ground (arith, drain_loop_lem id es, length-keep-le (is_other id) es)

  pub Distinct-keep :
      (test : Entry K → Bool) (es : List (Entry K)) → Distinct es → Distinct (keep test es)
  Distinct-keep test [] d = tt
  Distinct-keep test (e ∷ es) d = elim (Bool-cases (test e)) [
    | inl in_it ↦ rw in_it (All-keep (λ f. e.seq ≢ f.seq) test es d.0, Distinct-keep test es d.1)
    | inr out ↦ rw out (Distinct-keep test es d.1)
  ]
