-- ===== src/Provenance/History.antt =====
-- The histories of crates/queryfabric-provenance/src/store.rs: their order, and what an append does to them.
use queryfabric.Base.{
  All, All-keep, All-map, Bool, Bool-cases, List, [], ap, append-nil, arith, if◌then◌else◌, inl,
  inr, keep, leb_ℤ, nat_eq, refl, sym, ℤ, ◌&&◌, ◌++◌, ◌∙◌, ◌∷◌, ◌≡◌, ◌≤ℤ◌,
}
use queryfabric.Access.Decision.{ResourceRef, resource_eq}
use queryfabric.Provenance.Entry.{ProvenanceEntry}
use queryfabric.Provenance.Store.{
  HistoryFilter, insert_by_time, selects, sort_by_time, vec_append, vec_history,
}

module _ {J : Type 0} where
  abbrev pub InOrder : List (ProvenanceEntry J) → Type 0
  InOrder [] = Unit
  InOrder (e ∷ es) = All (λ f. e.occurred_at_unix_ms ≤ℤ f.occurred_at_unix_ms) es × InOrder es

  abbrev pub is_at : ℤ → ProvenanceEntry J → Bool
  is_at t e = leb_ℤ e.occurred_at_unix_ms t && leb_ℤ t e.occurred_at_unix_ms

  insert-All :
      (P : ProvenanceEntry J → Type 0) (e : ProvenanceEntry J) (es : List (ProvenanceEntry J))
      → P e
      → All P es
      → All P (insert_by_time e es)
  insert-All P e [] p all = (p, tt)
  insert-All P e (f ∷ fs) p all =
      elim (Bool-cases (leb_ℤ e.occurred_at_unix_ms f.occurred_at_unix_ms)) [
        | inl first ↦ rw first (p, all)
        | inr later ↦ rw later (all.0, insert-All P e fs p all.1)
      ]

  insert-InOrder :
      (e : ProvenanceEntry J) (es : List (ProvenanceEntry J))
      → InOrder es
      → InOrder (insert_by_time e es)
  insert-InOrder e [] o = (tt, tt)
  insert-InOrder e (f ∷ fs) o =
      elim (Bool-cases (leb_ℤ e.occurred_at_unix_ms f.occurred_at_unix_ms)) [
        | inl first ↦
            let le : e.occurred_at_unix_ms ≤ℤ f.occurred_at_unix_ms = ground (arith, first) in
            rw first ((le, All-map fs (λ g h. omega (arith, h, le)) o.0), o)
        | inr later ↦
            rw later (insert-All _ e fs (ground (arith, later)) o.0, insert-InOrder e fs o.1)
      ]

  sort-InOrder : (es : List (ProvenanceEntry J)) → InOrder (sort_by_time es)
  unfolding sort_by_time
  sort-InOrder [] = tt
  sort-InOrder (e ∷ es) = insert-InOrder e (sort_by_time es) (sort-InOrder es)

  keep-insert :
      (t : ℤ) (e : ProvenanceEntry J) (es : List (ProvenanceEntry J))
      → keep (is_at t) (insert_by_time e es) ≡ keep (is_at t) (e ∷ es)
  keep-insert t e [] = refl
  keep-insert t e (f ∷ fs) = ground (arith, keep-insert t e fs)

  keep-sort :
      (t : ℤ) (es : List (ProvenanceEntry J)) → keep (is_at t) (sort_by_time es) ≡ keep (is_at t) es
  unfolding sort_by_time
  keep-sort t [] = refl
  keep-sort t (e ∷ es) =
      keep-insert t e (sort_by_time es) ∙ ap (λ l. if is_at t e then e ∷ l else l) (keep-sort t es)

  -- A history is in the order of the times, and holds for each time just the entries that were
  -- appended of the resource, of that time, and passing the filter, in the order of their appends.
  pub history_stable :
      (entries : List (ProvenanceEntry J)) (r : ResourceRef) (filter : HistoryFilter)
      → InOrder (vec_history entries r filter).entries
        × ((t : ℤ)
            → keep (is_at t) (vec_history entries r filter).entries
              ≡ keep (is_at t) (keep (selects r filter) entries))
  unfolding vec_history
  history_stable entries r filter = (
    sort-InOrder (keep (selects r filter) entries),
    λ t. keep-sort t (keep (selects r filter) entries),
  )

  insert-append :
      (x e : ProvenanceEntry J) (es : List (ProvenanceEntry J))
      → x.occurred_at_unix_ms ≤ℤ e.occurred_at_unix_ms
      → insert_by_time x (es ++ e ∷ []) ≡ insert_by_time x es ++ e ∷ []
  insert-append x e [] le = ground arith
  insert-append x e (f ∷ fs) le =
      elim (Bool-cases (leb_ℤ x.occurred_at_unix_ms f.occurred_at_unix_ms)) [
        | inl first ↦ rw first refl
        | inr later ↦ rw later (ap (λ l. f ∷ l) (insert-append x e fs le))
      ]

  -- No entry is later than `e`.
  abbrev pub IsLatest : ProvenanceEntry J → List (ProvenanceEntry J) → Type 0
  IsLatest e = All (λ f. f.occurred_at_unix_ms ≤ℤ e.occurred_at_unix_ms)

  sort-append :
      (es : List (ProvenanceEntry J)) (e : ProvenanceEntry J)
      → IsLatest e es
      → sort_by_time (es ++ e ∷ []) ≡ sort_by_time es ++ e ∷ []
  unfolding sort_by_time
  sort-append [] e latest = refl
  sort-append (x ∷ es) e latest =
      ap (insert_by_time x) (sort-append es e latest.1)
      ∙ insert-append x e (sort_by_time es) latest.0

  keep-append :
      (test : ProvenanceEntry J → Bool) (es : List (ProvenanceEntry J)) (e : ProvenanceEntry J)
      → keep test (es ++ e ∷ []) ≡ keep test es ++ (if test e then e ∷ [] else [])
  keep-append test [] e = refl
  keep-append test (x ∷ es) e = ground (arith, keep-append test es e)

  -- An entry that is no earlier than the others of its store goes to the end of the histories that
  -- select it, and changes no other history.
  pub history-append :
      (entries : List (ProvenanceEntry J)) (e : ProvenanceEntry J) (r : ResourceRef)
      (filter : HistoryFilter)
      → IsLatest e entries
      → (vec_history (vec_append entries e) r filter).entries
        ≡ (vec_history entries r filter).entries ++ (if selects r filter e then e ∷ [] else [])
  unfolding vec_history vec_append
  history-append entries e r filter latest =
      let kept = keep (selects r filter) entries in
      ap sort_by_time (keep-append (selects r filter) entries e)
      ∙ elim (Bool-cases (selects r filter e)) [
        | inl in_it ↦ rw in_it (sort-append kept e (All-keep _ (selects r filter) entries latest))
        | inr out ↦
            rw out (ap sort_by_time (append-nil kept) ∙ sym (append-nil (sort_by_time kept)))
      ]
