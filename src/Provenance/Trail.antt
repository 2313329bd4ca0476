-- ===== src/Provenance/Trail.antt =====
-- The trail that the data rights of crates/queryfabric-access/src/rights.rs leave in the store in memory.
use queryfabric.Base.{
  All, List, Option, String, [], ap, arith, if◌then◌else◌, length, refl, some, ℤ, ◌++◌, ◌==◌, ◌∙◌,
  ◌∷◌, ◌≡◌, ◌≤ℤ◌,
}
use queryfabric.Access.Decision.{ResourceRef, Subject, Uuid, resource_eq}
use queryfabric.Provenance.Entry.{Activity, ProvenanceEntry, accessed, deleted, modified, restored}
use queryfabric.Provenance.Store.{
  matches, no_filter, selects, stored, vec_append, vec_history, vec_store,
}
use queryfabric.Provenance.History.{IsLatest, history-append}
use queryfabric.Provenance.Rights.{
  AccessExportRecord, access_export, entry_of, record_activity, rectify, restore, soft_delete,
}

module _ {J : Type 0} where
  -- The entries of a resource, as a history without filter gives them.
  abbrev pub trail : List (ProvenanceEntry J) → ResourceRef → List (ProvenanceEntry J)
  trail entries r = (vec_history entries r no_filter).entries

  -- The trail of the resource grows by the entry, and no other trail changes.
  abbrev pub Grows :
      List (ProvenanceEntry J) → List (ProvenanceEntry J) → ProvenanceEntry J → Type 0
  Grows before after e =
      (q : ResourceRef) → trail after q ≡ trail before q ++ (if e.resource == q then e ∷ [] else [])

  selects_all :
      (q : ResourceRef) (e : ProvenanceEntry J) → selects q no_filter e ≡ (e.resource == q)
  unfolding matches
  selects_all q e = ground arith

  append-Grows :
      (entries : List (ProvenanceEntry J)) (e : ProvenanceEntry J)
      → IsLatest e entries
      → Grows entries (vec_append entries e) e
  append-Grows entries e latest q =
      history-append entries e q no_filter latest
      ∙ ap (λ b. trail entries q ++ (if b then e ∷ [] else [])) (selects_all q e)

  -- An access export at a time that no entry is later than succeeds. It hands over the whole trail of
  -- the resource as it was before, and grows that trail alone, by one entry that names the subject
  -- and the number of entries handed over.
  pub access_export-trail :
      {P : Type 0} (entries : List (ProvenanceEntry J)) (id : Uuid) (r : ResourceRef) (s : Subject)
      (policy : P) (now : ℤ)
      → All (λ f. f.occurred_at_unix_ms ≤ℤ now) entries
      → (after : List (ProvenanceEntry J)) × (export : AccessExportRecord J P) × (access_export
            vec_store entries id r s policy now
          ≡ stored (after, export))
        × (export.history.entries ≡ trail entries r)
        × Grows entries after (entry_of id r (some s) (accessed (length (trail entries r))) now)
  unfolding access_export record_activity vec_store
  access_export-trail entries id r s policy now latest =
      let e : ProvenanceEntry J =
        entry_of id r (some s) (accessed (length (trail entries r))) now in
      (vec_append entries e, _, refl, refl, append-Grows entries e latest)

  -- A rectification, a soft deletion and a restoration at a time that no entry is later than succeed,
  -- with receipts of what was asked. Each grows the trail of its resource alone, by the one entry
  -- that says who did what and when.
  pub rights_trail :
      (entries : List (ProvenanceEntry J)) (id : Uuid) (r : ResourceRef) (actor : Option Subject)
      (text : String) (now : ℤ)
      → All (λ f. f.occurred_at_unix_ms ≤ℤ now) entries
      → let after : Activity → List (ProvenanceEntry J) =
          λ activity. vec_append entries (entry_of id r actor activity now) in
        (rectify vec_store entries id r actor text now
          ≡ stored (
            after (modified text),
            record { resource = r; field = text; rectified_at_unix_ms = now },
          ))
        × (soft_delete vec_store entries id r actor text now
            ≡ stored (
              after (deleted text),
              record { resource = r; reason = text; deleted_at_unix_ms = now },
            ))
        × (restore vec_store entries id r actor now ≡ stored (after restored))
        × ((activity : Activity)
            → Grows entries (after activity) (entry_of id r actor activity now))
  unfolding rectify soft_delete restore record_activity vec_store
  rights_trail entries id r actor text now latest =
      (refl, refl, refl, λ activity. append-Grows entries (entry_of id r actor activity now) latest)
