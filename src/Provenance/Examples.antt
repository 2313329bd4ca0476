-- ===== src/Provenance/Examples.antt =====
-- A log of two entries out of order, and the rights on its resource.
use queryfabric.Base.{
  List, [], arith, if◌then◌else◌, keep, length, negsuc, none, pos, refl, some, true, ℕ, ℤ, ◌++◌,
  ◌∷◌, ◌≡◌,
}
use queryfabric.Access.Decision.{ResourceRef, Subject}
use queryfabric.Provenance.Entry.{
  Activity, ProvenanceEntry, accessed, activity_tag, created, deleted, modified, restored, tag,
}
use queryfabric.Provenance.Store.{
  HistoryFilter, matches, no_filter, selects, sort_by_time, stored, vec_append, vec_history,
  vec_store,
}
use queryfabric.Provenance.History.{InOrder, history-append, history_stable, is_at}
use queryfabric.Provenance.Rights.{
  AccessExportRecord, access_export, entry_of, rectify, restore, soft_delete,
}
use queryfabric.Provenance.Trail.{Grows, access_export-trail, rights_trail, trail}

abbrev resource : ResourceRef
resource = record { namespace = 13; id = 1 }

abbrev subject : Subject
subject = record { id = 2; registered = true; attributes = [] }

abbrev late : ProvenanceEntry ℕ
late = entry_of 1 resource none created (pos 20)

abbrev early : ProvenanceEntry ℕ
early = entry_of 2 resource (some subject) restored (negsuc 4)

abbrev log : List (ProvenanceEntry ℕ)
log = late ∷ early ∷ []

history_test : (vec_history log resource no_filter).entries ≡ early ∷ late ∷ []
unfolding vec_history sort_by_time matches
history_test = refl

abbrev by_tag : HistoryFilter
by_tag = record {
  activity_tag = some "created";
  actor = none;
  from_unix_ms = some (pos 0);
  until_unix_ms = none;
}

filter_test : (vec_history log resource by_tag).entries ≡ late ∷ []
unfolding vec_history sort_by_time matches tag activity_tag
filter_test = refl

history_stable_example :
    InOrder (vec_history log resource by_tag).entries
    × ((t : ℤ)
        → keep (is_at t) (vec_history log resource by_tag).entries
          ≡ keep (is_at t) (keep (selects resource by_tag) log))
history_stable_example = history_stable log resource by_tag

abbrev third : ProvenanceEntry ℕ
third = entry_of 3 resource none created (pos 20)

history-append_example :
    (vec_history (vec_append log third) resource no_filter).entries
    ≡ (vec_history log resource no_filter).entries
      ++ (if selects resource no_filter third then third ∷ [] else [])
history-append_example =
    history-append log third resource no_filter (omega arith, (omega arith, tt))

access_export-trail_example :
    (after : List (ProvenanceEntry ℕ)) × (export : AccessExportRecord ℕ ℕ) × (access_export
        vec_store log 3 resource subject 0
        (pos 30)
      ≡ stored (after, export))
    × (export.history.entries ≡ trail log resource)
    × Grows log after
        (entry_of 3 resource (some subject) (accessed (length (trail log resource))) (pos 30))
access_export-trail_example =
    access_export-trail log 3 resource subject 0 (pos 30) (omega arith, (omega arith, tt))

rights_trail_example :
    let after : Activity → List (ProvenanceEntry ℕ) =
      λ activity. vec_append log (entry_of 3 resource none activity (pos 30)) in
    (rectify vec_store log 3 resource none "name" (pos 30)
      ≡ stored (
        after (modified "name"),
        record { resource = resource; field = "name"; rectified_at_unix_ms = pos 30 },
      ))
    × (soft_delete vec_store log 3 resource none "name" (pos 30)
        ≡ stored (
          after (deleted "name"),
          record { resource = resource; reason = "name"; deleted_at_unix_ms = pos 30 },
        ))
    × (restore vec_store log 3 resource none (pos 30) ≡ stored (after restored))
    × ((activity : Activity)
        → Grows log (after activity) (entry_of 3 resource none activity (pos 30)))
rights_trail_example =
    rights_trail log 3 resource none "name" (pos 30) (omega arith, (omega arith, tt))
