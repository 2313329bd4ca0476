-- ===== src/Provenance/Entry.antt =====
-- crates/queryfabric-provenance/src/entry.rs and the activities of
-- crates/queryfabric-contract/src/provenance.rs. A UUID and a node id are numbers, and the JSON payload of a
-- host's activity is an argument `J` that nothing inspects.
use queryfabric.Base.{List, Option, String, ℕ, ℤ}
use queryfabric.Access.Decision.{ResourceRef, Subject, Uuid}

pub data Activity : Type 0 where
  created restored : Activity
  deleted : (reason : String) → Activity
  accessed : (rows : ℕ) → Activity
  modified : (field : String) → Activity
  ownership_transferred : (from to : Uuid) → Activity
  content_hash_recorded : (algo hash : String) → Activity
  federation_flow : (nodes : List Uuid) (latencies_ms : List ℕ) → Activity
  backup_anchor : (location content_hash : String) → Activity

-- `Activity::tag`
unfoldable pub activity_tag : Activity → String
activity_tag created = "created"
activity_tag (deleted reason) = "deleted"
activity_tag restored = "restored"
activity_tag (accessed rows) = "accessed"
activity_tag (modified field) = "modified"
activity_tag (ownership_transferred from to) = "ownership_transferred"
activity_tag (content_hash_recorded algo hash) = "content_hash_recorded"
activity_tag (federation_flow nodes latencies_ms) = "federation_flow"
activity_tag (backup_anchor location content_hash) = "backup_anchor"

pub data RecordedActivity (J : Type 0) : Type 0 where
  core : Activity → RecordedActivity J
  domain : (kind : String) (payload : J) → RecordedActivity J

-- `RecordedActivity::tag`
unfoldable pub tag : {J : Type 0} → RecordedActivity J → String
unfolding activity_tag
tag (core activity) = activity_tag activity
tag (domain kind payload) = kind

pub record ProvenanceEntry (J : Type 0) : Type 0 where
  pub id : Uuid
  pub resource : ResourceRef
  pub actor : Option Subject
  pub activity : RecordedActivity J
  pub description : Option String
  pub occurred_at_unix_ms : ℤ

pub record ProvenanceHistory (J : Type 0) : Type 0 where
  pub resource : ResourceRef
  pub entries : List (ProvenanceEntry J)
