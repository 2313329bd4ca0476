-- ===== src/Provenance/Rights.antt =====
-- `DataRights` of crates/queryfabric-access/src/rights.rs over any store. The state of the store is passed on;
-- the id of a new entry, a UUID of a third-party library, is an argument, and the policy of a
-- resource is copied unread, so its type `P` is one too.
use queryfabric.Base.{Option, String, length, none, some, ℤ}
use queryfabric.Access.Decision.{ResourceRef, Subject, Uuid}
use queryfabric.Provenance.Entry.{
  Activity, ProvenanceEntry, ProvenanceHistory, accessed, core, deleted, modified, restored,
}
use queryfabric.Provenance.Store.{ProvenanceStore, Stored, no_filter, stored, ◌>>=◌}

pub record AccessExportRecord (J P : Type 0) : Type 0 where
  pub resource : ResourceRef
  pub subject_id : Uuid
  pub policy : P
  pub history : ProvenanceHistory J
  pub exported_at_unix_ms : ℤ

pub record RectifyReceipt : Type 0 where
  pub resource : ResourceRef
  pub field : String
  pub rectified_at_unix_ms : ℤ

pub record SoftDeletion : Type 0 where
  pub resource : ResourceRef
  pub reason : String
  pub deleted_at_unix_ms : ℤ

-- The entry that `record` appends.
abbrev pub entry_of :
    {J : Type 0} → Uuid → ResourceRef → Option Subject → Activity → ℤ → ProvenanceEntry J
entry_of id resource actor activity now = record {
  id = id;
  resource = resource;
  actor = actor;
  activity = core activity;
  description = none;
  occurred_at_unix_ms = now;
}

module _ {J S : Type 0} (store : ProvenanceStore J S) where
  -- `DataRights::record`
  unfoldable pub record_activity : S → Uuid → ResourceRef → Option Subject → Activity → ℤ → Stored S
  record_activity state id resource actor activity now =
      store.append state (entry_of id resource actor activity now)

  unfoldable pub access_export :
      {P : Type 0} → S → Uuid → ResourceRef → Subject → P → ℤ → Stored (S × AccessExportRecord J P)
  unfolding record_activity
  access_export state id resource subject policy now = do
    history ← store.history state resource no_filter
    after ← record_activity state id resource (some subject) (accessed (length history.entries)) now
    stored (
      after,
      record {
        resource = resource;
        subject_id = subject.id;
        policy = policy;
        history = history;
        exported_at_unix_ms = now;
      },
    )

  unfoldable pub rectify :
      S → Uuid → ResourceRef → Option Subject → String → ℤ → Stored (S × RectifyReceipt)
  unfolding record_activity
  rectify state id resource actor field now = do
    after ← record_activity state id resource actor (modified field) now
    stored (after, record { resource = resource; field = field; rectified_at_unix_ms = now })

  unfoldable pub soft_delete :
      S → Uuid → ResourceRef → Option Subject → String → ℤ → Stored (S × SoftDeletion)
  unfolding record_activity
  soft_delete state id resource actor reason now = do
    after ← record_activity state id resource actor (deleted reason) now
    stored (after, record { resource = resource; reason = reason; deleted_at_unix_ms = now })

  unfoldable pub restore : S → Uuid → ResourceRef → Option Subject → ℤ → Stored S
  unfolding record_activity
  restore state id resource actor now = record_activity state id resource actor restored now
