-- ===== src/Provenance/Store.antt =====
-- crates/queryfabric-provenance/src/store.rs: the interface of a store, and `VecProvenanceStore`. The
-- lock of the latter fails only after a panic inside it, which none of its code raises, so that
-- case is left out; `sort_by_key` is a stable sort.
use queryfabric.Base.{
  Bool, List, Option, String, [], false, if◌then◌else◌, keep, leb_ℤ, ltb_ℤ, nat_eq, none, some,
  string_eq, true, ℤ, ◌&&◌, ◌++◌, ◌==◌, ◌∷◌,
}
use queryfabric.Access.Decision.{ResourceRef, Subject, Uuid, resource_eq}
use queryfabric.Provenance.Entry.{ProvenanceEntry, ProvenanceHistory, tag}

pub data ProvenanceError : Type 0 where
  storage serialization : (message : String) → ProvenanceError

pub data Stored (A : Type 0) : Type 0 where
  failed : ProvenanceError → Stored A
  stored : A → Stored A

module _ {A B : Type 0} where
  infixl 5 ◌>>=◌
  abbrev pub ◌>>=◌ : Stored A → (A → Stored B) → Stored B
  failed problem >>= rest = failed problem
  stored value >>= rest = rest value

pub record HistoryFilter : Type 0 where
  pub activity_tag : Option String
  pub actor : Option Uuid
  pub from_unix_ms : Option ℤ
  pub until_unix_ms : Option ℤ

-- `HistoryFilter::default()`
abbrev pub no_filter : HistoryFilter
no_filter = record { activity_tag = none; actor = none; from_unix_ms = none; until_unix_ms = none }

-- `Option::is_none_or`
abbrev pub is_none_or {ℓ} : {A : Type ℓ} → Option A → (A → Bool) → Bool
is_none_or none test = true
is_none_or (some a) test = test a

-- `entry.actor.as_ref().map(|subject| subject.id) == Some(actor)`
abbrev pub is_actor : Option Subject → Uuid → Bool
is_actor none actor = false
is_actor (some subject) actor = subject.id == actor

pub record ProvenanceStore (J S : Type 0) : Type 1 where
  pub append : S → ProvenanceEntry J → Stored S
  pub history : S → ResourceRef → HistoryFilter → Stored (ProvenanceHistory J)

module _ {J : Type 0} where
  unfoldable pub matches : HistoryFilter → ProvenanceEntry J → Bool
  unfolding tag
  matches filter entry =
      is_none_or filter.activity_tag (λ t. tag entry.activity == t)
      && (is_none_or filter.actor (is_actor entry.actor)
          && (is_none_or filter.from_unix_ms (λ from. leb_ℤ from entry.occurred_at_unix_ms)
              && is_none_or filter.until_unix_ms (λ until. ltb_ℤ entry.occurred_at_unix_ms until)))

  -- An entry goes before those of its time or later.
  abbrev pub insert_by_time :
      ProvenanceEntry J → List (ProvenanceEntry J) → List (ProvenanceEntry J)
  insert_by_time e [] = e ∷ []
  insert_by_time e (f ∷ fs) =
      if leb_ℤ e.occurred_at_unix_ms f.occurred_at_unix_ms
      then e ∷ f ∷ fs
      else f ∷ insert_by_time e fs

  -- `sort_by_key(|entry| entry.occurred_at_unix_ms)`
  unfoldable pub sort_by_time : List (ProvenanceEntry J) → List (ProvenanceEntry J)
  sort_by_time [] = []
  sort_by_time (e ∷ es) = insert_by_time e (sort_by_time es)

  abbrev pub selects : ResourceRef → HistoryFilter → ProvenanceEntry J → Bool
  unfolding matches
  selects resource filter entry = (entry.resource == resource) && matches filter entry

  unfoldable pub vec_append :
      List (ProvenanceEntry J) → ProvenanceEntry J → List (ProvenanceEntry J)
  vec_append entries entry = entries ++ entry ∷ []

  unfoldable pub vec_history :
      List (ProvenanceEntry J) → ResourceRef → HistoryFilter → ProvenanceHistory J
  unfolding sort_by_time
  vec_history entries resource filter = record {
    resource = resource;
    entries = sort_by_time (keep (selects resource filter) entries);
  }

  -- `VecProvenanceStore`, whose state is its entries.
  unfoldable pub vec_store : ProvenanceStore J (List (ProvenanceEntry J))
  unfolding vec_append vec_history
  vec_store = record {
    append = λ entries entry. stored (vec_append entries entry);
    history = λ entries resource filter. stored (vec_history entries resource filter);
  }
