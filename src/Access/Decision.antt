-- ===== src/Access/Decision.antt =====
-- crates/queryfabric-access/src/decision.rs over the types of crates/queryfabric-contract/src/access.rs. A UUID
-- is its number. The trait `OwnershipSource` is a record of its methods; they do not change what
-- they answer during a decision. `AccessPolicy` has just the three tiers, so the catch-all arm of
-- `evaluate_with_snapshot` has no case here.
use queryfabric.Base.{
  Bool, Key, List, Option, String, [], arith, contains, false, if◌then◌else◌, nat_eq, none, some,
  some_of, true, ℕ, ◌&&◌, ◌==◌, ◌||◌, ◌↔◌, ◌∷◌, ◌≡◌,
}

abbrev pub Uuid : Type 0
Uuid = ℕ

pub record ResourceRef : Type 0 where
  pub namespace : Uuid
  pub id : Uuid

abbrev pub same_resource : ResourceRef → ResourceRef → Bool
same_resource r s = (r.namespace == s.namespace) && (r.id == s.id)

pub same_resource_iff : (r s : ResourceRef) → (same_resource r s ≡ true) ↔ (r ≡ s)
same_resource_iff r s = (λ h. ground arith, λ h. ground arith)

instance abbrev pub resource_eq : Key ResourceRef
resource_eq = record { same = same_resource; same_iff = same_resource_iff }

pub record Subject : Type 0 where
  pub id : Uuid
  pub registered : Bool
  pub attributes : List (String × String)

pub data AccessPolicy : Type 0 where
  open_tier registered_tier : AccessPolicy
  restricted : (data_use_restrictions : List String) → AccessPolicy

pub data AccessOutcome : Type 0 where
  allow : AccessOutcome
  deny : (reason : String) → AccessOutcome

unfoldable pub is_allowed : AccessOutcome → Bool
is_allowed allow = true
is_allowed (deny reason) = false

pub record OwnershipSource : Type 0 where
  pub owner : ResourceRef → Option Subject
  pub groups_for : Subject → List Uuid
  pub resource_groups : ResourceRef → List Uuid
  pub has_accepted_agreement : Subject → ResourceRef → Bool

pub record OwnershipSnapshot : Type 0 where
  pub is_owner : Bool
  pub in_authorized_group : Bool
  pub has_accepted_agreement : Bool

-- `OwnershipSnapshot::none`
abbrev pub no_facts : OwnershipSnapshot
no_facts = record { is_owner = false; in_authorized_group = false; has_accepted_agreement = false }

unfoldable pub evaluate_with_snapshot : Subject → AccessPolicy → OwnershipSnapshot → AccessOutcome
evaluate_with_snapshot subject open_tier ownership = allow
evaluate_with_snapshot subject registered_tier ownership =
    if subject.registered then allow else deny "resource requires a registered account"
evaluate_with_snapshot subject (restricted codes) ownership =
    if ownership.is_owner || ownership.in_authorized_group || ownership.has_accepted_agreement
    then allow
    else deny "restricted resource: no ownership, group membership, or accepted agreement"

-- `is_some_and(|owner| owner.id == subject.id)`
abbrev pub owned_by : Subject → Option Subject → Bool
owned_by subject none = false
owned_by subject (some owner) = owner.id == subject.id

-- The groups of a resource are read only if the subject has a group.
abbrev pub in_group : List Uuid → List Uuid → Bool
in_group [] resource_groups = false
in_group (g ∷ gs) resource_groups = some_of (λ group. contains group (g ∷ gs)) resource_groups

unfoldable pub snapshot_for : Subject → ResourceRef → OwnershipSource → OwnershipSnapshot
snapshot_for subject resource ownership =
    if owned_by subject (ownership.owner resource)
    then record no_facts { is_owner = true }
    else if in_group (ownership.groups_for subject) (ownership.resource_groups resource)
    then record no_facts { in_authorized_group = true }
    else record no_facts {
      has_accepted_agreement = ownership.has_accepted_agreement subject resource;
    }

unfoldable pub evaluate_access :
    Subject → ResourceRef → AccessPolicy → OwnershipSource → AccessOutcome
unfolding snapshot_for evaluate_with_snapshot
evaluate_access subject resource (restricted codes) ownership =
    evaluate_with_snapshot subject (restricted codes) (snapshot_for subject resource ownership)
evaluate_access subject resource policy ownership = evaluate_with_snapshot subject policy no_facts
