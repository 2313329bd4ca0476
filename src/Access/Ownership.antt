-- ===== src/Access/Ownership.antt =====
-- `InMemoryOwnership` of crates/queryfabric-tenancy/src/ownership.rs over the accounts and groups of
-- crates/queryfabric-tenancy/src/model.rs. The lock is left out, since every method takes it once.
use queryfabric.Base.{
  Bool, List, Option, String, [], contains, if◌then◌else◌, insert, keep, lookup, map, nat_eq, none,
  some, some_of, ◌&&◌, ◌++◌, ◌==◌, ◌∷◌,
}
use queryfabric.Access.Decision.{OwnershipSource, ResourceRef, Subject, Uuid, resource_eq}

pub data AccountKind : Type 0 where
  human service : AccountKind

pub record Account : Type 0 where
  pub id : Uuid
  pub email : String
  pub active : Bool
  pub verified : Bool
  pub kind : AccountKind

-- `Account::subject`
abbrev pub subject_of : Account → Subject
subject_of account = record { id = account.id; registered = account.verified; attributes = [] }

pub record Group : Type 0 where
  pub id : Uuid
  pub name : String
  pub admin : Uuid
  pub institution : Option String
  pub members : List Uuid

pub record State : Type 0 where
  pub accounts : List (Uuid × Account)
  pub groups : List (Uuid × Group)
  pub resource_owner : List (ResourceRef × Uuid)
  pub resource_groups : List (ResourceRef × List Uuid)
  pub agreements : List (Uuid × ResourceRef)

abbrev pub empty : State
empty = record {
  accounts = [];
  groups = [];
  resource_owner = [];
  resource_groups = [];
  agreements = [];
}

unfoldable pub add_account : State → Account → State
add_account st account = record st { accounts = insert account.id account st.accounts }

unfoldable pub add_group : State → Group → State
add_group st group = record st { groups = insert group.id group st.groups }

unfoldable pub set_owner : State → ResourceRef → Uuid → State
set_owner st resource owner = record st { resource_owner = insert resource owner st.resource_owner }

abbrev pub groups_at : ResourceRef → List (ResourceRef × List Uuid) → List Uuid
groups_at resource m = elim (lookup resource m) [ none ↦ [] | some groups ↦ groups ]

unfoldable pub authorize_group : State → ResourceRef → Uuid → State
authorize_group st resource group = record st {
  resource_groups =
      insert resource (groups_at resource st.resource_groups ++ group ∷ []) st.resource_groups;
}

-- `agreements.contains(&(account, resource))`
abbrev pub agreed : Uuid → ResourceRef → List (Uuid × ResourceRef) → Bool
agreed account resource set =
    some_of (λ (p : Uuid × ResourceRef). (p.0 == account) && (p.1 == resource)) set

unfoldable pub accept_agreement : State → Uuid → ResourceRef → State
accept_agreement st account resource =
    if agreed account resource st.agreements
    then st
    else record st { agreements = (account, resource) ∷ st.agreements }

abbrev pub owner : State → ResourceRef → Option Subject
owner st resource = elim (lookup resource st.resource_owner) [
  | none ↦ none
  | some id ↦ elim (lookup id st.accounts) [
    | none ↦ none
    | some account ↦ some (subject_of account)
  ]
]

abbrev pub groups_for : State → Subject → List Uuid
groups_for st subject =
    map (λ (g : Uuid × Group). g.1.id)
      (keep (λ (g : Uuid × Group). contains subject.id g.1.members) st.groups)

-- `impl OwnershipSource for InMemoryOwnership`
unfoldable pub source : State → OwnershipSource
source st = record {
  owner = owner st;
  groups_for = groups_for st;
  resource_groups = λ resource. groups_at resource st.resource_groups;
  has_accepted_agreement = λ subject resource. agreed subject.id resource st.agreements;
}
