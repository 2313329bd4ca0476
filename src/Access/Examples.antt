-- ===== src/Access/Examples.antt =====
-- Decisions over a small state in memory.
use queryfabric.Base.{
  [], contains, false, nat_eq, none, refl, true, ◌&&◌, ◌==◌, ◌||◌, ◌↔◌, ◌∷◌, ◌≡◌,
}
use queryfabric.Access.Decision.{
  AccessPolicy, ResourceRef, Subject, Uuid, evaluate_access, is_allowed, resource_eq, restricted,
}
use queryfabric.Access.Tiers.{Granted, evaluate_access_iff}
use queryfabric.Access.Ownership.{
  Group, State, accept_agreement, authorize_group, groups_for, source,
}
use queryfabric.Access.Grants.{accept_agreement_lem, allowed, authorize_group_lem, is_restricted}

abbrev resource : ResourceRef
resource = record { namespace = 13; id = 1 }

abbrev lab : Group
lab = record { id = 16; name = "lab"; admin = 1; institution = none; members = 2 ∷ [] }

abbrev subject : Uuid → Subject
subject id = record { id = id; registered = true; attributes = [] }

abbrev agreement_holder : Uuid
agreement_holder = 3

abbrev before : State
before = record {
  accounts = [];
  groups = (16, lab) ∷ [];
  resource_owner = [];
  resource_groups = [];
  agreements = [];
}

abbrev tier : AccessPolicy
tier = restricted []

member_test : allowed (authorize_group before resource 16) (subject 2) resource tier ≡ true
unfolding authorize_group source evaluate_access is_allowed
member_test = refl

stranger_test : allowed (authorize_group before resource 16) (subject 4) resource tier ≡ false
unfolding authorize_group source evaluate_access is_allowed
stranger_test = refl

evaluate_access_iff_example :
    (is_allowed
        (evaluate_access (subject 2) resource tier (source (authorize_group before resource 16)))
      ≡ true)
    ↔ Granted (source (authorize_group before resource 16)) (subject 2) resource tier
evaluate_access_iff_example =
    evaluate_access_iff (subject 2) resource tier (source (authorize_group before resource 16))

authorize_group_lem_example :
    allowed (authorize_group before resource 16) (subject 2) resource tier ≡ (
      allowed before (subject 2) resource tier
      || (is_restricted tier
          && ((resource == resource) && contains 16 (groups_for before (subject 2)))))
authorize_group_lem_example = authorize_group_lem before resource 16 (subject 2) resource tier

accept_agreement_lem_example :
    allowed (accept_agreement before agreement_holder resource) (subject 3) resource tier ≡ (
      allowed before (subject 3) resource tier
      || (is_restricted tier && ((agreement_holder == agreement_holder) && (resource == resource))))
accept_agreement_lem_example =
    accept_agreement_lem before agreement_holder resource (subject 3) resource tier
