-- ===== src/Access/Tiers.antt =====
-- What each tier of crates/queryfabric-access/src/decision.rs grants.
use queryfabric.Base.{
  Bool, Bool-cases, List, Option, String, [], arith, contains, false, inl, inr, nat_eq, none, refl,
  some, some_inj, some_of, some_of-contains, sym, true, ◌||◌, ◌↔◌, ◌∷◌, ◌≡◌, ◌⊎◌,
}
use queryfabric.Access.Decision.{
  AccessPolicy, OwnershipSource, ResourceRef, Subject, Uuid, evaluate_access, in_group, is_allowed,
  open_tier, owned_by, registered_tier, restricted,
}

-- The facts that entitle a subject to a restricted resource.
abbrev pub Owns : OwnershipSource → Subject → ResourceRef → Type 0
Owns o s r = (owner : Subject) × (o.owner r ≡ some owner) × (owner.id ≡ s.id)

abbrev pub SharesGroup : OwnershipSource → Subject → ResourceRef → Type 0
SharesGroup o s r =
    (group : Uuid) × (contains group (o.groups_for s) ≡ true)
    × (contains group (o.resource_groups r) ≡ true)

abbrev pub Granted : OwnershipSource → Subject → ResourceRef → AccessPolicy → Type 0
Granted o s r open_tier = Unit
Granted o s r registered_tier = s.registered ≡ true
Granted o s r (restricted codes) =
    Owns o s r ⊎ (SharesGroup o s r ⊎ (o.has_accepted_agreement s r ≡ true))

-- The same facts as one test.
abbrev pub entitled : OwnershipSource → Subject → ResourceRef → Bool
entitled o s r =
    owned_by s (o.owner r)
    || (some_of (λ group. contains group (o.groups_for s)) (o.resource_groups r)
        || o.has_accepted_agreement s r)

some_of_none {ℓ} : {A : Type ℓ} (xs : List A) → some_of (λ x. false) xs ≡ false
some_of_none [] = refl
some_of_none (x ∷ xs) = some_of_none xs

in_group_lem : (sg rg : List Uuid) → in_group sg rg ≡ some_of (λ group. contains group sg) rg
in_group_lem [] rg = sym (some_of_none rg)
in_group_lem (g ∷ gs) rg = refl

pub restricted_entitled :
    (s : Subject) (r : ResourceRef) (codes : List String) (o : OwnershipSource)
    → is_allowed (evaluate_access s r (restricted codes) o) ≡ entitled o s r
unfolding evaluate_access is_allowed
restricted_entitled s r codes o =
    ground (arith, in_group_lem (o.groups_for s) (o.resource_groups r))

owned_by_iff :
    (s : Subject) (o : Option Subject)
    → (owned_by s o ≡ true) ↔ ((owner : Subject) × (o ≡ some owner) × (owner.id ≡ s.id))
owned_by_iff s none = (λ h. cc, λ h. cc)
owned_by_iff s (some owner) = (
  λ h. (owner, refl, ground (arith, h)),
  λ h. let (found, at, same) = h in ground (arith, some_inj at, same),
)

entitled_iff :
    (s : Subject) (r : ResourceRef) (codes : List String) (o : OwnershipSource)
    → (entitled o s r ≡ true) ↔ Granted o s r (restricted codes)
entitled_iff s r codes o =
    let owns = owned_by_iff s (o.owner r) in
    let shares = some_of-contains (o.groups_for s) (o.resource_groups r) in
    (
      λ h. elim (Bool-cases (owned_by s (o.owner r))) [
        | inl yes_owner ↦ inl (owns.0 yes_owner)
        | inr no_owner ↦
            elim (Bool-cases
              (some_of (λ group. contains group (o.groups_for s)) (o.resource_groups r))) [
                | inl in_one ↦ inr (inl (shares.0 in_one))
                | inr in_none ↦ inr (inr (ground arith))
              ]
      ],
      λ h. elim h [
        | inl owner ↦ rw (owns.1 owner) refl
        | inr (inl common) ↦ let e = shares.1 common in ground arith
        | inr (inr agreed) ↦ ground arith
      ],
    )

-- The decision allows exactly what its tier grants: everything for the open tier, a registered
-- subject for the registered one, and for the restricted one the owner of the resource, a member of
-- one of its groups, or the holder of an accepted agreement.
pub evaluate_access_iff :
    (s : Subject) (r : ResourceRef) (p : AccessPolicy) (o : OwnershipSource)
    → (is_allowed (evaluate_access s r p o) ≡ true) ↔ Granted o s r p
unfolding evaluate_access is_allowed
evaluate_access_iff s r open_tier o = (λ h. tt, λ h. refl)
evaluate_access_iff s r registered_tier o = (λ h. ground arith, λ h. ground arith)
evaluate_access_iff s r (restricted codes) o =
    rw (restricted_entitled s r codes o) (entitled_iff s r codes o)
