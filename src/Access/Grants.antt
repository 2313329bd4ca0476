-- ===== src/Access/Grants.antt =====
-- What the changes of crates/queryfabric-tenancy/src/ownership.rs do to the decisions.
use queryfabric.Base.{
  ==_refl, ==_sound, Bool, Bool-cases, List, [], ap, arith, contains, false, if◌then◌else◌, inl,
  inr, insert, lookup-insert, nat_eq, refl, some_of, some_of-append, sym, true, ◌&&◌, ◌++◌, ◌==◌,
  ◌||◌, ◌∙◌, ◌∷◌, ◌≡◌,
}
use queryfabric.Access.Decision.{
  AccessPolicy, ResourceRef, Subject, Uuid, evaluate_access, is_allowed, open_tier, owned_by,
  registered_tier, resource_eq, restricted,
}
use queryfabric.Access.Ownership.{
  State, accept_agreement, agreed, authorize_group, groups_at, groups_for, owner, source,
}
use queryfabric.Access.Tiers.{entitled, restricted_entitled}

abbrev pub is_restricted : AccessPolicy → Bool
is_restricted (restricted codes) = true
is_restricted _ = false

-- The decision over a state in memory.
abbrev pub allowed : State → Subject → ResourceRef → AccessPolicy → Bool
allowed st s r p = is_allowed (evaluate_access s r p (source st))

groups_at-insert :
    (r q : ResourceRef) (gs : List Uuid) (m : List (ResourceRef × List Uuid))
    → groups_at q (insert r gs m) ≡ (if r == q then gs else groups_at q m)
groups_at-insert r q gs m = ground (arith, lookup-insert r q gs m)

shares_lem :
    (test : Uuid → Bool) (r q : ResourceRef) (g : Uuid) (m : List (ResourceRef × List Uuid))
    → some_of test (groups_at q (insert r (groups_at r m ++ g ∷ []) m))
      ≡ (some_of test (groups_at q m) || ((r == q) && test g))
shares_lem test r q g m = elim (Bool-cases (r == q)) [
  | inl same ↦
      ap (some_of test) (groups_at-insert r q (groups_at r m ++ g ∷ []) m)
      ∙ (rw (same, ==_sound r q same) (some_of-append test (groups_at q m) (g ∷ []) ∙ ground arith))
  | inr other ↦
      ap (some_of test) (groups_at-insert r q (groups_at r m ++ g ∷ []) m) ∙ rw other (ground arith)
]

or_false : (b : Bool) → b ≡ (b || false)
or_false b = ground arith

or_true : (b : Bool) → true ≡ (b || true)
or_true b = ground arith

agreed_same :
    (a : Uuid) (r : ResourceRef) (set : List (Uuid × ResourceRef))
    → agreed a r (if agreed a r set then set else (a, r) ∷ set) ≡ true
agreed_same a r set = elim (Bool-cases (agreed a r set)) [
  | inl old ↦ rw old old
  | inr fresh ↦ rw fresh (rw ((==_refl a), (==_refl r)) refl)
]

agreed_lem :
    (a b : Uuid) (r q : ResourceRef) (set : List (Uuid × ResourceRef))
    → agreed b q (if agreed a r set then set else (a, r) ∷ set)
      ≡ (agreed b q set || ((a == b) && (r == q)))
agreed_lem a b r q set = elim (Bool-cases ((a == b) && (r == q))) [
  | inl same ↦
      let same_a : a ≡ b = ==_sound a b (ground (arith, same)) in
      let same_r : r ≡ q = ==_sound r q (ground (arith, same)) in
      rw (same, same_a, same_r) (agreed_same b q set ∙ or_true (agreed b q set))
  | inr other ↦ elim (Bool-cases (agreed a r set)) [
    | inl old ↦ rw (old, other) (or_false (agreed b q set))
    | inr fresh ↦ rw (fresh, other) (or_false (agreed b q set))
  ]
]

or_group : (o s t a : Bool) → (o || ((s || t) || a)) ≡ ((o || (s || a)) || t)
or_group o s t a = ground arith

or_agreement : (o s t a : Bool) → (o || (s || (a || t))) ≡ ((o || (s || a)) || t)
or_agreement o s t a = ground arith

-- Authorizing a group for a resource lets in exactly the members of the group, to that resource where
-- its policy is restricted; every other decision is what it was.
pub authorize_group_lem :
    (st : State) (r : ResourceRef) (group : Uuid) (s : Subject) (q : ResourceRef) (p : AccessPolicy)
    → allowed (authorize_group st r group) s q p
      ≡ (allowed st s q p || (is_restricted p && ((r == q) && contains group (groups_for st s))))
unfolding authorize_group source evaluate_access is_allowed
authorize_group_lem st r group s q open_tier = refl
authorize_group_lem st r group s q registered_tier = ground arith
authorize_group_lem st r group s q (restricted codes) =
    let test : Uuid → Bool = λ g. contains g (groups_for st s) in
    let owns = owned_by s (owner st q) in
    let agrees = agreed s.id q st.agreements in
    restricted_entitled s q codes (source (authorize_group st r group))
    ∙ ap (λ shares. owns || (shares || agrees)) (shares_lem test r q group st.resource_groups)
    ∙ or_group owns (some_of test (groups_at q st.resource_groups)) _ agrees
    ∙ ap (λ b. b || ((r == q) && test group)) (sym (restricted_entitled s q codes (source st)))

accept_facts :
    (st : State) (a : Uuid) (r : ResourceRef) (s : Subject) (q : ResourceRef)
    → entitled (source (accept_agreement st a r)) s q ≡ (
        owned_by s (owner st q)
        || (some_of (λ g. contains g (groups_for st s)) (groups_at q st.resource_groups)
            || agreed s.id q
                (if agreed a r st.agreements then st.agreements else (a, r) ∷ st.agreements)))
unfolding accept_agreement source
accept_facts st a r s q = elim (Bool-cases (agreed a r st.agreements)) [
  | inl old ↦ rw old refl
  | inr fresh ↦ rw fresh refl
]

-- Accepting an agreement lets in exactly the account that accepted it, to that resource where its
-- policy is restricted; every other decision is what it was.
pub accept_agreement_lem :
    (st : State) (account : Uuid) (r : ResourceRef) (s : Subject) (q : ResourceRef)
    (p : AccessPolicy)
    → allowed (accept_agreement st account r) s q p
      ≡ (allowed st s q p || (is_restricted p && ((account == s.id) && (r == q))))
unfolding accept_agreement source evaluate_access is_allowed
accept_agreement_lem st account r s q open_tier = refl
accept_agreement_lem st account r s q registered_tier = ground arith
accept_agreement_lem st account r s q (restricted codes) =
    let owns = owned_by s (owner st q) in
    let shares = some_of (λ g. contains g (groups_for st s)) (groups_at q st.resource_groups) in
    restricted_entitled s q codes (source (accept_agreement st account r))
    ∙ accept_facts st account r s q
    ∙ ap (λ agrees. owns || (shares || agrees)) (agreed_lem account s.id r q st.agreements)
    ∙ or_agreement owns shares _ (agreed s.id q st.agreements)
    ∙ ap (λ b. b || ((account == s.id) && (r == q)))
        (sym (restricted_entitled s q codes (source st)))
