-- ===== src/Catalog/Registered.antt =====
-- What a catalog in memory answers after its relations and functions are registered.
use queryfabric.Base.{
  ==_refl, Bool-cases, List, Option, Option-cases, String, [], arith, inl, inr, lookup, none, refl,
  some, some_of, true, ◌↔◌, ◌∷◌, ◌≡◌, ◌⊎◌,
}
use queryfabric.Base.Ascii.{eq_ignore_ascii_case, eq_ignore_ascii_case_iff, to_ascii_lowercase}
use queryfabric.Catalog.Model.{RelationSchema}
use queryfabric.Catalog.Memory.{
  CatalogKey, MemoryCatalog, answers_to, catalog_key, find_relation, key_of, lookup-put, put,
  register_relation, relation_statistics, resolve_relation, same_key, same_key_iff,
  set_relation_statistics, statistics_of,
}
use queryfabric.Catalog.Statistics.{RelationStatistics}

lookup-put_self :
    {V : Type 0} (k : CatalogKey) (v : V) (m : List (CatalogKey × V))
    → lookup k (put k v m) ≡ some v
lookup-put_self k v m = rw (lookup-put k k v m) (rw (==_refl k) refl)

found_as_before :
    (catalog : MemoryCatalog) (relation : RelationSchema) (namespace : Option String)
    (name : String)
    → let after = register_relation catalog relation in
      let k = key_of namespace name in
      (key_of relation.namespace relation.name ≡ k)
      ⊎ ((lookup k after.relations ≡ lookup k catalog.relations)
          × ((lookup k catalog.relations ≡ none)
              ⊎ (resolve_relation after namespace name ≡ resolve_relation catalog namespace name)))
unfolding resolve_relation register_relation
found_as_before catalog relation namespace name =
    let k = key_of relation.namespace relation.name in
    let j = key_of namespace name in
    elim (Bool-cases (same_key k j)) [
      | inl same ↦ inl ((same_key_iff k j).0 same)
      | inr other ↦
          let kept = lookup-put k j relation catalog.relations in
          elim (Option-cases (lookup j catalog.relations)) [
            | inl missing ↦ inr (rw (kept, other) refl, inl missing)
            | inr (held, there) ↦ inr (rw (kept, other) refl, inr (rw (kept, other, there) refl))
          ]
    ]

-- A registered relation is found under its own name in any case of the letters, whatever the catalog
-- held. Every other key holds what it held before, and a name that was found by such a key resolves
-- as before.
pub register-resolve :
    (catalog : MemoryCatalog) (relation : RelationSchema) (namespace : Option String)
    (name called : String)
    → to_ascii_lowercase called ≡ to_ascii_lowercase relation.name
    → let after = register_relation catalog relation in
      let k = key_of namespace name in
      (resolve_relation after relation.namespace called ≡ some relation)
      × ((key_of relation.namespace relation.name ≡ k)
          ⊎ ((lookup k after.relations ≡ lookup k catalog.relations)
              × ((lookup k catalog.relations ≡ none)
                  ⊎ (resolve_relation after namespace name
                      ≡ resolve_relation catalog namespace name))))
unfolding resolve_relation register_relation
register-resolve catalog relation namespace name called same =
    let k = key_of relation.namespace relation.name in
    (
      rw same (rw (lookup-put_self k relation catalog.relations) refl),
      found_as_before catalog relation namespace name,
    )

-- The texts of which one is `name` in any case of its letters.
abbrev pub OneIs : String → List String → Type 0
OneIs name [] = ⊥
OneIs name (text ∷ texts) = (to_ascii_lowercase text ≡ to_ascii_lowercase name) ⊎ OneIs name texts

-- What a fallback to the name answers: the first relation with the name or the alias, if any.
abbrev pub Fallback : String → List (CatalogKey × RelationSchema) → Option RelationSchema → Type 0
Fallback name [] answer = answer ≡ none
Fallback name ((key, relation) ∷ others) answer =
    (OneIs name (relation.name ∷ relation.aliases) × (answer ≡ some relation))
    ⊎ ((¬ (OneIs name (relation.name ∷ relation.aliases))) × Fallback name others answer)

alias-OneIs :
    (name : String) (aliases : List String)
    → (some_of (λ alias. eq_ignore_ascii_case alias name) aliases ≡ true) ↔ OneIs name aliases
alias-OneIs name [] = ((λ h. cc), (λ h. absurd h))
alias-OneIs name (a ∷ aliases) =
    ground (arith, eq_ignore_ascii_case_iff a name, alias-OneIs name aliases)

answers_to-OneIs :
    (name : String) (relation : RelationSchema)
    → (answers_to name relation ≡ true) ↔ OneIs name (relation.name ∷ relation.aliases)
answers_to-OneIs name relation =
    ground (arith, eq_ignore_ascii_case_iff relation.name name, alias-OneIs name relation.aliases)

find_relation-Fallback :
    (name : String) (relations : List (CatalogKey × RelationSchema))
    → Fallback name relations (find_relation name relations)
find_relation-Fallback name [] = refl
find_relation-Fallback name ((key, relation) ∷ others) =
    elim (Bool-cases (answers_to name relation)) [
      | inl found ↦ inl ((answers_to-OneIs name relation).0 found, rw found refl)
      | inr passed ↦ inr (
        (λ one. absurd (ground (arith, passed, (answers_to-OneIs name relation).1 one))),
        rw passed (find_relation-Fallback name others),
      )
    ]

-- Where no relation is registered under the namespace and the name asked for, the answer is the first
-- relation, in the order of the map, whose name or alias is the name asked for in any case of its
-- letters, in whatever namespace it is, and none if there is no such relation.
pub resolve_relation_elsewhere :
    (catalog : MemoryCatalog) (namespace : Option String) (name : String)
    → lookup (key_of namespace name) catalog.relations ≡ none
    → Fallback name catalog.relations (resolve_relation catalog namespace name)
unfolding resolve_relation
resolve_relation_elsewhere catalog namespace name missing =
    rw missing (find_relation-Fallback name catalog.relations)

statistics_of-put :
    (catalog : MemoryCatalog) (relation : RelationSchema) (statistics : RelationStatistics)
    → statistics_of
        (record catalog {
          statistics = put (key_of relation.namespace relation.name) statistics catalog.statistics;
        })
        (some relation)
      ≡ some statistics
statistics_of-put catalog relation statistics =
    rw (lookup-put_self (key_of relation.namespace relation.name) statistics catalog.statistics)
      refl

-- The statistics set for a relation that resolves are the ones that are read, under every name that
-- resolves to it.
pub set_relation_statistics_lem :
    (catalog : MemoryCatalog) (relation : RelationSchema) (statistics : RelationStatistics)
    (namespace other_namespace : Option String) (name other_name : String)
    → resolve_relation catalog namespace name ≡ some relation
    → resolve_relation catalog other_namespace other_name ≡ some relation
    → relation_statistics
        (set_relation_statistics catalog namespace name statistics)
        other_namespace
        other_name
      ≡ some statistics
unfolding set_relation_statistics relation_statistics
set_relation_statistics_lem catalog relation statistics namespace other_namespace name other_name h
      k =
    rw h (rw k (statistics_of-put catalog relation statistics))
