-- ===== src/Catalog/Memory.antt =====
-- `MemoryCatalog` of crates/queryfabric-catalog/src/model.rs: the relations and functions that a host registers.
-- A `BTreeMap` is an association list in the order of its keys. Its statistics are those of
-- Catalog/Statistics.antt.
use Prim.Native.String.{compare as text_compare}
use queryfabric.Base.{
  Bool, Key, List, Option, Ordering, String, [], arith, eq_iff, false, if◌then◌else◌, lookup, ltb,
  nat_beq, none, refl, some, some_of, string_eq, true, ℕ, ◌&&◌, ◌==◌, ◌||◌, ◌↔◌, ◌∷◌, ◌≡◌,
}
use queryfabric.Base.Ascii.{eq_ignore_ascii_case, same_codes, same_codes_iff, to_ascii_lowercase}
use queryfabric.Catalog.Model.{Catalog, FunctionSignature, RelationSchema}
use queryfabric.Catalog.Builtins.{builtin_function_signature}
use queryfabric.Catalog.Statistics.{RelationStatistics, relation_statistics_from_schema}

-- The namespace as it is written, and the name in lower case.
abbrev pub CatalogKey : Type 0
CatalogKey = Option String × List ℕ

abbrev pub same_space : Option String → Option String → Bool
same_space none none = true
same_space (some m) (some n) = m == n
same_space none (some n) = false
same_space (some m) none = false

same_space_iff : (m n : Option String) → (same_space m n ≡ true) ↔ (m ≡ n)
same_space_iff none none = (λ h. refl, λ h. refl)
same_space_iff none (some n) = (λ h. cc, λ h. cc)
same_space_iff (some m) none = (λ h. cc, λ h. cc)
same_space_iff (some m) (some n) = ground (arith, eq_iff m n)

abbrev pub same_key : CatalogKey → CatalogKey → Bool
same_key (m, c) (n, d) = same_space m n && same_codes c d

pub same_key_iff : (k j : CatalogKey) → (same_key k j ≡ true) ↔ (k ≡ j)
same_key_iff (m, c) (n, d) = ground (arith, same_space_iff m n, same_codes_iff c d)

instance abbrev pub catalog_key : Key CatalogKey
catalog_key = record { same = same_key; same_iff = same_key_iff }

-- The order of keys: no namespace first, then the namespaces, then the names.
abbrev pub codes_before : List ℕ → List ℕ → Bool
codes_before [] [] = false
codes_before [] (d ∷ ds) = true
codes_before (c ∷ cs) [] = false
codes_before (c ∷ cs) (d ∷ ds) = ltb c d || (nat_beq c d && codes_before cs ds)

abbrev pub space_before : Option String → Option String → Bool
space_before none none = false
space_before none (some n) = true
space_before (some m) none = false
space_before (some m) (some n) = elim (text_compare m n) [ Ordering.lt ↦ true | _ ↦ false ]

abbrev pub key_before : CatalogKey → CatalogKey → Bool
key_before (m, c) (n, d) = space_before m n || (same_space m n && codes_before c d)

module _ {V : Type 0} where
  -- `map.insert(key, value)`
  abbrev pub put : CatalogKey → V → List (CatalogKey × V) → List (CatalogKey × V)
  put k v [] = (k, v) ∷ []
  put k v ((j, w) ∷ m) =
      let later = put k v m in
      if j == k then (k, v) ∷ m else if key_before k j then (k, v) ∷ (j, w) ∷ m else (j, w) ∷ later

  pub lookup-put :
      (k j : CatalogKey) (v : V) (m : List (CatalogKey × V))
      → lookup j (put k v m) ≡ (if k == j then some v else lookup j m)
  lookup-put k j v [] = refl
  lookup-put k j v ((i, w) ∷ m) =
      ground (arith, same_key_iff k j, same_key_iff i k, same_key_iff i j, lookup-put k j v m)

pub record MemoryCatalog : Type 0 where
  pub snapshot_id : String
  pub relations : List (CatalogKey × RelationSchema)
  pub functions : List (CatalogKey × FunctionSignature)
  pub statistics : List (CatalogKey × RelationStatistics)

abbrev pub key_of : Option String → String → CatalogKey
key_of namespace name = (namespace, to_ascii_lowercase name)

-- `MemoryCatalog::register_relation`
unfoldable pub register_relation : MemoryCatalog → RelationSchema → MemoryCatalog
register_relation catalog relation = record catalog {
  relations = put (key_of relation.namespace relation.name) relation catalog.relations;
}

-- `MemoryCatalog::register_function`
unfoldable pub register_function : MemoryCatalog → FunctionSignature → MemoryCatalog
register_function catalog signature = record catalog {
  functions = put (key_of signature.namespace signature.name) signature catalog.functions;
}

-- The name or an alias of the relation, in any case of its letters.
abbrev pub answers_to : String → RelationSchema → Bool
answers_to name relation =
    eq_ignore_ascii_case relation.name name
    || some_of (λ alias. eq_ignore_ascii_case alias name) relation.aliases

abbrev pub find_relation : String → List (CatalogKey × RelationSchema) → Option RelationSchema
find_relation name [] = none
find_relation name ((key, relation) ∷ others) =
    if answers_to name relation then some relation else find_relation name others

abbrev pub or_find :
    String → List (CatalogKey × RelationSchema) → Option RelationSchema → Option RelationSchema
or_find name relations (some relation) = some relation
or_find name relations none = find_relation name relations

-- `MemoryCatalog::resolve_relation`
unfoldable pub resolve_relation : MemoryCatalog → Option String → String → Option RelationSchema
unfolding eq_ignore_ascii_case
resolve_relation catalog namespace name =
    or_find name catalog.relations (lookup (key_of namespace name) catalog.relations)

abbrev pub or_builtin_signature :
    Option String → String → Option FunctionSignature → Option FunctionSignature
or_builtin_signature namespace name (some signature) = some signature
or_builtin_signature namespace name none = builtin_function_signature namespace name

-- `MemoryCatalog::resolve_function`
unfoldable pub resolve_function : MemoryCatalog → Option String → String → Option FunctionSignature
unfolding builtin_function_signature
resolve_function catalog namespace name =
    or_builtin_signature namespace name (lookup (key_of namespace name) catalog.functions)

-- `MemoryCatalog::set_snapshot_id`
abbrev pub set_snapshot_id : MemoryCatalog → String → MemoryCatalog
set_snapshot_id catalog snapshot_id = record catalog { snapshot_id = snapshot_id }

-- The key of a relation that is found, or that of the names themselves.
abbrev pub statistics_key : Option String → String → Option RelationSchema → CatalogKey
statistics_key namespace name (some relation) = key_of relation.namespace relation.name
statistics_key namespace name none = key_of namespace name

-- `MemoryCatalog::set_relation_statistics`
unfoldable pub set_relation_statistics :
    MemoryCatalog → Option String → String → RelationStatistics → MemoryCatalog
unfolding resolve_relation
set_relation_statistics catalog namespace name statistics =
    let key = statistics_key namespace name (resolve_relation catalog namespace name) in
    record catalog { statistics = put key statistics catalog.statistics }

abbrev pub or_schema : RelationSchema → Option RelationStatistics → Option RelationStatistics
or_schema relation (some statistics) = some statistics
or_schema relation none = relation_statistics_from_schema relation

abbrev pub statistics_of : MemoryCatalog → Option RelationSchema → Option RelationStatistics
statistics_of catalog none = none
statistics_of catalog (some relation) =
    or_schema relation (lookup (key_of relation.namespace relation.name) catalog.statistics)

-- `MemoryCatalog::relation_statistics`
unfoldable pub relation_statistics :
    MemoryCatalog → Option String → String → Option RelationStatistics
unfolding resolve_relation relation_statistics_from_schema
relation_statistics catalog namespace name =
    statistics_of catalog (resolve_relation catalog namespace name)

pub record CatalogDocument : Type 0 where
  pub snapshot_id : String
  pub relations : List RelationSchema
  pub functions : List FunctionSignature

abbrev pub register_relations : MemoryCatalog → List RelationSchema → MemoryCatalog
register_relations catalog [] = catalog
register_relations catalog (r ∷ rs) = register_relations (register_relation catalog r) rs

abbrev pub register_functions : MemoryCatalog → List FunctionSignature → MemoryCatalog
register_functions catalog [] = catalog
register_functions catalog (f ∷ fs) = register_functions (register_function catalog f) fs

-- `MemoryCatalog::from_document`
unfoldable pub from_document : CatalogDocument → MemoryCatalog
unfolding register_relation register_function
from_document document =
    let empty : MemoryCatalog = record {
      snapshot_id = document.snapshot_id;
      relations = [];
      functions = [];
      statistics = [];
    } in
    register_functions (register_relations empty document.relations) document.functions

-- `impl Catalog for MemoryCatalog`
unfoldable pub memory_catalog : MemoryCatalog → Catalog
unfolding resolve_relation resolve_function
memory_catalog catalog = record {
  snapshot_id = catalog.snapshot_id;
  resolve_relation = resolve_relation catalog;
  resolve_function = resolve_function catalog;
}
