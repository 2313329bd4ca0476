-- ===== src/Catalog/Examples.antt =====
-- A catalog of two relations.
use queryfabric.Base.{Option, String, [], lookup, none, refl, some, string_eq, ◌∷◌, ◌≡◌, ◌⊎◌}
use queryfabric.Catalog.Model.{RelationSchema, base_table}
use queryfabric.Catalog.Memory.{
  MemoryCatalog, catalog_key, key_of, register_relation, resolve_function, resolve_relation,
}
use queryfabric.Catalog.Registered.{Fallback, register-resolve, resolve_relation_elsewhere}
use queryfabric.Catalog.Builtins.{builtin_clickhouse_extension, with_metadata_flag}
use queryfabric.Syntax.Types.{float64}

abbrev relation_named : Option String → String → RelationSchema
relation_named namespace name = record {
  namespace = namespace;
  name = name;
  aliases = [];
  kind = base_table;
  columns = [];
  metadata = [];
}

abbrev users : RelationSchema
users = relation_named none "Users"

abbrev orders : RelationSchema
orders = relation_named (some "shop") "orders"

abbrev no_relations : MemoryCatalog
no_relations = record {
  snapshot_id = "memory-catalog";
  relations = [];
  functions = [];
  statistics = [];
}

abbrev shop : MemoryCatalog
shop = record no_relations { relations = (key_of (some "shop") "orders", orders) ∷ [] }

-- The first registration into an empty catalog.
register-resolve_example :
    let after = register_relation no_relations users in
    let k = key_of (some "shop") "orders" in
    (resolve_relation after none "USERS" ≡ some users)
    × ((key_of none "Users" ≡ k)
        ⊎ ((lookup k after.relations ≡ lookup k no_relations.relations)
            × ((lookup k no_relations.relations ≡ none)
                ⊎ (resolve_relation after (some "shop") "orders"
                    ≡ resolve_relation no_relations (some "shop") "orders"))))
register-resolve_example = register-resolve no_relations users (some "shop") "orders" "USERS" refl

-- Beside a relation that is held under another key, which is found as before.
beside_test :
    (resolve_relation (register_relation shop users) none "USERS" ≡ some users)
    × (resolve_relation (register_relation shop users) (some "shop") "orders" ≡ some orders)
unfolding resolve_relation register_relation
beside_test = (refl, refl)

resolve_relation_elsewhere_example :
    Fallback "Orders" shop.relations (resolve_relation shop (some "other") "Orders")
resolve_relation_elsewhere_example = resolve_relation_elsewhere shop (some "other") "Orders" refl

-- The namespace asked for is not that of the relation found.
elsewhere_test : resolve_relation shop (some "other") "orders" ≡ some orders
unfolding resolve_relation
elsewhere_test = refl

-- A built-in function is found in any case of the letters, under its namespace alone.
builtin_test :
    resolve_function no_relations (some "ch") "QUANTILE_50"
    ≡ some (
        with_metadata_flag
          (builtin_clickhouse_extension "ch" "quantile_50" "quantile(0.5)" float64)
          "approximate")
unfolding resolve_function
builtin_test = refl

builtin_elsewhere_test : resolve_function no_relations none "quantile_50" ≡ none
unfolding resolve_function
builtin_elsewhere_test = refl
