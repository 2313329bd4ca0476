-- ===== src/Binder/Examples.antt =====
-- One query bound against a small catalog: the theorems of the binder at concrete inputs.
use queryfabric.Base.{
  All, List, Option, String, [], arith, contains, false, if◌then◌else◌, keep, length, lookup, map,
  nat_eq, none, refl, some, some_of, string_eq, true, ◌==◌, ◌↔◌, ◌∷◌, ◌≡◌, ◌≤◌,
}
use queryfabric.Base.Ascii.{eq_ignore_ascii_case, to_ascii_lowercase}
use queryfabric.Syntax.Types.{int64, utf8}
use queryfabric.Syntax.Tree.{
  Joins, OptionalExpr, ParameterRef, SyntaxExpr, SyntaxQuery, binary, eq, expr, is_null, join,
  more_items, more_joins, more_tables, named, no_ctes, no_expr, no_exprs, no_items, no_joins,
  no_orders, no_tables, parameter, projection_expr, query, right, select, some_expr, syntax_select,
  table, table_with_joins,
}
use queryfabric.Syntax.Samples.{at, column_named}
use queryfabric.Syntax.Parsed.{ParsedQuery, ok}
use queryfabric.Syntax.Parameters.{
  ParameterBinding, QueryParameters, lookup_parameter, no_metadata, null_value, utf8_value,
}
use queryfabric.Syntax.Bound.{BoundQueryPlan, BoundRelation, bound_table, no_bound_joins}
use queryfabric.Catalog.Model.{Catalog, ColumnSchema, RelationSchema, base_table, to_result_schema}
use queryfabric.Binder.State.{
  BinderState, ParameterConstraint, anything, is_error, non_null, push, return, ◌>>=◌,
}
use queryfabric.Binder.Parameters.{
  allocate_parameter, next_auto_position_seed, next_position, parameter_eq, record_parameter_use,
}
use queryfabric.Binder.Validate.{BoundQuery, bind_and_validate, bound_plan_of, new_binder, query_of}
use queryfabric.Binder.Checked.{IsChecked, bind_and_validate-IsChecked, bind_and_validate_iff}
use queryfabric.Binder.Scope.{
  ResolvedColumn, Scope, ambiguous, local, missing, push_relation, resolve_column,
}
use queryfabric.Binder.Rules.{JoinState}
use queryfabric.Binder.Finalize.{finalize_parameters}
use queryfabric.Binder.Walk.{bind_joins, bind_kind}
use queryfabric.Binder.Bindings.{Fits, finalize_parameters-Fits, reference_of, references}
use queryfabric.Binder.Columns.{refers, resolve_column_lem, visible}
use queryfabric.Binder.Joins.{as_bound, bind_joins-Agrees}
use queryfabric.Binder.Positions.{
  allocated, next_auto_position_seed-IsFresh, null_test_positions, positions_from,
}
use queryfabric.Binder.Safe.{Clean}
use queryfabric.Binder.Suggest.{top_similar}
use queryfabric.Binder.Widened.{Joined}

abbrev text_column : ColumnSchema
text_column = record { name = "name"; data_type = utf8; nullable = true; metadata = no_metadata }

abbrev id_column : ColumnSchema
id_column = record { name = "id"; data_type = int64; nullable = false; metadata = no_metadata }

abbrev users : RelationSchema
users = record {
  namespace = none;
  name = "users";
  aliases = [];
  kind = base_table;
  columns = id_column ∷ text_column ∷ [];
  metadata = [];
}

abbrev find_users : String → Option RelationSchema
find_users name = if name == "users" then some users else none

abbrev users_catalog : Catalog
users_catalog = record {
  snapshot_id = "one";
  resolve_relation = λ _ name. find_users name;
  resolve_function = λ _ _. none;
}

abbrev name_is : SyntaxExpr
name_is =
    expr (binary eq (column_named "NAME") (expr (parameter (named "who")) (at "p"))) (at "where")

-- SELECT id FROM users WHERE NAME = :who
abbrev select_id : OptionalExpr → SyntaxQuery
select_id condition =
    query (at "q") no_ctes false
      (select (
        syntax_select false
          (more_items (projection_expr (column_named "id") none (at "i")) no_items)
          (more_tables
            (table_with_joins (table (record { namespace = none; name = "users" }) none (at "t"))
              no_joins (at "from"))
            no_tables)
          condition no_exprs no_expr (at "s")))
      no_orders no_expr no_expr []

abbrev parsed_of : SyntaxQuery → ParsedQuery
parsed_of syntax = record {
  dialect = "generic";
  source_sql = "";
  canonical_sql = "";
  explain = false;
  dialect_metadata = [];
  query_span = record { offset = 0; len = 0 };
  syntax = syntax;
  lowering_diagnostics = [];
}

abbrev who : QueryParameters
who = record { positional = []; named = ("who", utf8_value "ada") ∷ [] }

abbrev who_binding : ParameterBinding
who_binding = record {
  schema = record {
    reference = named "who";
    data_type = utf8;
    nullable = false;
    metadata = no_metadata;
  };
  value = some (utf8_value "ada");
}

abbrev accepted_plan : BoundQueryPlan × BinderState
accepted_plan =
    bound_plan_of users_catalog to_ascii_lowercase (parsed_of (select_id (some_expr name_is))) who

abbrev accepted : BoundQuery
accepted =
    query_of users_catalog (parsed_of (select_id (some_expr name_is))) accepted_plan.0 []
      (who_binding ∷ [])

bind_and_validate-IsChecked_example : IsChecked who accepted
unfolding bind_and_validate push ◌>>=◌ return allocate_parameter record_parameter_use
    eq_ignore_ascii_case
bind_and_validate-IsChecked_example =
    bind_and_validate-IsChecked users_catalog to_ascii_lowercase
      (parsed_of (select_id (some_expr name_is))) who accepted refl

abbrev by_age : ParsedQuery
by_age = parsed_of (select_id (some_expr (column_named "age")))

bind_and_validate_iff_example :
    ((bound : BoundQuery) × (bind_and_validate users_catalog to_ascii_lowercase by_age who
        ≡ ok bound))
    ↔ ((some_of is_error by_age.lowering_diagnostics ≡ false)
        × Clean
            (finalize_parameters who
              (bound_plan_of users_catalog to_ascii_lowercase by_age who).1).1)
bind_and_validate_iff_example = bind_and_validate_iff users_catalog to_ascii_lowercase by_age who

-- The column is unknown, so the query is refused.
by_age_test :
    some_of is_error (bound_plan_of users_catalog to_ascii_lowercase by_age who).1.diagnostics
    ≡ true
unfolding bound_plan_of push ◌>>=◌ return eq_ignore_ascii_case
by_age_test = refl

abbrev who_constraint : ParameterConstraint
who_constraint = record {
  data_type = some utf8;
  nullable = non_null;
  span = none;
  node_id = some "p";
}

abbrev who_state : BinderState
who_state = record {
  diagnostics = [];
  parameter_constraints = (named "who", who_constraint) ∷ [];
  next_auto_position = 1;
}

finalize_parameters-Fits_example :
    All (Fits who) (who_binding ∷ [])
    × ((r : ParameterRef)
        → contains r (map reference_of (who_binding ∷ []))
          ≡ contains r (references who_state.parameter_constraints))
unfolding finalize_parameters ◌>>=◌ return
finalize_parameters-Fits_example = finalize_parameters-Fits who who_state (who_binding ∷ []) refl

abbrev users_twice : Scope
users_twice =
    record { binding_name = "u"; schema = to_result_schema users }
    ∷ record { binding_name = "V"; schema = to_result_schema users }
    ∷ []

abbrev meant_ids : List ResolvedColumn
meant_ids = keep (refers (some "v") "ID") (visible users_twice)

resolve_column_lem_example :
    ((resolve_column users_twice (some "v") "ID" ≡ missing) ↔ (length meant_ids ≡ 0))
    × ((resolve_column users_twice (some "v") "ID" ≡ ambiguous) ↔ (2 ≤ length meant_ids))
    × ((c : ResolvedColumn)
        → (resolve_column users_twice (some "v") "ID" ≡ local c) ↔ (meant_ids ≡ c ∷ []))
resolve_column_lem_example = resolve_column_lem users_twice (some "v") "ID"

abbrev users_relation : String → BoundRelation
users_relation name =
    bound_table
      (record { binding_name = name; relation_name = none; schema = to_result_schema users })
      (at "t")

abbrev users_alone : JoinState
users_alone = record {
  relation = users_relation "u";
  joins = no_bound_joins;
  join_scope = push_relation [] (users_relation "u");
}

abbrev right_join : Joins
right_join =
    more_joins
      (join right (table (record { namespace = none; name = "users" }) (some "v") (at "t")) no_expr
        (at "j"))
      no_joins

abbrev empty_state : BinderState
empty_state = record { diagnostics = []; parameter_constraints = []; next_auto_position = 1 }

bind_joins-Agrees_example :
    Joined users_alone
      (as_bound users_catalog to_ascii_lowercase [] none users_alone right_join empty_state)
      (bind_joins users_catalog to_ascii_lowercase [] none users_alone right_join empty_state).0
bind_joins-Agrees_example =
    bind_joins-Agrees users_catalog to_ascii_lowercase right_join [] none users_alone empty_state
      refl

abbrev third_given : QueryParameters
third_given = record { positional = (3, null_value) ∷ []; named = [] }

next_auto_position_seed-IsFresh_example :
    let given = allocated 2 (new_binder third_given) in
    (given ≡ positions_from (next_auto_position_seed third_given) 2)
    × All (λ r. lookup_parameter third_given r ≡ none) given
unfolding next_auto_position_seed
next_auto_position_seed-IsFresh_example =
    next_auto_position_seed-IsFresh third_given 2 (omega arith, tt) (omega arith)

null_test_positions_example :
    let after =
      (bind_kind users_catalog to_ascii_lowercase
        (at "n")
        []
        none
        anything
        (is_null (expr (parameter (ParameterRef.positional 0)) (at "p")) false)
        empty_state).1 in
    (after.next_auto_position ≡ next_position (next_position 1))
    × (c : ParameterConstraint) × (lookup (ParameterRef.positional 1) after.parameter_constraints
        ≡ some c)
    × (c.data_type ≡ none)
null_test_positions_example =
    null_test_positions users_catalog to_ascii_lowercase (at "n") (at "p") [] none anything false
      empty_state refl

-- The cases of the source's own tests.
similar_test :
    top_similar to_ascii_lowercase "celle_type" ("cell_type" ∷ "score" ∷ "volume" ∷ []) 3
    ≡ "cell_type" ∷ []
unfolding top_similar
similar_test = refl

unrelated_test : top_similar to_ascii_lowercase "zz" ("cell_type" ∷ "score" ∷ "volume" ∷ []) 3 ≡ []
unfolding top_similar
unrelated_test = refl
