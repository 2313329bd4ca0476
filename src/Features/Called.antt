-- ===== src/Features/Called.antt =====
-- The functions that the walk of crates/queryfabric-catalog/src/features.rs records are those that the plan
-- calls.
use queryfabric.Base.{
  Bool, Bool-cases, List, Option, String, [], ap, arith, eq_iff, false, inl, inr, none, refl, some,
  some_of-append, string_eq, subst, sym, true, ◌&&◌, ◌==◌, ◌||◌, ◌∷◌, ◌≡◌,
}
use queryfabric.Syntax.Tree.{FunctionRef}
use queryfabric.Syntax.Bound.{
  BoundCtes, BoundExpr, BoundExprKind, BoundExprs, BoundItems, BoundJoins, BoundQueryPlan,
  BoundRelation, BoundSelect, BoundSetExpr, BoundTables, BoundWhenThens, OptionalBound, bound_array,
  bound_between, bound_binary, bound_case, bound_cast, bound_column, bound_cte, bound_derived,
  bound_exists, bound_expr, bound_function, bound_function_call, bound_in_list, bound_in_subquery,
  bound_is_null, bound_join, bound_like, bound_literal, bound_nested_join, bound_parameter,
  bound_plan, bound_projection, bound_scalar_subquery, bound_select, bound_selection, bound_table,
  bound_table_with_joins, bound_tuple, bound_unary, bound_union_all, bound_unsupported,
  bound_unsupported_item, bound_unsupported_relation, bound_unsupported_set_expr, bound_when_then,
  bound_wildcard, more_bound_branches, more_bound_ctes, more_bound_items, more_bound_joins,
  more_bound_tables, more_bounds, no_bound, no_bound_branches, no_bound_ctes, no_bound_items,
  no_bound_joins, no_bound_tables, no_bounds, some_bound,
}
use queryfabric.Catalog.Model.{Catalog, FunctionSignature}
use queryfabric.Features.Model.{
  PlanFeatures, extend_functions, insert_function, is_recorded, merge_plan_features, same_function,
  same_option,
}
use queryfabric.Features.Bound.{
  bound_ctes_features, mark_bound_call, mark_bound_joins, own_bound_features,
  plan_features_from_bound, visit_bound_branches, visit_bound_expr, visit_bound_exprs,
  visit_bound_items, visit_bound_joins, visit_bound_kind, visit_bound_nested, visit_bound_optional,
  visit_bound_relation, visit_bound_select, visit_bound_set_expr, visit_bound_tables,
}
use queryfabric.Features.Calls.{
  branches_call, ctes_call, expr_calls, exprs_call, items_call, joins_call, kind_calls,
  nested_calls, option_calls, plan_calls, relation_calls, select_calls, set_calls, tables_call,
}

same_option_eq : (s t : Option String) → same_option s t ≡ true → s ≡ t
same_option_eq none none h = refl
same_option_eq none (some t) h = cc
same_option_eq (some s) none h = cc
same_option_eq (some s) (some t) h = ap some ((eq_iff s t).0 h)

and_true : (a b : Bool) → (a && b) ≡ true → (a ≡ true) × (b ≡ true)
and_true a b h = (ground (arith, h), ground (arith, h))

same_function_eq : (f g : FunctionRef) → same_function f g ≡ true → f ≡ g
same_function_eq f g h =
    let (spaces, names) = and_true (same_option f.namespace g.namespace) (f.name == g.name) h in
    let same_space : f.namespace ≡ g.namespace = same_option_eq f.namespace g.namespace spaces in
    let same_name : f.name ≡ g.name = (eq_iff f.name g.name).0 names in cc (same_space, same_name)

recorded_again :
    (g f : FunctionRef) (fs : List FunctionRef)
    → is_recorded f fs ≡ true
    → same_function g f ≡ true
    → is_recorded g fs ≡ true
recorded_again g f fs h same =
    subst (λ k. is_recorded k fs ≡ true) (sym (same_function_eq g f same)) h

pub is_recorded-insert :
    (g f : FunctionRef) (fs : List FunctionRef)
    → is_recorded g (insert_function f fs) ≡ (is_recorded g fs || same_function g f)
is_recorded-insert g f fs = elim (Bool-cases (is_recorded f fs)) [
  | inl old ↦ rw old (ground (arith, recorded_again g f fs old))
  | inr new_one ↦ rw new_one (ground (arith, some_of-append (same_function g) fs (f ∷ [])))
]

is_recorded-extend :
    (g : FunctionRef) (fs gs : List FunctionRef)
    → is_recorded g (extend_functions fs gs) ≡ (is_recorded g fs || is_recorded g gs)
is_recorded-extend g fs [] = ground arith
is_recorded-extend g fs (f ∷ gs) =
    ground (arith, is_recorded-extend g (insert_function f fs) gs, is_recorded-insert g f fs)

mark_bound_call-functions :
    (signature : Option FunctionSignature) (reference : FunctionRef) (distinct windowed : Bool)
    (f : PlanFeatures)
    → (mark_bound_call signature reference distinct windowed f).functions
      ≡ insert_function reference f.functions
unfolding mark_bound_call
mark_bound_call-functions none reference distinct windowed f = refl
mark_bound_call-functions (some signature) reference distinct windowed f = refl

mark_bound_joins-functions :
    (js : BoundJoins) (f : PlanFeatures) → (mark_bound_joins js f).functions ≡ f.functions
mark_bound_joins-functions no_bound_joins f = refl
mark_bound_joins-functions (more_bound_joins j js) f = refl

merge-functions :
    (g : FunctionRef) (f h : PlanFeatures)
    → is_recorded g (merge_plan_features f h).functions
      ≡ (is_recorded g f.functions || is_recorded g h.functions)
unfolding merge_plan_features
merge-functions g f h = is_recorded-extend g f.functions h.functions

-- A function is recorded after a step when it was before or the step calls it.
pub record Records (g : FunctionRef) (f after : PlanFeatures) (calls : Bool) : Type 0 where
  pub records : is_recorded g after.functions ≡ (is_recorded g f.functions || calls)

module _ (catalog : Catalog) (g : FunctionRef) where
  none_more : (f : PlanFeatures) → Records g f f false
  none_more f = record { records = ground arith }

  then_more :
      (f middle after : PlanFeatures) (a b : Bool)
      → Records g f middle a
      → Records g middle after b
      → Records g f after (a || b)
  then_more f middle after a b h k = record { records = ground (arith, h.records, k.records) }

  moved :
      (f other after : PlanFeatures) (a : Bool)
      → other.functions ≡ f.functions
      → Records g other after a
      → Records g f after a
  moved f other after a same h = record { records = ground (arith, h.records, same) }

  merged :
      (f h : PlanFeatures) (a : Bool)
      → is_recorded g h.functions ≡ a
      → Records g f (merge_plan_features f h) a
  merged f h a e = record { records = ground (arith, merge-functions g f h, e) }

  Records-call :
      (signature : Option FunctionSignature) (reference : FunctionRef) (distinct windowed : Bool)
      (f : PlanFeatures)
      → Records g f
          (mark_bound_call signature reference distinct windowed f)
          (same_function g reference)
  Records-call signature reference distinct windowed f = record {
    records =
        rw (mark_bound_call-functions signature reference distinct windowed f)
          (is_recorded-insert g reference f.functions);
  }

  marked : (js : BoundJoins) (f : PlanFeatures) → Records g f (mark_bound_joins js f) false
  marked js f = moved f _ _ false (mark_bound_joins-functions js f) (none_more _)

  mutual
    unfolding plan_features_from_bound

    -- The features of a plan name exactly the functions that the plan calls.
    pub plan_features-calls :
        (q : BoundQueryPlan)
        → is_recorded g (plan_features_from_bound catalog q).functions ≡ plan_calls g q
    plan_features-calls (bound_plan node ctes body orders limit offset clauses schema) =
        let own =
          own_bound_features (bound_plan node ctes body orders limit offset clauses schema) in
        (then_more own _ _ (set_calls g body) (ctes_call g ctes) (set_calls_lem body own)
          (ctes_call_lem ctes _)).records

    ctes_call_lem :
        (x : BoundCtes) (f : PlanFeatures)
        → Records g f (bound_ctes_features catalog x f) (ctes_call g x)
    ctes_call_lem no_bound_ctes f = none_more f
    ctes_call_lem (more_bound_ctes (bound_cte name columns q schema node) cs) f =
        then_more _ _ _ (plan_calls g q) (ctes_call g cs)
          (merged _ _ (plan_calls g q) (plan_features-calls q)) (ctes_call_lem cs _)

    set_calls_lem :
        (x : BoundSetExpr) (f : PlanFeatures)
        → Records g f (visit_bound_set_expr catalog x f) (set_calls g x)
    set_calls_lem (bound_select s) f = select_calls_lem s _
    set_calls_lem (bound_union_all a b node schema) f =
        moved f (record f { has_set_operations = true }) _ _ refl
          (then_more _ _ _ (set_calls g a) (set_calls g b) (set_calls_lem a _) (set_calls_lem b _))
    set_calls_lem (bound_unsupported_set_expr description node schema) f = none_more f

    select_calls_lem :
        (x : BoundSelect) (f : PlanFeatures)
        → Records g f (visit_bound_select catalog x f) (select_calls g x)
    select_calls_lem
          (bound_selection distinct projection from selection group_by having schema node) f =
        then_more _ _ _ (items_call g projection)
          (tables_call g from
            || (option_calls g selection || (exprs_call g group_by || option_calls g having)))
          (items_call_lem projection _)
          (then_more _ _ _ (tables_call g from)
            (option_calls g selection || (exprs_call g group_by || option_calls g having))
            (tables_call_lem from _)
            (then_more _ _ _ (option_calls g selection)
              (exprs_call g group_by || option_calls g having) (option_calls_lem selection _)
              (then_more _ _ _ (exprs_call g group_by) (option_calls g having)
                (exprs_call_lem group_by _) (option_calls_lem having _))))

    items_call_lem :
        (x : BoundItems) (f : PlanFeatures)
        → Records g f (visit_bound_items catalog x f) (items_call g x)
    items_call_lem no_bound_items f = none_more f
    items_call_lem (more_bound_items (bound_wildcard qualifier fields node) is) f =
        items_call_lem is _
    items_call_lem (more_bound_items (bound_projection e alias field node) is) f =
        then_more _ _ _ (expr_calls g e) (items_call g is) (expr_calls_lem e _)
          (items_call_lem is _)
    items_call_lem (more_bound_items (bound_unsupported_item description node) is) f =
        items_call_lem is _

    tables_call_lem :
        (x : BoundTables) (f : PlanFeatures)
        → Records g f (visit_bound_tables catalog x f) (tables_call g x)
    tables_call_lem no_bound_tables f = none_more f
    tables_call_lem (more_bound_tables (bound_table_with_joins relation js node) ts) f =
        then_more f (mark_bound_joins js f) _ false
          (tables_call g (more_bound_tables (bound_table_with_joins relation js node) ts))
          (marked js f)
          (then_more _ _ _ (relation_calls g relation) (joins_call g js || tables_call g ts)
            (relation_calls_lem relation _)
            (then_more _ _ _ (joins_call g js) (tables_call g ts) (joins_call_lem js _)
              (tables_call_lem ts _)))

    joins_call_lem :
        (x : BoundJoins) (f : PlanFeatures)
        → Records g f (visit_bound_joins catalog x f) (joins_call g x)
    joins_call_lem no_bound_joins f = none_more f
    joins_call_lem (more_bound_joins (bound_join kind relation on node) js) f =
        then_more _ _ _ (relation_calls g relation) (option_calls g on || joins_call g js)
          (relation_calls_lem relation _)
          (then_more _ _ _ (option_calls g on) (joins_call g js) (option_calls_lem on _)
            (joins_call_lem js _))

    nested_calls_lem :
        (x : BoundJoins) (f : PlanFeatures)
        → Records g f (visit_bound_nested catalog x f) (nested_calls g x)
    nested_calls_lem no_bound_joins f = none_more f
    nested_calls_lem (more_bound_joins (bound_join kind relation on node) js) f =
        then_more _ _ _ (relation_calls g relation) (nested_calls g js)
          (relation_calls_lem relation _) (nested_calls_lem js _)

    relation_calls_lem :
        (x : BoundRelation) (f : PlanFeatures)
        → Records g f (visit_bound_relation catalog x f) (relation_calls g x)
    relation_calls_lem (bound_table binding node) f = none_more f
    relation_calls_lem (bound_derived binding q node) f =
        moved f (record f { has_derived_tables = true }) _ _ refl
          (merged (record f { has_derived_tables = true }) (plan_features_from_bound catalog q)
            (plan_calls g q) (plan_features-calls q))
    relation_calls_lem (bound_nested_join binding (bound_table_with_joins relation js node) _) f =
        moved f (record f { has_derived_tables = true }) _ _ refl
          (then_more _ _ _ (relation_calls g relation) (nested_calls g js)
            (relation_calls_lem relation _) (nested_calls_lem js _))
    relation_calls_lem (bound_unsupported_relation description binding_name node) f = none_more f

    option_calls_lem :
        (x : OptionalBound) (f : PlanFeatures)
        → Records g f (visit_bound_optional catalog x f) (option_calls g x)
    option_calls_lem no_bound f = none_more f
    option_calls_lem (some_bound e) f = expr_calls_lem e _

    exprs_call_lem :
        (x : BoundExprs) (f : PlanFeatures)
        → Records g f (visit_bound_exprs catalog x f) (exprs_call g x)
    exprs_call_lem no_bounds f = none_more f
    exprs_call_lem (more_bounds e es) f =
        then_more _ _ _ (expr_calls g e) (exprs_call g es) (expr_calls_lem e _)
          (exprs_call_lem es _)

    branches_call_lem :
        (x : BoundWhenThens) (f : PlanFeatures)
        → Records g f (visit_bound_branches catalog x f) (branches_call g x)
    branches_call_lem no_bound_branches f = none_more f
    branches_call_lem (more_bound_branches (bound_when_then condition result) bs) f =
        then_more _ _ _ (expr_calls g condition) (expr_calls g result || branches_call g bs)
          (expr_calls_lem condition _)
          (then_more _ _ _ (expr_calls g result) (branches_call g bs) (expr_calls_lem result _)
            (branches_call_lem bs _))

    expr_calls_lem :
        (x : BoundExpr) (f : PlanFeatures)
        → Records g f (visit_bound_expr catalog x f) (expr_calls g x)
    expr_calls_lem (bound_expr kind data_type nullable node) f = kind_calls_lem kind _

    kind_calls_lem :
        (x : BoundExprKind) (f : PlanFeatures)
        → Records g f (visit_bound_kind catalog x f) (kind_calls g x)
    kind_calls_lem (bound_column reference) f = none_more f
    kind_calls_lem (bound_literal value) f = none_more f
    kind_calls_lem (bound_parameter reference) f = none_more f
    kind_calls_lem (bound_unary op e) f = expr_calls_lem e _
    kind_calls_lem (bound_binary op a b) f =
        then_more _ _ _ (expr_calls g a) (expr_calls g b) (expr_calls_lem a _) (expr_calls_lem b _)
    kind_calls_lem
          (bound_function (bound_function_call reference backend args distinct filter over name))
          f =
        then_more _ _ _ (same_function g reference) (exprs_call g args)
          (Records-call _ reference distinct _ f) (exprs_call_lem args _)
    kind_calls_lem (bound_case operand branches otherwise) f =
        then_more _ _ _ (option_calls g operand)
          (branches_call g branches || option_calls g otherwise) (option_calls_lem operand _)
          (then_more _ _ _ (branches_call g branches) (option_calls g otherwise)
            (branches_call_lem branches _) (option_calls_lem otherwise _))
    kind_calls_lem (bound_cast e data_type) f = expr_calls_lem e _
    kind_calls_lem (bound_between e low high negated) f =
        then_more _ _ _ (expr_calls g e) (expr_calls g low || expr_calls g high)
          (expr_calls_lem e _)
          (then_more _ _ _ (expr_calls g low) (expr_calls g high) (expr_calls_lem low _)
            (expr_calls_lem high _))
    kind_calls_lem (bound_in_list e items negated) f =
        then_more _ _ _ (expr_calls g e) (exprs_call g items) (expr_calls_lem e _)
          (exprs_call_lem items _)
    kind_calls_lem (bound_in_subquery e q negated) f =
        moved f (record f { has_in_subqueries = true }) _ _ refl
          (then_more _ _ _ (expr_calls g e) (plan_calls g q) (expr_calls_lem e _)
            (merged _ _ (plan_calls g q) (plan_features-calls q)))
    kind_calls_lem (bound_scalar_subquery q) f =
        moved f (record f { has_scalar_subqueries = true }) _ _ refl
          (merged (record f { has_scalar_subqueries = true }) (plan_features_from_bound catalog q)
            (plan_calls g q) (plan_features-calls q))
    kind_calls_lem (bound_exists q) f =
        moved f (record f { has_scalar_subqueries = true }) _ _ refl
          (merged (record f { has_scalar_subqueries = true }) (plan_features_from_bound catalog q)
            (plan_calls g q) (plan_features-calls q))
    kind_calls_lem (bound_like e pattern negated case_insensitive) f =
        then_more _ _ _ (expr_calls g e) (expr_calls g pattern) (expr_calls_lem e _)
          (expr_calls_lem pattern _)
    kind_calls_lem (bound_is_null e negated) f = expr_calls_lem e _
    kind_calls_lem (bound_tuple items) f = exprs_call_lem items _
    kind_calls_lem (bound_array items) f = exprs_call_lem items _
    kind_calls_lem (bound_unsupported description) f = none_more f
