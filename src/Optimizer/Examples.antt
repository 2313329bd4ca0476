-- ===== src/Optimizer/Examples.antt =====
-- Overriding selections and rebuilding conjunctions, on concrete trees.
use queryfabric.Base.{All, Bool, [], map, none, refl, some, ◌++◌, ◌∷◌, ◌≡◌}
use queryfabric.Syntax.Tree.{SyntaxExpr, and, binary, expr, no_expr, some_expr}
use queryfabric.Syntax.Samples.{a_and_b, at, column_named, nested_ctes, select_where}
use queryfabric.Optimizer.Transform.{Overrides, apply_selection_overrides, transform_query}
use queryfabric.Optimizer.Overrides.{apply-apply, apply-nil}
use queryfabric.Optimizer.Conjuncts.{
  IsConjunct, flatten-rebuild, flatten_boolean_and, holds, rebuild-flatten, rebuild_boolean_and,
}
use queryfabric.Optimizer.Selections.{selections_query}
use queryfabric.Optimizer.Replaced.{replaced}

abbrev first_map : Overrides
first_map = ("s1", some_expr (column_named "c")) ∷ ("s2", some_expr a_and_b) ∷ []

abbrev second_map : Overrides
second_map = ("s1", no_expr) ∷ ("s3", some_expr a_and_b) ∷ []

override_test :
    apply_selection_overrides (select_where "s1" (some_expr a_and_b)) first_map
    ≡ select_where "s1" (some_expr (column_named "c"))
unfolding apply_selection_overrides transform_query
override_test = refl

apply-nil_example : apply_selection_overrides nested_ctes [] ≡ nested_ctes
apply-nil_example = apply-nil nested_ctes

apply-apply_example :
    (selections_query (apply_selection_overrides nested_ctes first_map) []
      ≡ map (replaced first_map) (selections_query nested_ctes []))
    × (apply_selection_overrides (apply_selection_overrides nested_ctes first_map) second_map
        ≡ apply_selection_overrides nested_ctes (second_map ++ first_map))
apply-apply_example = apply-apply nested_ctes first_map second_map

-- The selects of a query whose own select has an override.
selections_test :
    selections_query
      (apply_selection_overrides (select_where "s1" (some_expr a_and_b)) first_map)
      []
    ≡ ("s1", some_expr (column_named "c")) ∷ []
unfolding apply_selection_overrides transform_query selections_query
selections_test = refl

-- `(a AND b) AND c`
abbrev three : SyntaxExpr
three = expr (binary and a_and_b (column_named "c")) (at "top")

rebuild-flatten_example :
    (r : SyntaxExpr) × (rebuild_boolean_and (flatten_boolean_and three) (at "n") ≡ some r)
    × ((v : SyntaxExpr → Bool) → holds v r ≡ holds v three)
    × (flatten_boolean_and r ≡ flatten_boolean_and three)
    × All IsConjunct (flatten_boolean_and three)
rebuild-flatten_example = rebuild-flatten three (at "n")

flatten-rebuild_example :
    (rebuild_boolean_and [] (at "n") ≡ none)
    × ((r : SyntaxExpr) × (rebuild_boolean_and (column_named "a" ∷ column_named "b" ∷ []) (at "n")
          ≡ some r)
        × (flatten_boolean_and r ≡ column_named "a" ∷ column_named "b" ∷ []))
flatten-rebuild_example =
    flatten-rebuild (column_named "a") (column_named "b" ∷ []) (at "n") (tt, (tt, tt))
