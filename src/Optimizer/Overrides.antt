-- ===== src/Optimizer/Overrides.antt =====
-- What `apply_selection_overrides` of crates/queryfabric-opt/src/syntax.rs does to a query.
use queryfabric.Base.{[], map, ◌++◌, ◌≡◌}
use queryfabric.Syntax.Tree.{SyntaxQuery}
use queryfabric.Optimizer.Transform.{Overrides, apply_selection_overrides}
use queryfabric.Optimizer.Identity.{transform_query_nil}
use queryfabric.Optimizer.Compose.{transform_query-append}
use queryfabric.Optimizer.Selections.{selections_query}
use queryfabric.Optimizer.Replaced.{replaced, selections-transform_query}

-- With no overrides a query is rebuilt as it was, every part of it.
pub apply-nil : (q : SyntaxQuery) → apply_selection_overrides q [] ≡ q
unfolding apply_selection_overrides
apply-nil q = transform_query_nil q

-- The selects of a query that stand in no selection are, after a round of overrides, those before it,
-- in the same order and with the same identities, each with the first replacement that the map has for
-- its identity, and with its own selection where the map has none. Overriding twice is overriding once
-- with both maps, where the second map is asked first.
pub apply-apply :
    (q : SyntaxQuery) (m n : Overrides)
    → (selections_query (apply_selection_overrides q m) []
        ≡ map (replaced m) (selections_query q []))
      × (apply_selection_overrides (apply_selection_overrides q m) n
          ≡ apply_selection_overrides q (n ++ m))
unfolding apply_selection_overrides
apply-apply q m n = (selections-transform_query m q [], transform_query-append m n q)
