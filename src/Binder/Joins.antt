-- ===== src/Binder/Joins.antt =====
-- The chains of joins that crates/queryfabric-catalog/src/bind/query.rs binds.
use queryfabric.Base.{List, Option, String, ℕ}
use queryfabric.Syntax.Tree.{Joins, join, more_joins, no_joins}
use queryfabric.Syntax.Bound.{BoundJoins, bound_join, more_bound_joins, no_bound_joins}
use queryfabric.Catalog.Model.{Catalog}
use queryfabric.Binder.State.{BinderState, exactly, return, ◌>>=◌}
use queryfabric.Binder.Scope.{Scope, push_relation}
use queryfabric.Binder.Rules.{CteMap, JoinState, add_join}
use queryfabric.Binder.Walk.{bind_joins, bind_optional, bind_query, bind_relation}
use queryfabric.Binder.Agrees.{Agrees, add_join-Agrees}
use queryfabric.Binder.Widened.{Joined, Joined-add, Joined-none}
use queryfabric.Syntax.Types.{boolean}

module _ (catalog : Catalog) (to_lowercase : String → List ℕ) where
  -- The joins of a chain with their relations and conditions as they are bound, each relation in the
  -- scope behind the joins before it, and each condition in that scope and the relation as it is bound.
  unfoldable pub as_bound : CteMap → Option Scope → JoinState → Joins → BinderState → BoundJoins
  as_bound ctes outer state no_joins s = no_bound_joins
  as_bound ctes outer state (more_joins (join kind relation on node) js) s =
      let (joined, s1) = bind_relation catalog to_lowercase ctes state.join_scope relation s in
      let scope = push_relation state.join_scope joined in
      let (bound_on, s2) = bind_optional catalog to_lowercase scope outer (exactly boolean) on s1 in
      more_bound_joins (bound_join kind joined bound_on node)
        (as_bound ctes outer (add_join kind joined bound_on node state) js s2)

  -- A chain of joins from a state whose scope shows its relations ends in such a state. In the plan a
  -- joined relation is as it was bound, but made nullable exactly where its own join is left or full
  -- or a later join is right or full; the relation and the joins of the state before the chain are made
  -- nullable exactly where a join of the chain is right or full.
  pub bind_joins-Agrees :
      (js : Joins) (ctes : CteMap) (outer : Option Scope) (state : JoinState) (s : BinderState)
      → Agrees state
      → Joined state
          (as_bound ctes outer state js s)
          (bind_joins catalog to_lowercase ctes outer state js s).0
  unfolding bind_query as_bound ◌>>=◌ return
  bind_joins-Agrees no_joins ctes outer state s h = Joined-none state h
  bind_joins-Agrees (more_joins (join kind relation on node) js) ctes outer state s h =
      Joined-add kind _ _ node state _ _
        (bind_joins-Agrees js ctes outer _ _ (add_join-Agrees kind _ _ node state h))
