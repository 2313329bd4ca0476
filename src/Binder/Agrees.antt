-- ===== src/Binder/Agrees.antt =====
-- The scope of a chain of joins in crates/queryfabric-catalog/src/bind/query.rs, which shows the relations
-- that it joins.
use queryfabric.Base.{List, [], map, refl, sym, ◌++◌, ◌∷◌, ◌≡◌}
use queryfabric.Syntax.Tree.{JoinKind, SyntaxNode, cross, full, inner, left, right}
use queryfabric.Syntax.Bound.{
  BoundJoins, BoundRelation, OptionalBound, bound_derived, bound_join, bound_nested_join,
  bound_table, bound_unsupported_relation, more_bound_joins, no_bound_joins,
}
use queryfabric.Binder.Scope.{
  Scope, make_all_nullable, nullable_entry, push_joins, push_relation, relation_entries,
}
use queryfabric.Binder.Rules.{
  JoinState, add_join, all_nullable_state, make_join_relations_nullable, make_relation_nullable,
  push_join, widen_joined, widen_state,
}

-- The scope shows the relation and the joins as they are, nullability included.
abbrev pub Agrees : JoinState → Type 0
Agrees state = state.join_scope ≡ push_joins (relation_entries state.relation) state.joins

map-append {ℓ κ} :
    {A : Type ℓ} {B : Type κ} (f : A → B) (xs ys : List A) → map f (xs ++ ys) ≡ map f xs ++ map f ys
map-append f [] ys = refl
map-append f (x ∷ xs) ys = cc (map-append f xs ys)

push_joins-push_join :
    (scope : Scope) (js : BoundJoins) (k : JoinKind) (r : BoundRelation) (on : OptionalBound)
    (node : SyntaxNode)
    → push_joins scope (push_join js (bound_join k r on node))
      ≡ push_relation (push_joins scope js) r
push_joins-push_join scope no_bound_joins k r on node = refl
push_joins-push_join scope (more_bound_joins (bound_join _ s _ _) js) k r on node =
    push_joins-push_join (push_relation scope s) js k r on node

nullable-entries :
    (r : BoundRelation)
    → make_all_nullable (relation_entries r) ≡ relation_entries (make_relation_nullable r)
nullable-entries (bound_table binding node) = refl
nullable-entries (bound_derived binding plan node) = refl
nullable-entries (bound_nested_join binding joined node) = refl
nullable-entries (bound_unsupported_relation _ _ node) = refl

nullable-push_joins :
    (scope : Scope) (js : BoundJoins)
    → make_all_nullable (push_joins scope js)
      ≡ push_joins (make_all_nullable scope) (make_join_relations_nullable js)
nullable-push_joins scope no_bound_joins = refl
nullable-push_joins scope (more_bound_joins (bound_join k r on node) js) =
    rw (nullable-push_joins (push_relation scope r) js)
      (rw (map-append nullable_entry scope (relation_entries r)) (rw (nullable-entries r) refl))

all_nullable-Agrees : (state : JoinState) → Agrees state → Agrees (all_nullable_state state)
all_nullable-Agrees state h = rw h (
    rw (nullable-push_joins (relation_entries state.relation) state.joins)
      (rw (nullable-entries state.relation) refl))

widen_state-Agrees :
    (kind : JoinKind) (state : JoinState) → Agrees state → Agrees (widen_state kind state)
widen_state-Agrees right state h = all_nullable-Agrees state h
widen_state-Agrees full state h = all_nullable-Agrees state h
widen_state-Agrees inner state h = h
widen_state-Agrees left state h = h
widen_state-Agrees cross state h = h

pub add_join-Agrees :
    (kind : JoinKind) (joined : BoundRelation) (on : OptionalBound) (node : SyntaxNode)
    (state : JoinState)
    → Agrees state
    → Agrees (add_join kind joined on node state)
add_join-Agrees kind joined on node state h =
    let widened = widen_state kind state in
    rw (widen_state-Agrees kind state h) (
      sym (
        push_joins-push_join (relation_entries widened.relation) widened.joins kind
          (widen_joined kind joined) on node))
