-- ===== src/Binder/Widened.antt =====
-- Which relations of a chain of joins are made nullable, by the kinds of the joins alone, and that the
-- steps of crates/queryfabric-catalog/src/bind/query.rs make those nullable.
use queryfabric.Base.{Bool, List, [], ap, false, map, refl, true, ◌||◌, ◌∙◌, ◌∷◌, ◌≡◌}
use queryfabric.Syntax.Types.{ResultField, result_field}
use queryfabric.Syntax.Tree.{JoinKind, SyntaxNode, cross, full, inner, left, right}
use queryfabric.Syntax.Bound.{
  BoundJoins, BoundRelation, OptionalBound, bound_derived, bound_join, bound_nested_join,
  bound_table, bound_unsupported_relation, more_bound_joins, no_bound_joins,
}
use queryfabric.Binder.Scope.{nullable_field}
use queryfabric.Binder.Rules.{
  JoinState, add_join, make_join_relations_nullable, make_relation_nullable, push_join,
  widen_joined, widen_state,
}
use queryfabric.Binder.Agrees.{Agrees}

-- The kinds of join whose joined relation may be missing from a row, and those where what stands
-- before the join may be.
abbrev pub joined_optional : JoinKind → Bool
joined_optional left = true
joined_optional full = true
joined_optional inner = false
joined_optional right = false
joined_optional cross = false

abbrev pub earlier_optional : JoinKind → Bool
earlier_optional right = true
earlier_optional full = true
earlier_optional inner = false
earlier_optional left = false
earlier_optional cross = false

-- A join of the list makes what stands before it optional.
abbrev pub some_earlier_optional : BoundJoins → Bool
some_earlier_optional no_bound_joins = false
some_earlier_optional (more_bound_joins (bound_join k r on node) js) =
    earlier_optional k || some_earlier_optional js

abbrev pub nullable_if : Bool → BoundRelation → BoundRelation
nullable_if true r = make_relation_nullable r
nullable_if false r = r

abbrev pub all_nullable_if : Bool → BoundJoins → BoundJoins
all_nullable_if true js = make_join_relations_nullable js
all_nullable_if false js = js

-- The joins of a plan, from the joined relations as they are bound: a relation is nullable where its
-- own join or a later one makes it optional.
abbrev pub widened_joins : BoundJoins → BoundJoins
widened_joins no_bound_joins = no_bound_joins
widened_joins (more_bound_joins (bound_join k r on node) js) =
    more_bound_joins
      (bound_join k (nullable_if (joined_optional k || some_earlier_optional js) r) on node)
      (widened_joins js)

abbrev pub append_joins : BoundJoins → BoundJoins → BoundJoins
append_joins no_bound_joins ks = ks
append_joins (more_bound_joins j js) ks = more_bound_joins j (append_joins js ks)

-- What a chain of joins leaves of the state it began with, where `bound` are its joins with the
-- relations as they are bound.
pub record Joined (before : JoinState) (bound : BoundJoins) (after : JoinState) : Type 0 where
  pub relation : after.relation ≡ nullable_if (some_earlier_optional bound) before.relation
  pub joins :
      after.joins
      ≡ append_joins
          (all_nullable_if (some_earlier_optional bound) before.joins)
          (widened_joins bound)
  pub agrees : Agrees after

nullable_field-twice :
    (fields : List ResultField)
    → map nullable_field (map nullable_field fields) ≡ map nullable_field fields
nullable_field-twice [] = refl
nullable_field-twice (result_field name data_type nullable metadata ∷ fields) =
    cc (nullable_field-twice fields)

nullable-twice :
    (r : BoundRelation)
    → make_relation_nullable (make_relation_nullable r) ≡ make_relation_nullable r
nullable-twice (bound_table binding node) = cc (nullable_field-twice binding.schema.fields)
nullable-twice (bound_derived binding plan node) = cc (nullable_field-twice binding.schema.fields)
nullable-twice (bound_nested_join binding joined node) =
    cc (nullable_field-twice binding.schema.fields)
nullable-twice (bound_unsupported_relation _ _ node) = refl

nullable_if-or :
    (b c : Bool) (r : BoundRelation) → nullable_if b (nullable_if c r) ≡ nullable_if (c || b) r
nullable_if-or true true r = nullable-twice r
nullable_if-or true false r = refl
nullable_if-or false true r = refl
nullable_if-or false false r = refl

all_nullable-twice :
    (js : BoundJoins)
    → make_join_relations_nullable (make_join_relations_nullable js)
      ≡ make_join_relations_nullable js
all_nullable-twice no_bound_joins = refl
all_nullable-twice (more_bound_joins (bound_join k r on node) js) =
    cc (nullable-twice r, all_nullable-twice js)

push_join-nullable :
    (b c : Bool) (js : BoundJoins) (k : JoinKind) (r : BoundRelation) (on : OptionalBound)
    (node : SyntaxNode) (ks : BoundJoins)
    → append_joins
        (all_nullable_if b (push_join (all_nullable_if c js) (bound_join k r on node)))
        ks
      ≡ append_joins
          (all_nullable_if (c || b) js)
          (more_bound_joins (bound_join k (nullable_if b r) on node) ks)
push_join-nullable true true no_bound_joins k r on node ks = refl
push_join-nullable true false no_bound_joins k r on node ks = refl
push_join-nullable false true no_bound_joins k r on node ks = refl
push_join-nullable false false no_bound_joins k r on node ks = refl
push_join-nullable true true (more_bound_joins (bound_join l s o n) js) k r on node ks =
    cc (nullable-twice s, push_join-nullable true true js k r on node ks)
push_join-nullable true false (more_bound_joins (bound_join l s o n) js) k r on node ks =
    cc (push_join-nullable true false js k r on node ks)
push_join-nullable false true (more_bound_joins (bound_join l s o n) js) k r on node ks =
    cc (push_join-nullable false true js k r on node ks)
push_join-nullable false false (more_bound_joins (bound_join l s o n) js) k r on node ks =
    cc (push_join-nullable false false js k r on node ks)

widen_state-relation :
    (k : JoinKind) (state : JoinState)
    → (widen_state k state).relation ≡ nullable_if (earlier_optional k) state.relation
widen_state-relation inner state = refl
widen_state-relation left state = refl
widen_state-relation right state = refl
widen_state-relation full state = refl
widen_state-relation cross state = refl

widen_state-joins :
    (k : JoinKind) (state : JoinState)
    → (widen_state k state).joins ≡ all_nullable_if (earlier_optional k) state.joins
widen_state-joins inner state = refl
widen_state-joins left state = refl
widen_state-joins right state = refl
widen_state-joins full state = refl
widen_state-joins cross state = refl

widen_joined_lem :
    (k : JoinKind) (r : BoundRelation) → widen_joined k r ≡ nullable_if (joined_optional k) r
widen_joined_lem inner r = refl
widen_joined_lem left r = refl
widen_joined_lem right r = refl
widen_joined_lem full r = refl
widen_joined_lem cross r = refl

append-no_joins : (js : BoundJoins) → js ≡ append_joins js no_bound_joins
append-no_joins no_bound_joins = refl
append-no_joins (more_bound_joins j js) = cc (append-no_joins js)

pub Joined-none : (state : JoinState) → Agrees state → Joined state no_bound_joins state
Joined-none state h = record { relation = refl; joins = append-no_joins state.joins; agrees = h }

pub Joined-add :
    (k : JoinKind) (r : BoundRelation) (on : OptionalBound) (node : SyntaxNode)
    (state after : JoinState) (bound : BoundJoins)
    → Joined (add_join k r on node state) bound after
    → Joined state (more_bound_joins (bound_join k r on node) bound) after
Joined-add k r on node state after bound h =
    let b = some_earlier_optional bound in
    record {
      relation =
          h.relation
          ∙ ap (nullable_if b) (widen_state-relation k state)
          ∙ nullable_if-or b (earlier_optional k) state.relation;
      joins =
          h.joins
          ∙ ap
              (λ js.
                append_joins
                  (all_nullable_if b (push_join js (bound_join k (widen_joined k r) on node)))
                  (widened_joins bound))
              (widen_state-joins k state)
          ∙ push_join-nullable b (earlier_optional k) state.joins k (widen_joined k r) on node
              (widened_joins bound)
          ∙ ap
              (λ s.
                append_joins (all_nullable_if (earlier_optional k || b) state.joins)
                  (more_bound_joins (bound_join k s on node) (widened_joins bound)))
              (ap (nullable_if b) (widen_joined_lem k r) ∙ nullable_if-or b (joined_optional k) r);
      agrees = h.agrees;
    }
