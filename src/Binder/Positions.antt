-- ===== src/Binder/Positions.antt =====
-- The positions that the binder gives to anonymous parameters.
use queryfabric.Base.{
  All, Bool, List, Option, String, [], arith, false, insert, lookup, lookup-insert,
  lookup-insert_self, max, nat_beq, nat_eq, none, refl, some, suc, zero, ℕ, ◌+◌, ◌<◌, ◌^◌, ◌∷◌, ◌≡◌,
  ◌≤◌,
}
use queryfabric.Syntax.Tree.{ParameterRef, SyntaxNode, expr, is_null, parameter, positional}
use queryfabric.Syntax.Parameters.{ParameterValue, QueryParameters, lookup_parameter}
use queryfabric.Catalog.Model.{Catalog}
use queryfabric.Binder.State.{
  BinderState, ExpectedType, ParameterConstraint, allows_null, return, ◌>>=◌,
}
use queryfabric.Binder.Scope.{Scope}
use queryfabric.Binder.Parameters.{
  allocate_parameter, constraint_of, largest, merge_constraint, next_auto_position_seed,
  next_position, parameter_eq, record_parameter_use, same_parameter,
}
use queryfabric.Binder.Walk.{bind_kind, bind_query}
use queryfabric.Binder.Validate.{new_binder}

-- No value is given for the largest 32-bit number.
abbrev pub InRange : List (ℕ × ParameterValue) → Type 0
InRange values = All (λ (entry : ℕ × ParameterValue). suc entry.0 < 2 ^ 32) values

largest_le : (n : ℕ) (values : List (ℕ × ParameterValue)) → n ≤ largest n values
largest_le n [] = omega arith
largest_le n ((position, value) ∷ others) = omega (arith, largest_le (max n position) others)

largest-InRange :
    (n : ℕ) (values : List (ℕ × ParameterValue))
    → suc n < 2 ^ 32
    → InRange values
    → suc (largest n values) < 2 ^ 32
largest-InRange n [] h all = h
largest-InRange n ((position, value) ∷ others) h all =
    largest-InRange (max n position) others (ground (arith, all.0)) all.1

lookup_above :
    (n k : ℕ) (values : List (ℕ × ParameterValue)) → largest n values < k → lookup k values ≡ none
lookup_above n k [] h = refl
lookup_above n k ((position, value) ∷ others) h =
    ground (arith, lookup_above (max n position) k others h, largest_le (max n position) others)

seed_above :
    (parameters : QueryParameters) (k : ℕ)
    → InRange parameters.positional
    → next_auto_position_seed parameters ≤ k
    → lookup_parameter parameters (positional k) ≡ none
unfolding next_auto_position_seed
seed_above parameters k range h =
    lookup_above 0 k parameters.positional
      (ground (arith, largest-InRange 0 parameters.positional (ground arith) range, h))

-- The references that `n` anonymous parameters are given in turn.
unfoldable pub allocated : ℕ → BinderState → List ParameterRef
unfolding allocate_parameter
allocated zero s = []
allocated (suc n) s =
    let (reference, after) = allocate_parameter (positional 0) s in reference ∷ allocated n after

-- The positions from `k` on, `n` of them.
abbrev pub positions_from : ℕ → ℕ → List ParameterRef
positions_from k zero = []
positions_from k (suc n) = positional k ∷ positions_from (suc k) n

allocated_lem :
    (parameters : QueryParameters) (n : ℕ) (s : BinderState)
    → InRange parameters.positional
    → next_auto_position_seed parameters ≤ s.next_auto_position
    → s.next_auto_position + n < 2 ^ 32
    → (allocated n s ≡ positions_from s.next_auto_position n)
      × All (λ r. lookup_parameter parameters r ≡ none) (allocated n s)
unfolding allocated
allocated_lem parameters zero s range h fits = (refl, tt)
allocated_lem parameters (suc n) s range h fits =
    let next : next_position s.next_auto_position ≡ suc s.next_auto_position = ground arith in
    let after = record s { next_auto_position = next_position s.next_auto_position } in
    let (same, free) =
      allocated_lem parameters n after range (omega (arith, next)) (omega (arith, next)) in
    (cc (same, next), (seed_above parameters s.next_auto_position range h, free))

-- If every position with a value is below 2 ^ 32 - 1, and the seed of a new binder plus a number of
-- anonymous parameters is below 2 ^ 32, then the binder gives that many anonymous parameters the
-- positions from its seed on, one after the other, and no value is given for any of them.
pub next_auto_position_seed-IsFresh :
    (parameters : QueryParameters) (n : ℕ)
    → InRange parameters.positional
    → next_auto_position_seed parameters + n < 2 ^ 32
    → let given = allocated n (new_binder parameters) in
      (given ≡ positions_from (next_auto_position_seed parameters) n)
      × All (λ r. lookup_parameter parameters r ≡ none) given
unfolding new_binder
next_auto_position_seed-IsFresh parameters n range fits =
    allocated_lem parameters n (new_binder parameters) range (omega arith) fits

next_position_ne : (n : ℕ) → nat_beq (next_position n) n ≡ false
next_position_ne n = ground arith

lookup-insert_under :
    (k j : ParameterRef) (v w : ParameterConstraint) (m : List (ParameterRef × ParameterConstraint))
    → same_parameter k j ≡ false
    → lookup j (insert k v (insert j w m)) ≡ some w
lookup-insert_under k j v w m differ =
    rw (lookup-insert k j v (insert j w m)) (rw differ (lookup-insert_self j w m))

module _ (catalog : Catalog) (to_lowercase : String → List ℕ) where
  -- Testing an anonymous parameter for null takes two positions, and the first of them, when no
  -- parameter stands there yet, is left with a constraint that has no type.
  pub null_test_positions :
      (node inner_node : SyntaxNode) (scope : Scope) (outer : Option Scope)
      (expected : ExpectedType) (negated : Bool) (s : BinderState)
      → lookup (positional s.next_auto_position) s.parameter_constraints ≡ none
      → let after =
          (bind_kind catalog to_lowercase node scope outer expected
            (is_null (expr (parameter (positional 0)) inner_node) negated)
            s).1 in
        (after.next_auto_position ≡ next_position (next_position s.next_auto_position))
        × (c : ParameterConstraint) × (lookup
              (positional s.next_auto_position)
              after.parameter_constraints
            ≡ some c)
        × (c.data_type ≡ none)
  unfolding bind_query ◌>>=◌ return record_parameter_use allocate_parameter
  null_test_positions node inner_node scope outer expected negated s fresh = (
    refl,
    merge_constraint
        (constraint_of s.parameter_constraints (positional s.next_auto_position) inner_node)
        (record { data_type = none; nullable = allows_null }),
    lookup-insert_under (positional (next_position s.next_auto_position)) _ _ _
        s.parameter_constraints (next_position_ne s.next_auto_position),
    rw (fresh, constraint_of) refl,
  )
