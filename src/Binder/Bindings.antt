-- ===== src/Binder/Bindings.antt =====
-- What `Binder::finalize_parameters` promises of the bindings that it returns.
use queryfabric.Base.{
  All, Bool, Bool-cases, List, Option, [], arith, contains, false, inl, inr, map, none, not, refl,
  some, some_of, subst, true, ◌&&◌, ◌↔◌, ◌∷◌, ◌≡◌,
}
use queryfabric.Syntax.Types.{DataType, is_unknown}
use queryfabric.Syntax.Tree.{ParameterRef, SyntaxNode}
use queryfabric.Syntax.Parameters.{
  ParameterBinding, ParameterSchema, ParameterValue, QueryParameters, lookup_parameter,
}
use queryfabric.Binder.State.{
  BinderState, NullableConstraint, ParameterConstraint, allows_null, is_error, non_null,
  unknown_nullability,
}
use queryfabric.Binder.Parameters.{
  before_or_same, is_null_value, parameter_eq, parameter_value_matches_schema,
}
use queryfabric.Binder.Finalize.{
  and_binding, check_schema, check_value, finalize_each, finalize_one, finalize_parameters,
  in_order, insert_binding, insert_constraint, resolved_nullable, resolved_type, schema_for,
  sort_bindings,
}
use queryfabric.Binder.Safe.{
  Clean, Safe, Safe-error, Safe-last, Safe-refuse, Safe-return, Safe-then,
}
use queryfabric.Syntax.Parsed.{ok, ok-injective}

abbrev pub ValueFits : ParameterSchema → Option ParameterValue → Type 0
ValueFits schema none = Unit
ValueFits schema (some value) =
    (parameter_value_matches_schema value schema ≡ true)
    × ((is_null_value value && not schema.nullable) ≡ false)

-- A binding has a known type and the value given for its parameter, which is of that type.
abbrev pub Fits : QueryParameters → ParameterBinding → Type 0
Fits parameters b =
    (is_unknown b.schema.data_type ≡ false)
    × (b.value ≡ lookup_parameter parameters b.schema.reference)
    × ValueFits b.schema b.value

abbrev pub reference_of : ParameterBinding → ParameterRef
reference_of b = b.schema.reference

-- What is left of a constraint when no error is reported: a binding of its parameter that fits.
abbrev pub Bound : QueryParameters → ParameterRef → Option ParameterBinding → Type 0
Bound parameters reference none = ⊥
Bound parameters reference (some b) = Fits parameters b × (reference_of b ≡ reference)

abbrev pub KnownType : Option DataType → Type 0
KnownType none = ⊥
KnownType (some t) = is_unknown t ≡ false

abbrev pub IsSome : Option Bool → Type 0
IsSome none = ⊥
IsSome (some b) = Unit

Safe-type :
    (reference : ParameterRef) (node : SyntaxNode) (t : Option DataType)
    → Safe KnownType (resolved_type reference node t)
Safe-type reference node none = Safe-refuse _ (Safe-error _ _ _ _)
Safe-type reference node (some t) = elim (Bool-cases (is_unknown t)) [
  | inl yes_it_is ↦ rw yes_it_is (Safe-refuse _ (Safe-error _ _ _ _))
  | inr known ↦ rw known (Safe-return _ _ known)
]

Safe-nullable :
    (reference : ParameterRef) (node : SyntaxNode) (n : NullableConstraint)
    → Safe IsSome (resolved_nullable reference node n)
Safe-nullable reference node allows_null = Safe-return _ _ tt
Safe-nullable reference node non_null = Safe-return _ _ tt
Safe-nullable reference node unknown_nullability = Safe-refuse _ (Safe-error _ _ _ _)

module _ (parameters : QueryParameters) where
  Safe-value :
      (node : SyntaxNode) (schema : ParameterSchema) (value : Option ParameterValue)
      → value ≡ lookup_parameter parameters schema.reference
      → Safe
          (λ b. is_unknown schema.data_type ≡ false → Bound parameters schema.reference b)
          (check_value node schema value)
  Safe-value node schema none given = Safe-return _ _ (λ known. ((known, given, tt), refl))
  Safe-value node schema (some value) given =
      elim (Bool-cases (parameter_value_matches_schema value schema)) [
        | inr wrong ↦ rw wrong (Safe-refuse _ (Safe-error _ _ _ _))
        | inl right_type ↦ elim (Bool-cases (is_null_value value && not schema.nullable)) [
          | inl bad ↦ rw right_type (rw bad (Safe-refuse _ (Safe-error _ _ _ _)))
          | inr good ↦
              rw right_type
                (rw good (Safe-return _ _ (λ known. ((known, given, (right_type, good)), refl))))
        ]
      ]

  Safe-schema :
      (node : SyntaxNode) (reference : ParameterRef) (t : Option DataType) (n : Option Bool)
      → Safe
          (λ b. IsSome n → KnownType t → Bound parameters reference b)
          (check_schema parameters node (schema_for reference t n))
  Safe-schema node reference none n = Safe-return _ _ (λ _ known. absurd known)
  Safe-schema node reference (some t) none = Safe-return _ _ (λ some_n _. absurd some_n)
  Safe-schema node reference (some t) (some n) =
      Safe-last (Safe-value node _ _ refl) (λ _ bound _ known. bound known)

  Safe-one :
      (reference : ParameterRef) (c : ParameterConstraint)
      → Safe (Bound parameters reference) (finalize_one parameters reference c)
  unfolding finalize_one
  Safe-one reference c =
      Safe-then (Safe-type reference _ c.data_type)
        λ t. Safe-then (Safe-nullable reference _ c.nullable) λ n. Safe-schema _ reference t n

  -- The bindings of a list of constraints: all fit, and they have its references in its order.
  abbrev pub AllBound : List (ParameterRef × ParameterConstraint) → List ParameterBinding → Type 0
  AllBound cs bs = All (Fits parameters) bs × (map reference_of bs ≡ map (λ c. c.0) cs)

  and_binding-AllBound :
      (entry : ParameterRef × ParameterConstraint) (cs : List (ParameterRef × ParameterConstraint))
      (b : Option ParameterBinding) (bs : List ParameterBinding)
      → Bound parameters entry.0 b
      → AllBound cs bs
      → AllBound (entry ∷ cs) (and_binding parameters b bs)
  and_binding-AllBound entry cs none bs h all = absurd h
  and_binding-AllBound entry cs (some b) bs h all = ((h.0, all.0), cc (h.1, all.1))

  Safe-each :
      (cs : List (ParameterRef × ParameterConstraint))
      → Safe (AllBound cs) (finalize_each parameters cs)
  unfolding finalize_each
  Safe-each [] = Safe-return _ _ (tt, refl)
  Safe-each ((reference, constraint) ∷ cs) = Safe-then (Safe-one reference constraint) λ b.
      Safe-then (Safe-each cs)
        λ bs. Safe-return _ _ (λ all h. and_binding-AllBound (reference, constraint) cs b bs h all)

module _ {ℓ} (P : ParameterBinding → Type ℓ) where
  All-insert_binding :
      (b : ParameterBinding) (bs : List ParameterBinding)
      → P b
      → All P bs
      → All P (insert_binding b bs)
  All-insert_binding b [] h all = (h, tt)
  All-insert_binding b (c ∷ cs) h all =
      elim (Bool-cases (before_or_same b.schema.reference c.schema.reference)) [
        | inl first ↦ rw first (h, all)
        | inr later ↦ rw later (all.0, All-insert_binding b cs h all.1)
      ]

  All-sort_bindings : (bs : List ParameterBinding) → All P bs → All P (sort_bindings bs)
  unfolding sort_bindings
  All-sort_bindings [] all = tt
  All-sort_bindings (b ∷ bs) all =
      All-insert_binding b (sort_bindings bs) all.0 (All-sort_bindings bs all.1)

contains-insert_binding :
    (r : ParameterRef) (b : ParameterBinding) (bs : List ParameterBinding)
    → contains r (map reference_of (insert_binding b bs)) ≡ contains r (map reference_of (b ∷ bs))
contains-insert_binding r b [] = refl
contains-insert_binding r b (c ∷ cs) = ground (arith, contains-insert_binding r b cs)

contains-sort_bindings :
    (r : ParameterRef) (bs : List ParameterBinding)
    → contains r (map reference_of (sort_bindings bs)) ≡ contains r (map reference_of bs)
unfolding sort_bindings
contains-sort_bindings r [] = refl
contains-sort_bindings r (b ∷ bs) =
    ground (arith, contains-insert_binding r b (sort_bindings bs), contains-sort_bindings r bs)

abbrev pub references : List (ParameterRef × ParameterConstraint) → List ParameterRef
references cs = map (λ c. c.0) cs

contains-insert_constraint :
    (r : ParameterRef) (c : ParameterRef × ParameterConstraint)
    (cs : List (ParameterRef × ParameterConstraint))
    → contains r (references (insert_constraint c cs)) ≡ contains r (references (c ∷ cs))
contains-insert_constraint r (p, c) [] = refl
contains-insert_constraint r (p, c) ((q, d) ∷ cs) =
    ground (arith, contains-insert_constraint r (p, c) cs)

contains-in_order :
    (r : ParameterRef) (cs : List (ParameterRef × ParameterConstraint))
    → contains r (references (in_order cs)) ≡ contains r (references cs)
contains-in_order r [] = refl
contains-in_order r (c ∷ cs) =
    ground (arith, contains-insert_constraint r c (in_order cs), contains-in_order r cs)

-- When the parameters are accepted, every binding has a known type and the value given for its
-- parameter, of that type and not null where null is not allowed, and exactly the parameters
-- recorded while binding have one.
pub finalize_parameters-Fits :
    (parameters : QueryParameters) (s : BinderState) (bindings : List ParameterBinding)
    → (finalize_parameters parameters s).0 ≡ ok bindings
    → All (Fits parameters) bindings
      × ((r : ParameterRef)
          → contains r (map reference_of bindings)
            ≡ contains r (references s.parameter_constraints))
unfolding finalize_parameters
finalize_parameters-Fits parameters s bindings h =
    let cs = in_order s.parameter_constraints in
    let after = (finalize_each parameters cs s).1 in
    elim (Bool-cases (some_of is_error after.diagnostics)) [
      | inl bad ↦ cc (rw bad at h)
      | inr clean ↦
          let (before, (fit, same)) = (Safe-each parameters cs).ensures s clean in
          let sorted = sort_bindings (finalize_each parameters cs s).0 in
          let is_sorted = ok-injective (rw clean at h) in
          (
            subst (All (Fits parameters)) is_sorted (All-sort_bindings _ _ fit),
            λ r. rw (← is_sorted) (
                rw (contains-sort_bindings r (finalize_each parameters cs s).0)
                  (rw same (contains-in_order r s.parameter_constraints))),
          )
    ]

-- The parameters are accepted exactly when no error is reported up to the end of their check.
pub finalize_parameters_iff :
    (parameters : QueryParameters) (s : BinderState)
    → ((bindings : List ParameterBinding) × ((finalize_parameters parameters s).0 ≡ ok bindings))
      ↔ Clean (finalize_parameters parameters s).1
unfolding finalize_parameters
finalize_parameters_iff parameters s =
    let after = (finalize_each parameters (in_order s.parameter_constraints) s).1 in
    elim (Bool-cases (some_of is_error after.diagnostics)) [
      | inl bad ↦ rw bad (λ accepted. cc (accepted.1), λ clean. cc (clean, bad))
      | inr good ↦ rw good (λ accepted. good, λ clean. (_, refl))
    ]

-- A check that ends without an error began without one.
pub finalize_parameters-Clean :
    (parameters : QueryParameters) (s : BinderState)
    → Clean (finalize_parameters parameters s).1
    → Clean s
unfolding finalize_parameters
finalize_parameters-Clean parameters s clean =
    let cs = in_order s.parameter_constraints in
    let after = (finalize_each parameters cs s).1 in
    elim (Bool-cases (some_of is_error after.diagnostics)) [
      | inl bad ↦ ((Safe-each parameters cs).ensures s (rw bad at clean)).0
      | inr good ↦ ((Safe-each parameters cs).ensures s good).0
    ]
