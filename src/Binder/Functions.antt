-- ===== src/Binder/Functions.antt =====
-- crates/queryfabric-catalog/src/bind/functions.rs: what a function's signature says of a call. The call
-- itself is bound in Binder/Walk.antt, with the expressions.
use queryfabric.Base.{
  Bool, List, Option, String, [], contains, false, if◌then◌else◌, none, not, some, string_eq, suc,
  true, zero, ℕ, ◌&&◌, ◌==◌, ◌||◌, ◌∷◌,
}
use queryfabric.Syntax.Types.{DataType, is_unknown, unknown}
use queryfabric.Syntax.Common.{reduce_types}
use queryfabric.Syntax.Bound.{BoundExprs, bound_nullable, bound_type, more_bounds, no_bounds}
use queryfabric.Catalog.Model.{FunctionKind, FunctionSignature, aggregate, scalar, window}

abbrev pub bound_types : BoundExprs → List DataType
bound_types no_bounds = []
bound_types (more_bounds e es) = bound_type e ∷ bound_types es

abbrev pub any_nullable : BoundExprs → Bool
any_nullable no_bounds = false
any_nullable (more_bounds e es) = bound_nullable e || any_nullable es

abbrev pub all_nullable : BoundExprs → Bool
all_nullable no_bounds = true
all_nullable (more_bounds e es) = bound_nullable e && all_nullable es

abbrev pub nth : ℕ → List DataType → Option DataType
nth n [] = none
nth zero (t ∷ ts) = some t
nth (suc n) (t ∷ ts) = nth n ts

abbrev pub last : List DataType → Option DataType
last [] = none
last (t ∷ []) = some t
last (t ∷ u ∷ ts) = last (u ∷ ts)

abbrev pub or_last : FunctionSignature → Option DataType → Option DataType
or_last signature (some t) = some t
or_last signature none = if signature.variadic then last signature.arg_types else none

-- The type that the signature gives to the argument at a position.
abbrev pub argument_type : FunctionSignature → ℕ → Option DataType
argument_type signature idx = or_last signature (nth idx signature.arg_types)

-- The functions whose result has the type that their arguments have in common.
abbrev pub takes_argument_type : String → Bool
takes_argument_type name = contains name (
    "coalesce" ∷ "greatest" ∷ "least" ∷ "min" ∷ "max" ∷ "lag" ∷ "lead" ∷ "first_value"
    ∷ "last_value" ∷ [])

unfoldable pub infer_function_return_type : FunctionSignature → BoundExprs → DataType
unfolding is_unknown reduce_types
infer_function_return_type signature args =
    if not (is_unknown signature.return_type)
    then signature.return_type
    else if takes_argument_type signature.name
    then reduce_types (bound_types args)
    else unknown

abbrev pub or_arguments : String → BoundExprs → Bool
or_arguments name args = if name == "coalesce" then all_nullable args else any_nullable args

abbrev pub nullability_of_kind : FunctionKind → String → BoundExprs → Bool
nullability_of_kind aggregate name args = not (name == "count")
nullability_of_kind window name args =
    if contains name ("rank" ∷ "dense_rank" ∷ "row_number" ∷ [])
    then false
    else if contains name ("lag" ∷ "lead" ∷ [])
    then true
    else or_arguments name args
nullability_of_kind scalar name args = or_arguments name args

unfoldable pub infer_function_nullability : FunctionSignature → BoundExprs → Bool
infer_function_nullability signature args = nullability_of_kind signature.kind signature.name args
