-- ===== src/Syntax/Common.antt =====
-- `DataType::common_type` of crates/queryfabric-ir/src/types.rs and the folds over it.
use queryfabric.Syntax.Types.{DataType, DataType-discrete, float64, int32, int64, list, unknown}
use queryfabric.Base.{List, Option, [], none, some, ◌∷◌}

-- The arms of the match for two types that differ and are not both lists.
abbrev pub scalar_type : DataType → DataType → Option DataType
scalar_type unknown other = some other
scalar_type int32 int64 = some int64
scalar_type int64 int32 = some int64
scalar_type int32 float64 = some float64
scalar_type float64 int32 = some float64
scalar_type int64 float64 = some float64
scalar_type float64 int64 = some float64
scalar_type other unknown = some other
scalar_type _ _ = none

-- `if left == right { return Some(left) }`, and what is given otherwise.
abbrev pub same_or : {A : Type 0} {P : Type 0} → Dec P → A → A → A
same_or (yes same) here otherwise = here
same_or (no differ) here otherwise = otherwise

abbrev pub in_list : Option DataType → Option DataType
in_list none = none
in_list (some t) = some (list t)

-- The type of the items of a list.
abbrev pub item_type : DataType → Option DataType
item_type (list t) = some t
item_type _ = none

unfoldable pub common_type : DataType → DataType → Option DataType
unfolding DataType-discrete
common_type (list left) right =
    same_or (DataType-discrete (list left) right) (some (list left)) (elim (item_type right) [
      | some item ↦ in_list (common_type left item)
      | none ↦ scalar_type (list left) right
    ])
common_type left right = same_or (DataType-discrete left right) (some left) (scalar_type left right)

-- `common_type(..).unwrap_or(fallback)`
abbrev pub or_type : Option DataType → DataType → DataType
or_type none fallback = fallback
or_type (some t) fallback = t

-- `reduce(|left, right| common_type(&left, &right).unwrap_or(Unknown)).unwrap_or(Unknown)`
unfoldable pub reduce_from : DataType → List DataType → DataType
reduce_from acc [] = acc
reduce_from acc (t ∷ ts) = reduce_from (or_type (common_type acc t) unknown) ts

unfoldable pub reduce_types : List DataType → DataType
unfolding reduce_from
reduce_types [] = unknown
reduce_types (t ∷ ts) = reduce_from t ts
