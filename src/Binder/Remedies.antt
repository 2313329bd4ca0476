-- ===== src/Binder/Remedies.antt =====
-- The texts that the binder adds to an error on a column: `missing_column_remediation` of
-- crates/queryfabric-catalog/src/bind/exprs.rs.
use Prim.Native.String.{◌++◌ as text_append}
use queryfabric.Base.{List, Option, String, [], if◌then◌else◌, none, not, some, ℕ, ◌∷◌}
use queryfabric.Binder.Scope.{Scope, all_column_names, has_relation, relation_column_names}
use queryfabric.Binder.Suggest.{top_similar}

abbrev pub join_names : List String → String
join_names [] = ""
join_names (name ∷ []) = name
join_names (name ∷ other ∷ names) = text_append name (text_append ", " (join_names (other ∷ names)))

-- `…`, quoted and followed by a text.
abbrev pub quoted : String → String → String → String
quoted start name rest =
    text_append start (text_append "`" (text_append name (text_append "`" rest)))

abbrev pub did_you_mean : List String → String
did_you_mean names = text_append " Did you mean: " (text_append (join_names names) "?")

abbrev pub or_names : String → String → List String → String
or_names plain start [] = plain
or_names plain start (name ∷ names) = text_append start (did_you_mean (name ∷ names))

module _ (to_lowercase : String → List ℕ) where
  unfoldable pub missing_column_remediation : Scope → Option String → String → Option String
  unfolding top_similar
  missing_column_remediation scope (some relation) name =
      if not (has_relation scope relation)
      then some (quoted "Unknown relation alias " relation ". Check the relation aliases in scope.")
      else elim (relation_column_names scope relation) [
        | none ↦ none
        | some columns ↦ some (
            or_names (quoted "Check the relation alias " relation " and its column names.")
              (quoted "Check the column name on " relation ".")
              (top_similar to_lowercase name columns 3))
      ]
  missing_column_remediation scope none name = some (
      or_names "Check the relation aliases and column names in scope."
        "Check the relation aliases and column names in scope."
        (top_similar to_lowercase name (all_column_names scope) 3))
