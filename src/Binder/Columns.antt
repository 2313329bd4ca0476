-- ===== src/Binder/Columns.antt =====
-- The columns that a scope shows, and what a name finds among them.
use queryfabric.Base.{
  Bool, List, Option, String, [], arith, false, if◌then◌else◌, keep, length, none, refl, some, true,
  ◌&&◌, ◌++◌, ◌↔◌, ◌∷◌, ◌≡◌, ◌≤◌,
}
use queryfabric.Base.Ascii.{eq_ignore_ascii_case}
use queryfabric.Syntax.Types.{ResultField}
use queryfabric.Binder.Scope.{
  ResolvedColumn, Scope, ScopeEntry, ambiguous, column_matches, field_matches, field_name,
  in_relation, local, missing, resolution_of, resolve_column,
}

-- The fields of one relation, as columns.
abbrev pub columns_of : String → List ResultField → List ResolvedColumn
columns_of binding_name [] = []
columns_of binding_name (field ∷ fields) =
    record { relation = some binding_name; field = field } ∷ columns_of binding_name fields

abbrev pub visible : Scope → List ResolvedColumn
visible [] = []
visible (entry ∷ entries) = columns_of entry.binding_name entry.schema.fields ++ visible entries

abbrev pub names_relation : Option String → Option String → Bool
names_relation none found = true
names_relation (some relation) none = false
names_relation (some relation) (some found) = eq_ignore_ascii_case found relation

-- A reference means a column: the names agree, and the relations when the reference has one.
abbrev pub refers : Option String → String → ResolvedColumn → Bool
refers relation name found =
    names_relation relation found.relation && eq_ignore_ascii_case (field_name found.field) name

keep-append {ℓ} :
    {A : Type ℓ} (test : A → Bool) (xs ys : List A)
    → keep test (xs ++ ys) ≡ keep test xs ++ keep test ys
keep-append test [] ys = refl
keep-append test (x ∷ xs) ys = ground (arith, keep-append test xs ys)

field_matches-keep :
    (entry : ScopeEntry) (relation : Option String) (name : String) (fields : List ResultField)
    → (if in_relation relation entry then field_matches entry.binding_name name fields else [])
      ≡ keep (refers relation name) (columns_of entry.binding_name fields)
field_matches-keep entry none name [] = refl
field_matches-keep entry none name (field ∷ fields) =
    ground (arith, field_matches-keep entry none name fields)
field_matches-keep entry (some relation) name [] = ground arith
field_matches-keep entry (some relation) name (field ∷ fields) =
    ground (arith, field_matches-keep entry (some relation) name fields)

column_matches-keep :
    (scope : Scope) (relation : Option String) (name : String)
    → column_matches scope relation name ≡ keep (refers relation name) (visible scope)
column_matches-keep [] relation name = refl
column_matches-keep (entry ∷ entries) relation name = ground (
  arith,
  column_matches-keep entries relation name,
  field_matches-keep entry relation name entry.schema.fields,
  keep-append (refers relation name) (columns_of entry.binding_name entry.schema.fields)
      (visible entries),
)

resolution_of_lem :
    (meant : List ResolvedColumn)
    → ((resolution_of meant ≡ missing) ↔ (length meant ≡ 0))
      × ((resolution_of meant ≡ ambiguous) ↔ (2 ≤ length meant))
      × ((c : ResolvedColumn) → (resolution_of meant ≡ local c) ↔ (meant ≡ c ∷ []))
resolution_of_lem [] =
    ((λ _. refl, λ _. refl), (λ h. cc, λ h. absurd (omega arith)), λ c. (λ h. cc, λ h. cc))
resolution_of_lem (d ∷ []) =
    ((λ h. cc, λ h. cc), (λ h. cc, λ h. absurd (omega arith)), λ c. (λ h. cc, λ h. cc))
resolution_of_lem (d ∷ e ∷ meant) =
    ((λ h. cc, λ h. cc), (λ _. omega arith, λ _. refl), λ c. (λ h. cc, λ h. cc))

-- A column resolves to the only column in scope that its reference means; it is missing when there
-- is none, and ambiguous when there are several.
pub resolve_column_lem :
    (scope : Scope) (relation : Option String) (name : String)
    → let meant = keep (refers relation name) (visible scope) in
      ((resolve_column scope relation name ≡ missing) ↔ (length meant ≡ 0))
      × ((resolve_column scope relation name ≡ ambiguous) ↔ (2 ≤ length meant))
      × ((c : ResolvedColumn) → (resolve_column scope relation name ≡ local c) ↔ (meant ≡ c ∷ []))
unfolding resolve_column
resolve_column_lem scope relation name =
    rw (column_matches-keep scope relation name)
      (resolution_of_lem (keep (refers relation name) (visible scope)))
