-- ===== src/Syntax/Parsed.antt =====
-- crates/queryfabric-ir/src/diagnostics.rs, `ParsedQuery` of crates/queryfabric-ir/src/bound.rs and the errors of
-- crates/queryfabric-ir/src/error.rs. The provenance receipt of a bind error is left out: it carries a
-- hash of a third-party library.
use queryfabric.Base.{Bool, List, Option, String, [], false, refl, some, ℕ, ◌≡◌}
use queryfabric.Syntax.Span.{QuerySourceSpan, whole}
use queryfabric.Syntax.Tree.{SyntaxQuery, no_ctes, no_expr, no_orders, query, unsupported_set_expr}

pub data DiagnosticSeverity : Type 0 where
  error warning note : DiagnosticSeverity

pub record QueryDiagnostic : Type 0 where
  pub code : String
  pub severity : DiagnosticSeverity
  pub message : String
  pub remediation : Option String
  pub backend : Option String
  pub span : Option QuerySourceSpan
  pub node_id : Option String

pub record ParsedQuery : Type 0 where
  pub dialect : String
  pub source_sql : String
  pub canonical_sql : String
  pub explain : Bool
  pub dialect_metadata : List (String × String)
  pub query_span : QuerySourceSpan
  pub syntax : SyntaxQuery
  pub lowering_diagnostics : List QueryDiagnostic

-- `SyntaxQuery::unsupported`
unfoldable pub unsupported : Option QuerySourceSpan → String → String → SyntaxQuery
unsupported span node_id description =
    query (record { span = span; node_id = node_id }) no_ctes false
      (unsupported_set_expr description (record { span = span; node_id = "unsupported" })) no_orders
      no_expr no_expr []

-- `ParsedQuery::new`
unfoldable pub new : String → String → String → ParsedQuery
unfolding unsupported whole
new dialect source_sql canonical_sql =
    let query_span = whole source_sql in
    record {
      dialect = dialect;
      source_sql = source_sql;
      canonical_sql = canonical_sql;
      explain = false;
      dialect_metadata = [];
      query_span = query_span;
      syntax = unsupported (some query_span) "syntax.unsupported" "query syntax missing";
      lowering_diagnostics = [];
    }

abbrev pub with_syntax : ParsedQuery → SyntaxQuery → ParsedQuery
with_syntax parsed syntax = record parsed { syntax = syntax }

pub data QueryBudgetDimension : Type 0 where
  input_bytes parameters syntax_nodes nesting_depth joins ctes : QueryBudgetDimension

pub record BindErrorDetails : Type 0 where
  pub message : String
  pub source_sql : Option String
  pub dialect : Option String
  pub diagnostics : List QueryDiagnostic

pub data QueryFabricError : Type 0 where
  parse : (message : String) → QueryFabricError
  bind : BindErrorDetails → QueryFabricError
  unsupported_feature : (feature detail : String) → QueryFabricError
  catalog : String → QueryFabricError
  emission : String → QueryFabricError
  budget_exceeded : (dimension : QueryBudgetDimension) (limit actual : ℕ) → QueryFabricError

pub data Result {ℓ} (A : Type ℓ) : Type ℓ where
  ok : A → Result A
  err : QueryFabricError → Result A

-- The question mark of the source: an error ends the call.
module _ {ℓ κ} {A : Type ℓ} {B : Type κ} where
  infixl 5 ◌>>=◌
  abbrev pub ◌>>=◌ : Result A → (A → Result B) → Result B
  err failure >>= next = err failure
  ok value >>= next = next value

  -- A chain that ends well went well at its start.
  pub chain_ok :
      (first : Result A) (next : A → Result B) {b : B}
      → (first >>= next) ≡ ok b
      → (value : A) × (first ≡ ok value) × (next value ≡ ok b)
  chain_ok (err failure) next h = cc
  chain_ok (ok value) next h = (value, refl, h)

module _ {ℓ} {B : Type ℓ} where
  infixl 5 ◌>>◌
  abbrev pub ◌>>◌ : Result (Unit {0}) → Result B → Result B
  check >> rest = check >>= λ _. rest

pub ok-injective {ℓ} : {A : Type ℓ} {a b : A} → ok a ≡ ok b → a ≡ b
ok-injective h = cc
