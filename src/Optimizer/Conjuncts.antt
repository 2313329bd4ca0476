-- ===== src/Optimizer/Conjuncts.antt =====
-- `flatten_boolean_and` and `rebuild_boolean_and` of crates/queryfabric-opt/src/syntax.rs. An index of
-- `enumerate` is a ℕ, and `node_id` is written with it as `format!` writes it.
use Prim.Native.String.{◌++◌ as text_append}
use queryfabric.Base.{
  All, All-append, Bool, List, Option, [], ap, append-nil, append_assoc, ap₂, arith, none, refl,
  some, suc, sym, true, ℕ, ◌&&◌, ◌++◌, ◌∙◌, ◌∷◌, ◌≡◌, ◌≢◌,
}
use queryfabric.Base.Text.{decimal}
use queryfabric.Syntax.Tree.{SyntaxExpr, SyntaxNode, and, binary, expr}

unfoldable pub flatten_boolean_and : SyntaxExpr → List SyntaxExpr
flatten_boolean_and (expr (binary and left right) node) =
    flatten_boolean_and left ++ flatten_boolean_and right
flatten_boolean_and e = e ∷ []

-- `SyntaxNode::new(node.span, format!("{}.and[{index}]", node.node_id))`
unfoldable pub and_node : SyntaxNode → ℕ → SyntaxNode
and_node node index = record {
  span = node.span;
  node_id = text_append (text_append (text_append node.node_id ".and[") (decimal index)) "]";
}

-- The loop over the items behind the first.
unfoldable pub rebuild_from : SyntaxExpr → ℕ → List SyntaxExpr → SyntaxNode → SyntaxExpr
rebuild_from current index [] node = current
rebuild_from current index (item ∷ items) node =
    rebuild_from (expr (binary and current item) (and_node node index)) (suc index) items node

unfoldable pub rebuild_boolean_and : List SyntaxExpr → SyntaxNode → Option SyntaxExpr
unfolding rebuild_from
rebuild_boolean_and [] node = none
rebuild_boolean_and (item ∷ items) node = some (rebuild_from item 0 items node)

-- The truth of an expression as a conjunction of parts, each with a truth value of its own.
abbrev pub holds : (SyntaxExpr → Bool) → SyntaxExpr → Bool
holds v (expr (binary and left right) node) = holds v left && holds v right
holds v e = v e

abbrev pub all_hold : (SyntaxExpr → Bool) → List SyntaxExpr → Bool
all_hold v [] = true
all_hold v (e ∷ es) = holds v e && all_hold v es

-- An expression that is no conjunction.
abbrev pub IsConjunct : SyntaxExpr → Type 0
IsConjunct (expr (binary and left right) node) = ⊥
IsConjunct e = Unit

all_hold-append :
    (v : SyntaxExpr → Bool) (xs ys : List SyntaxExpr)
    → all_hold v (xs ++ ys) ≡ (all_hold v xs && all_hold v ys)
all_hold-append v [] ys = refl
all_hold-append v (x ∷ xs) ys = ground (arith, all_hold-append v xs ys)

flatten_holds :
    (v : SyntaxExpr → Bool) (e : SyntaxExpr) → all_hold v (flatten_boolean_and e) ≡ holds v e
unfolding flatten_boolean_and
flatten_holds v (expr (binary and left right) node) =
    all_hold-append v (flatten_boolean_and left) (flatten_boolean_and right)
    ∙ ap₂ (λ a b. a && b) (flatten_holds v left) (flatten_holds v right)
flatten_holds v e = ground arith

holds-rebuild_from :
    (v : SyntaxExpr → Bool) (current : SyntaxExpr) (i : ℕ) (items : List SyntaxExpr)
    (node : SyntaxNode)
    → holds v (rebuild_from current i items node) ≡ (holds v current && all_hold v items)
unfolding rebuild_from
holds-rebuild_from v current i [] node = ground arith
holds-rebuild_from v current i (item ∷ items) node = ground (
  arith,
  holds-rebuild_from v (expr (binary and current item) (and_node node i)) (suc i) items node,
)

flatten-conjuncts : (e : SyntaxExpr) → All IsConjunct (flatten_boolean_and e)
unfolding flatten_boolean_and
flatten-conjuncts (expr (binary and left right) node) =
    All-append IsConjunct (flatten_boolean_and left) (flatten_boolean_and right)
      (flatten-conjuncts left) (flatten-conjuncts right)
flatten-conjuncts e = (tt, tt)

flatten_conjunct : (e : SyntaxExpr) → IsConjunct e → flatten_boolean_and e ≡ e ∷ []
unfolding flatten_boolean_and
flatten_conjunct (expr (binary and left right) node) h = absurd h
flatten_conjunct e h = refl

flatten-rebuild_from :
    (current : SyntaxExpr) (i : ℕ) (items : List SyntaxExpr) (node : SyntaxNode)
    → All IsConjunct items
    → flatten_boolean_and (rebuild_from current i items node) ≡ flatten_boolean_and current ++ items
unfolding rebuild_from flatten_boolean_and
flatten-rebuild_from current i [] node h = sym (append-nil (flatten_boolean_and current))
flatten-rebuild_from current i (item ∷ items) node h =
    let joined = expr (binary and current item) (and_node node i) in
    flatten-rebuild_from joined (suc i) items node h.1
    ∙ ap (λ xs. (flatten_boolean_and current ++ xs) ++ items) (flatten_conjunct item h.0)
    ∙ append_assoc (flatten_boolean_and current) (item ∷ []) items

rebuild_conjuncts :
    (es : List SyntaxExpr) (node : SyntaxNode)
    → es ≢ []
    → All IsConjunct es
    → (r : SyntaxExpr) × (rebuild_boolean_and es node ≡ some r)
      × ((v : SyntaxExpr → Bool) → holds v r ≡ all_hold v es)
      × (flatten_boolean_and r ≡ es)
unfolding rebuild_boolean_and
rebuild_conjuncts [] node some_item h = absurd (some_item refl)
rebuild_conjuncts (item ∷ items) node some_item h = (
  rebuild_from item 0 items node,
  refl,
  λ v. holds-rebuild_from v item 0 items node,
  flatten-rebuild_from item 0 items node h.1 ∙ ap (λ xs. xs ++ items) (flatten_conjunct item h.0),
)

append_eq_nil {ℓ} : {A : Type ℓ} (xs ys : List A) → xs ++ ys ≡ [] → xs ≡ []
append_eq_nil [] ys h = refl
append_eq_nil (x ∷ xs) ys h = cc

flatten-ne-nil : (e : SyntaxExpr) → flatten_boolean_and e ≢ []
unfolding flatten_boolean_and
flatten-ne-nil (expr (binary and left right) node) h =
    flatten-ne-nil left (append_eq_nil (flatten_boolean_and left) (flatten_boolean_and right) h)
flatten-ne-nil e h = cc

-- Flattening an expression and rebuilding it at any node gives an expression with the same truth
-- under every valuation of the parts that are no conjunctions, and with the same conjuncts, none of
-- which is a conjunction.
pub rebuild-flatten :
    (e : SyntaxExpr) (node : SyntaxNode)
    → (r : SyntaxExpr) × (rebuild_boolean_and (flatten_boolean_and e) node ≡ some r)
      × ((v : SyntaxExpr → Bool) → holds v r ≡ holds v e)
      × (flatten_boolean_and r ≡ flatten_boolean_and e)
      × All IsConjunct (flatten_boolean_and e)
rebuild-flatten e node =
    let parts = flatten-conjuncts e in
    let (r, built, truth, back) =
      rebuild_conjuncts (flatten_boolean_and e) node (flatten-ne-nil e) parts in
    (r, built, λ v. truth v ∙ flatten_holds v e, back, parts)

-- Rebuilding no items gives nothing. Rebuilding items of which none is a conjunction gives an
-- expression that flattens to them, in their order.
pub flatten-rebuild :
    (item : SyntaxExpr) (items : List SyntaxExpr) (node : SyntaxNode)
    → All IsConjunct (item ∷ items)
    → (rebuild_boolean_and [] node ≡ none)
      × ((r : SyntaxExpr) × (rebuild_boolean_and (item ∷ items) node ≡ some r)
          × (flatten_boolean_and r ≡ item ∷ items))
unfolding rebuild_boolean_and
flatten-rebuild item items node h =
    let (r, built, truth, back) = rebuild_conjuncts (item ∷ items) node (λ e. cc) h in
    (refl, (r, built, back))
