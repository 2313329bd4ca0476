-- ===== src/Binder/Safe.antt =====
-- What a step of the binder ensures when it ends without an error: that it began without one, and a
-- property of its result.
use queryfabric.Base.{Option, String, [], arith, false, some_of, some_of-append, ◌∷◌, ◌≡◌}
use queryfabric.Syntax.Tree.{SyntaxNode}
use queryfabric.Syntax.Parsed.{QueryDiagnostic}
use queryfabric.Binder.State.{
  Bind, BinderState, is_error, push, push_error, push_warning, return, ◌>>=◌,
}

abbrev pub Clean : BinderState → Type 0
Clean s = some_of is_error s.diagnostics ≡ false

pub record Safe {A : Type 0} (P : A → Type 0) (m : Bind A) : Type 0 where
  pub ensures : (s : BinderState) → Clean (m s).1 → Clean s × P (m s).0

module _ {A : Type 0} where
  pub Safe-return : (P : A → Type 0) (a : A) → P a → Safe P (return a)
  unfolding return
  Safe-return P a h = record { ensures = λ s clean. (clean, h) }

  pub Safe-weaken : (P Q : A → Type 0) (m : Bind A) → ((a : A) → P a → Q a) → Safe P m → Safe Q m
  Safe-weaken P Q m f h = record {
    ensures = λ s clean. let (before, p) = h.ensures s clean in (before, f _ p);
  }

  then_ensures :
      {B : Type 0} (P : A → Type 0) (Q : B → Type 0) (m : Bind A) (next : A → Bind B)
      → Safe P m
      → ((a : A) → Safe (λ b. P a → Q b) (next a))
      → (s : BinderState) → Clean ((m >>= next) s).1
      → Clean s × Q ((m >>= next) s).0
  unfolding ◌>>=◌
  then_ensures P Q m next hm hn s clean =
      let (middle, rest) = (hn _).ensures _ clean in
      let (before, p) = hm.ensures s middle in (before, rest p)

  -- The rest of a chain is shown from what its start ensures.
  pub Safe-then :
      {B : Type 0} {P : A → Type 0} {Q : B → Type 0} {m : Bind A} {next : A → Bind B}
      → Safe P m
      → ((a : A) → Safe (λ b. P a → Q b) (next a))
      → Safe Q (m >>= next)
  Safe-then hm hn = record { ensures = then_ensures _ _ _ _ hm hn }

push_ensures :
    (d : QueryDiagnostic) (P : Type 0)
    → (is_error d ≡ false → P)
    → (s : BinderState) → Clean (push d s).1
    → Clean s × P
unfolding push
push_ensures d P h s clean =
    let split = some_of-append is_error s.diagnostics (d ∷ []) in
    (ground (arith, split), h (ground (arith, split)))

pub Safe-error :
    (code message : String) (node : SyntaxNode) (remediation : Option String)
    → Safe (λ _. ⊥) (push_error code message node remediation)
Safe-error code message node remediation = record { ensures = push_ensures _ _ (λ h. cc) }

pub Safe-warning :
    (code message : String) (node : SyntaxNode) (remediation : Option String)
    → Safe (λ _. Unit) (push_warning code message node remediation)
Safe-warning code message node remediation = record { ensures = push_ensures _ _ (λ h. tt) }

module _ {A : Type 0} where
  -- What is refused ensures anything.
  pub Safe-refuse :
      {P : A → Type 0} {m : Bind (Unit {0})} (a : A)
      → Safe (λ _. ⊥) m
      → Safe P (m >>= λ _. return a)
  Safe-refuse a h = Safe-then h λ _. Safe-return _ _ (λ impossible. absurd impossible)

  -- A step at the end of a chain.
  pub Safe-last : {P Q : A → Type 0} {m : Bind A} → Safe P m → ((a : A) → P a → Q a) → Safe Q m
  Safe-last h f = Safe-weaken _ _ _ f h
