-- ===== src/Base/Lists.antt =====
-- Lists measured by native numbers, under the library's names, and predicates on their members.
use Prim.Native.Nat.{ℕ, suc, ◌+◌, ◌≤◌}
use mathlib.Core.Path.{◌≡◌, refl}
use mathlib.Core.Bool.{Bool, true, false, ◌&&◌, ◌||◌}
use mathlib.Core.List.{List, [], ◌∷◌, ◌++◌}
use native.Mathlib.Omega.{arith}
use queryfabric.Base.Tests.{if◌then◌else◌, Bool-cases, Key, ◌==◌, ==_refl}
use mathlib.Core.Logic.{inl, inr, ◌↔◌}

module _ {ℓ} {A : Type ℓ} where
  abbrev pub length : List A → ℕ
  length [] = 0
  length (x ∷ xs) = suc (length xs)

  pub length-append : (xs ys : List A) → length (xs ++ ys) ≡ length xs + length ys
  length-append [] ys = omega arith
  length-append (x ∷ xs) ys = omega (arith, length-append xs ys)

  -- `iter().filter(test)` with a Boolean test.
  abbrev pub keep : (A → Bool) → List A → List A
  keep test [] = []
  keep test (x ∷ xs) = if test x then x ∷ keep test xs else keep test xs

  pub keep-cons :
      (test : A → Bool) (x : A) (xs : List A)
      → keep test (x ∷ []) ++ keep test xs ≡ keep test (x ∷ xs)
  keep-cons test x xs = elim (Bool-cases (test x)) [
    | inl in_it ↦ rw in_it refl
    | inr out ↦ rw out refl
  ]

  pub length-keep-le : (test : A → Bool) (xs : List A) → length (keep test xs) ≤ length xs
  length-keep-le test [] = omega arith
  length-keep-le test (x ∷ xs) = ground (arith, length-keep-le test xs)

  -- `iter().any(test)`
  abbrev pub some_of : (A → Bool) → List A → Bool
  some_of test [] = false
  some_of test (x ∷ xs) = if test x then true else some_of test xs

  pub some_of-append :
      (test : A → Bool) (xs ys : List A)
      → some_of test (xs ++ ys) ≡ (some_of test xs || some_of test ys)
  some_of-append test [] ys = refl
  some_of-append test (x ∷ xs) ys = ground (arith, some_of-append test xs ys)

  abbrev pub All {κ} : (A → Type κ) → List A → Type κ
  All P [] = Unit
  All P (x ∷ xs) = P x × All P xs

  pub All-append {κ} : (P : A → Type κ) (xs ys : List A) → All P xs → All P ys → All P (xs ++ ys)
  All-append P [] ys hx hy = hy
  All-append P (x ∷ xs) ys hx hy = (hx.0, All-append P xs ys hx.1 hy)

  pub All-map {κ μ} :
      {P : A → Type κ} {Q : A → Type μ} (xs : List A) → ((x : A) → P x → Q x) → All P xs → All Q xs
  All-map [] f h = tt
  All-map (x ∷ xs) f h = (f x h.0, All-map xs f h.1)

  pub All-keep {κ} :
      (P : A → Type κ) (test : A → Bool) (xs : List A) → All P xs → All P (keep test xs)
  All-keep P test [] h = tt
  All-keep P test (x ∷ xs) h = elim (Bool-cases (test x)) [
    | inl in_it ↦ rw in_it (h.0, All-keep P test xs h.1)
    | inr out ↦ rw out (All-keep P test xs h.1)
  ]

module _ {ℓ} {A : Type ℓ} ⦃e : Key A⦄ where
  abbrev pub contains : A → List A → Bool
  contains x [] = false
  contains x (y ∷ ys) = if y == x then true else contains x ys

  -- No entry stands twice in the list.
  abbrev pub IsNodup : List A → Type ℓ
  IsNodup [] = Unit
  IsNodup (x ∷ xs) = All (λ y. (x == y) ≡ false) xs × IsNodup xs

  some_of_common :
      (xs ys : List A)
      → some_of (λ y. contains y xs) ys ≡ true
      → (x : A) × (contains x xs ≡ true) × (contains x ys ≡ true)
  some_of_common xs [] h = cc
  some_of_common xs (y ∷ ys) h = elim (Bool-cases (contains y xs)) [
    | inl here ↦ (y, here, rw (==_refl y) refl)
    | inr not_here ↦
        let (x, old, later) = some_of_common xs ys (rw not_here at h) in
        (x, old, ground (arith, later))
  ]

  common_some_of :
      (xs ys : List A) (x : A)
      → contains x xs ≡ true
      → contains x ys ≡ true
      → some_of (λ y. contains y xs) ys ≡ true
  common_some_of xs [] x h k = cc
  common_some_of xs (y ∷ ys) x h k = ground (arith, common_some_of xs ys x h, e.same_iff y x)

  -- Two lists have a member in common.
  pub some_of-contains :
      (xs ys : List A)
      → (some_of (λ y. contains y xs) ys ≡ true)
        ↔ ((x : A) × (contains x xs ≡ true) × (contains x ys ≡ true))
  some_of-contains xs ys = (some_of_common xs ys, λ c. common_some_of xs ys c.0 c.1 c.2)

  pub contains-keep :
      (test : A → Bool) (x : A) (xs : List A)
      → contains x (keep test xs) ≡ (contains x xs && test x)
  contains-keep test x [] = refl
  contains-keep test x (y ∷ ys) = ground (arith, contains-keep test x ys, e.same_iff y x)

  pub IsNodup-keep : (test : A → Bool) (xs : List A) → IsNodup xs → IsNodup (keep test xs)
  IsNodup-keep test [] d = tt
  IsNodup-keep test (x ∷ xs) d = elim (Bool-cases (test x)) [
    | inl in_it ↦ rw in_it (All-keep _ test xs d.0, IsNodup-keep test xs d.1)
    | inr out ↦ rw out (IsNodup-keep test xs d.1)
  ]

  pub not_contains : (x : A) (xs : List A) → All (λ y. (x == y) ≡ false) xs → contains x xs ≡ false
  not_contains x [] h = refl
  not_contains x (y ∷ ys) h = ground (arith, not_contains x ys h.1, e.same_iff x y, e.same_iff y x)

-- Tests that agree on the members keep the same members.
pub keep_ext {ℓ} :
    {A : Type ℓ} (p q : A → Bool) (xs : List A) → All (λ x. p x ≡ q x) xs → keep p xs ≡ keep q xs
keep_ext p q [] h = refl
keep_ext p q (x ∷ xs) h = ground (arith, keep_ext p q xs h.1)
