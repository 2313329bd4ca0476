-- ===== src/Syntax/Widening.antt =====
-- The order of types behind `DataType::common_type` of crates/queryfabric-ir/src/types.rs.
use queryfabric.Base.{Option, Option-cases, inl, inr, none, refl, some, some_inj, subst, sym, ◌≡◌}
use queryfabric.Syntax.Types.{DataType, DataType-discrete, float64, int32, int64, list, unknown}
use queryfabric.Syntax.Common.{common_type, in_list, item_type, same_or, scalar_type}

-- A value of the first type is one of the second: anything may stand for an unknown type, and the
-- integers widen to longer ones and to floats, also as the items of a list.
abbrev pub Widens : DataType → DataType → Type 0
Widens unknown b = Unit
Widens int32 int64 = Unit
Widens int32 float64 = Unit
Widens int64 float64 = Unit
Widens (list a) (list b) = Widens a b
Widens a b = a ≡ b

Widens_refl : (a : DataType) → Widens a a
Widens_refl (list a) = Widens_refl a
Widens_refl unknown = tt
Widens_refl _ = refl

BothWiden : DataType → DataType → DataType → Type 0
BothWiden a b c = Widens a c × Widens b c

both_widen : (a b c d : DataType) → BothWiden a b d → some d ≡ some c → BothWiden a b c
both_widen a b c d h e = subst (BothWiden a b) (some_inj e) h

none_not_some : {t : DataType} → none ≡ some t → ⊥
none_not_some h = cc

-- Two types that the match joins widen to what it gives.
scalar_type-Widens : (a b c : DataType) → scalar_type a b ≡ some c → BothWiden a b c
unfolding BothWiden
scalar_type-Widens unknown b c h = both_widen unknown b c b (tt, Widens_refl b) h
scalar_type-Widens int32 int64 c h = both_widen int32 int64 c int64 (tt, refl) h
scalar_type-Widens int64 int32 c h = both_widen int64 int32 c int64 (refl, tt) h
scalar_type-Widens int32 float64 c h = both_widen int32 float64 c float64 (tt, refl) h
scalar_type-Widens float64 int32 c h = both_widen float64 int32 c float64 (refl, tt) h
scalar_type-Widens int64 float64 c h = both_widen int64 float64 c float64 (tt, refl) h
scalar_type-Widens float64 int64 c h = both_widen float64 int64 c float64 (refl, tt) h
scalar_type-Widens a unknown c h = both_widen a unknown c a (Widens_refl a, tt) h
scalar_type-Widens a b c h = absurd (none_not_some h)

plain-Widens :
    (a b c : DataType) (d : Dec (a ≡ b))
    → same_or d (some a) (scalar_type a b) ≡ some c
    → BothWiden a b c
unfolding BothWiden
plain-Widens a b c (yes same) h =
    subst (λ b. BothWiden a b c) same (both_widen a a c a (Widens_refl a, Widens_refl a) h)
plain-Widens a b c (no differ) h = scalar_type-Widens a b c h

inner-Widens :
    (a b c : DataType) (o : Option DataType)
    → ((t : DataType) → o ≡ some t → BothWiden a b t)
    → in_list o ≡ some c
    → BothWiden (list a) (list b) c
unfolding BothWiden
inner-Widens a b c none f h = absurd (none_not_some h)
inner-Widens a b c (some t) f h = both_widen (list a) (list b) c (list t) (f t refl) h

item_type_lem : (b t : DataType) → item_type b ≡ some t → b ≡ list t
item_type_lem (list b) t h = cc
item_type_lem _ t h = absurd (none_not_some h)

items-Widens :
    (a b t c : DataType) (d : Dec (list a ≡ b))
    → b ≡ list t
    → ((e : DataType) → common_type a t ≡ some e → BothWiden a t e)
    → same_or d (some (list a)) (in_list (common_type a t)) ≡ some c
    → BothWiden (list a) b c
items-Widens a b t c (yes same) e f h = plain-Widens (list a) b c (yes same) h
items-Widens a b t c (no differ) e f h =
    subst (λ b. BothWiden (list a) b c) (sym e) (inner-Widens a t c (common_type a t) f h)

list-Widens :
    (a b c : DataType)
    → ((t d : DataType) → common_type a t ≡ some d → BothWiden a t d)
    → common_type (list a) b ≡ some c
    → BothWiden (list a) b c
unfolding common_type
list-Widens a b c f h = elim (Option-cases (item_type b)) [
  | inl plain ↦ plain-Widens (list a) b c (DataType-discrete (list a) b) (rw plain at h)
  | inr (t, is_list) ↦
      items-Widens a b t c (DataType-discrete (list a) b) (item_type_lem b t is_list) (f t)
        (rw is_list at h)
]

-- When two types have a common type, both widen to it.
pub common_type-Widens : (a b c : DataType) → common_type a b ≡ some c → Widens a c × Widens b c
unfolding common_type BothWiden
common_type-Widens (list a) b c h = list-Widens a b c (common_type-Widens a) h
common_type-Widens a b c h = plain-Widens a b c (DataType-discrete a b) h
