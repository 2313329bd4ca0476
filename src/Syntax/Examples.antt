-- ===== src/Syntax/Examples.antt =====
-- The union of spans on concrete ones.
use queryfabric.Syntax.Span.{QuerySourceSpan, Within, union, union_least}
use queryfabric.Base.{refl, ◌↔◌, ◌≡◌}
use queryfabric.Syntax.Types.{float64, int32, list}
use queryfabric.Syntax.Common.{common_type}
use queryfabric.Syntax.Widening.{Widens, common_type-Widens}

abbrev first_span : QuerySourceSpan
first_span = record { offset = 3; len = 4 }

abbrev second_span : QuerySourceSpan
second_span = record { offset = 5; len = 9 }

union_test : union first_span second_span ≡ record { offset = 3; len = 11 }
unfolding union
union_test = refl

union_least_example :
    (Within first_span (union first_span second_span)
      × Within second_span (union first_span second_span))
    × (Within (union first_span second_span) first_span
        ↔ (Within first_span first_span × Within second_span first_span))
union_least_example = union_least first_span second_span first_span

common_type-Widens_example :
    Widens (list int32) (list float64) × Widens (list float64) (list float64)
unfolding common_type
common_type-Widens_example = common_type-Widens (list int32) (list float64) (list float64) refl
