-- ===== src/Syntax/Span.antt =====
-- `QuerySourceSpan` of crates/queryfabric-ir/src/diagnostics.rs. Offsets are byte offsets into one
-- input, so `offset + len` stays below 2 ^ 64.
use Prim.Native.String.{len as byte_len}
use queryfabric.Base.{String, arith, max, min, ℕ, ◌+◌, ◌-◌, ◌↔◌, ◌≤◌}

pub record QuerySourceSpan : Type 0 where
  pub offset : ℕ
  pub len : ℕ

unfoldable pub whole : String → QuerySourceSpan
whole input = record { offset = 0; len = byte_len input }

unfoldable pub end : QuerySourceSpan → ℕ
end span = span.offset + span.len

unfoldable pub union : QuerySourceSpan → QuerySourceSpan → QuerySourceSpan
unfolding end
union a b =
    let start = min a.offset b.offset in
    let stop = max (end a) (end b) in record { offset = start; len = stop - start }

-- The bytes of one span are bytes of another.
abbrev pub Within : QuerySourceSpan → QuerySourceSpan → Type 0
Within a b = (b.offset ≤ a.offset) × (end a ≤ end b)

-- The union of two spans contains both, and lies within a span exactly when both do.
pub union_least :
    (a b c : QuerySourceSpan)
    → (Within a (union a b) × Within b (union a b))
      × (Within (union a b) c ↔ (Within a c × Within b c))
unfolding union
union_least a b c = (ground arith, (λ h. ground arith, λ h. ground arith))
