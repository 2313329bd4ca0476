-- ===== src/Base/Ascii.antt =====
-- The methods of Rust's `str` that the program uses on identifiers: `to_ascii_lowercase`,
-- `eq_ignore_ascii_case`, and `replace` of a dot by an underscore. A text in lower case is held as
-- the list of its code points.
use Prim.Native.Char.{char, code}
use Prim.Native.String.{String}
use Prim.Native.Nat.{ℕ, suc, ◌+◌}
use mathlib.Core.Path.{◌≡◌, refl}
use mathlib.Core.Bool.{Bool, true, false, ◌&&◌}
use mathlib.Core.Logic.{◌↔◌}
use mathlib.Core.List.{List, [], ◌∷◌}
use native.Mathlib.Omega.{arith}
use queryfabric.Base.Tests.{Key, if◌then◌else◌, leb, nat_beq, nat_beq_iff}

-- `u8::to_ascii_lowercase`
abbrev pub lower_code : ℕ → ℕ
lower_code c = if leb 65 c && leb c 90 then c + 32 else c

abbrev pub to_ascii_lowercase : String → List ℕ
to_ascii_lowercase String.[] = []
to_ascii_lowercase (String.◌∷◌ c s) = lower_code (code c) ∷ to_ascii_lowercase s

abbrev pub same_codes : List ℕ → List ℕ → Bool
same_codes [] [] = true
same_codes [] (d ∷ ds) = false
same_codes (c ∷ cs) [] = false
same_codes (c ∷ cs) (d ∷ ds) = nat_beq c d && same_codes cs ds

pub same_codes_iff : (cs ds : List ℕ) → (same_codes cs ds ≡ true) ↔ (cs ≡ ds)
same_codes_iff [] [] = (λ h. refl, λ h. refl)
same_codes_iff [] (d ∷ ds) = (λ h. cc, λ h. cc)
same_codes_iff (c ∷ cs) [] = (λ h. cc, λ h. cc)
same_codes_iff (c ∷ cs) (d ∷ ds) = ground (arith, nat_beq_iff c d, same_codes_iff cs ds)

instance abbrev pub codes_eq : Key (List ℕ)
codes_eq = record { same = same_codes; same_iff = same_codes_iff }

unfoldable pub eq_ignore_ascii_case : String → String → Bool
eq_ignore_ascii_case s t = same_codes (to_ascii_lowercase s) (to_ascii_lowercase t)

-- The comparison is that of the texts in lower case.
pub eq_ignore_ascii_case_iff :
    (s t : String)
    → (eq_ignore_ascii_case s t ≡ true) ↔ (to_ascii_lowercase s ≡ to_ascii_lowercase t)
unfolding eq_ignore_ascii_case
eq_ignore_ascii_case_iff s t = same_codes_iff (to_ascii_lowercase s) (to_ascii_lowercase t)

-- `text.replace('.', "_")`
unfoldable pub replace_dots : String → String
replace_dots String.[] = String.[]
replace_dots (String.◌∷◌ c s) =
    let rest = replace_dots s in
    if nat_beq (code c) 46 then String.◌∷◌ (char 95 tt) rest else String.◌∷◌ c rest

-- `text.chars().count()`
abbrev pub char_count : String → ℕ
char_count String.[] = 0
char_count (String.◌∷◌ c s) = suc (char_count s)
