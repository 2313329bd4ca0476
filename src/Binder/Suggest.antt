-- ===== src/Binder/Suggest.antt =====
-- crates/queryfabric-catalog/src/bind/suggest.rs: names close to one that is not found. `char::to_lowercase`
-- is the standard library's table of letters: the characters of a text in lower case are a parameter.
use Prim.Native.String.{len as byte_len}
use queryfabric.Base.{
  Bool, List, String, [], if◌then◌else◌, leb, length, ltb, max, min, nat_beq, suc, true, zero, ℕ,
  ◌&&◌, ◌+◌, ◌/◌, ◌∷◌,
}
use queryfabric.Base.Ascii.{char_count}

-- One row of the table after the row precedes: `row` is the rest of `prev` from its column `j - 1` on,
-- `left` is `curr[j - 1]`.
abbrev pub next_cells : ℕ → ℕ → ℕ → List ℕ → List ℕ → List ℕ
next_cells c diagonal left [] row = []
next_cells c diagonal left (d ∷ ds) [] = []
next_cells c diagonal left (d ∷ ds) (up ∷ row) =
    let cell = min (min (suc up) (suc left)) (diagonal + (if nat_beq c d then 0 else 1)) in
    cell ∷ next_cells c up cell ds row

-- `curr[0] = i`, and the loop over the columns.
abbrev pub next_row : ℕ → ℕ → List ℕ → List ℕ → List ℕ
next_row i c b [] = []
next_row i c b (first ∷ row) = i ∷ next_cells c first i b row

abbrev pub all_rows : ℕ → List ℕ → List ℕ → List ℕ → List ℕ
all_rows i [] b prev = prev
all_rows i (c ∷ cs) b prev = all_rows (suc i) cs b (next_row i c b prev)

abbrev pub count_from : ℕ → List ℕ → List ℕ
count_from n [] = n ∷ []
count_from n (d ∷ ds) = n ∷ count_from (suc n) ds

abbrev pub last_of : ℕ → List ℕ → ℕ
last_of default [] = default
last_of default (n ∷ ns) = last_of n ns

unfoldable pub levenshtein : List ℕ → List ℕ → ℕ
levenshtein [] b = length b
levenshtein (c ∷ cs) [] = suc (length cs)
levenshtein (c ∷ cs) (d ∷ ds) = last_of 0 (all_rows 1 (c ∷ cs) (d ∷ ds) (count_from 0 (d ∷ ds)))

-- The order of `(distance, option.len())`.
abbrev pub precedes : ℕ × String → ℕ × String → Bool
precedes (m, s) (n, t) = if ltb m n then true else (nat_beq m n && leb (byte_len s) (byte_len t))

-- A stable sort.
abbrev pub insert_scored : ℕ × String → List (ℕ × String) → List (ℕ × String)
insert_scored scored [] = scored ∷ []
insert_scored scored (other ∷ others) =
    let later = insert_scored scored others in
    if precedes scored other then scored ∷ other ∷ others else other ∷ later

abbrev pub sort_scored : List (ℕ × String) → List (ℕ × String)
sort_scored [] = []
sort_scored (scored ∷ others) = insert_scored scored (sort_scored others)

abbrev pub take_names : ℕ → List (ℕ × String) → List String
take_names zero scored = []
take_names (suc n) [] = []
take_names (suc n) ((distance, name) ∷ others) = name ∷ take_names n others

module _ (to_lowercase : String → List ℕ) where
  abbrev pub scored_within : ℕ → String → List String → List (ℕ × String)
  scored_within threshold query [] = []
  scored_within threshold query (option ∷ options) =
      let distance = levenshtein (to_lowercase query) (to_lowercase option) in
      let later = scored_within threshold query options in
      if leb distance threshold then (distance, option) ∷ later else later

  -- `query.chars().count()` counts the characters precedes they are put in lower case.
  unfoldable pub top_similar : String → List String → ℕ → List String
  unfolding levenshtein
  top_similar query options most =
      take_names most (sort_scored (scored_within (max (char_count query / 3) 2) query options))
