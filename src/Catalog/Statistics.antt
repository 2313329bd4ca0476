-- ===== src/Catalog/Statistics.antt =====
-- `RelationStatistics` of crates/queryfabric-catalog/src/model.rs, as the metadata of a schema gives it.
use Prim.Native.Char.{code}
use queryfabric.Base.{
  Bool, List, Option, String, [], if◌then◌else◌, leb, lookup, ltb, nat_beq, none, some, string_eq,
  ℕ, ◌&&◌, ◌*◌, ◌+◌, ◌-◌, ◌^◌, ◌∷◌,
}
use queryfabric.Catalog.Model.{RelationSchema}

pub record RelationStatistics : Type 0 where
  pub relation : String
  pub estimated_rows : ℕ
  pub average_row_bytes : ℕ
  pub shard_count : Option ℕ

abbrev pub characters : String → List ℕ
characters String.[] = []
characters (String.◌∷◌ c s) = code c ∷ characters s

abbrev pub is_digit : ℕ → Bool
is_digit c = leb 48 c && leb c 57

abbrev pub parse_digits : ℕ → ℕ → List ℕ → Option ℕ
parse_digits bound n [] = some n
parse_digits bound n (c ∷ cs) =
    let next = n * 10 + (c - 48) in
    let rest = parse_digits bound next cs in if is_digit c && ltb next bound then rest else none

abbrev pub parse_unsigned : ℕ → List ℕ → Option ℕ
parse_unsigned bound [] = none
parse_unsigned bound (c ∷ cs) = parse_digits bound 0 (c ∷ cs)

-- `str::parse` of an unsigned integer below the bound: a sign `+` may stand before the digits.
unfoldable pub parse_number : ℕ → List ℕ → Option ℕ
parse_number bound [] = none
parse_number bound (c ∷ cs) =
    if nat_beq c 43 then parse_unsigned bound cs else parse_unsigned bound (c ∷ cs)

-- `keys.iter().find_map(|key| metadata.get(*key))`
abbrev pub first_value : List String → List (String × String) → Option String
first_value [] metadata = none
first_value (key ∷ keys) metadata = elim (lookup key metadata) [
  | some value ↦ some value
  | none ↦ first_value keys metadata
]

abbrev pub parse_value : ℕ → Option String → Option ℕ
parse_value bound none = none
parse_value bound (some value) = parse_number bound (characters value)

unfoldable pub metadata_u64 : List (String × String) → List String → Option ℕ
unfolding parse_number
metadata_u64 metadata keys = parse_value (2 ^ 64) (first_value keys metadata)

unfoldable pub metadata_u32 : List (String × String) → List String → Option ℕ
unfolding parse_number
metadata_u32 metadata keys = parse_value (2 ^ 32) (first_value keys metadata)

abbrev pub or_number : Option ℕ → ℕ → ℕ
or_number none default = default
or_number (some n) default = n

unfoldable pub relation_statistics_from_schema : RelationSchema → Option RelationStatistics
unfolding metadata_u64 metadata_u32
relation_statistics_from_schema schema =
    elim (metadata_u64 schema.metadata ("estimated_rows" ∷ "row_count" ∷ "rows" ∷ [])) [
      | none ↦ none
      | some rows ↦ some (record {
        relation = schema.name;
        estimated_rows = rows;
        average_row_bytes =
            or_number
              (metadata_u64 schema.metadata
                ("average_row_bytes" ∷ "avg_row_bytes" ∷ "row_bytes" ∷ []))
              64;
        shard_count = metadata_u32 schema.metadata ("shard_count" ∷ "shards" ∷ []);
      })
    ]
