-- ===== src/Tests/Keys.antt =====
-- Examples for backend/ontology_platform/instance_key.py.
use aletheia_onto.Base.{
  ℕ, ◌+◌, ◌-◌, ◌≡◌, refl, Bool, false, some, List, [], ◌∷◌, map, arith, ◌==◌, ok,
}
use aletheia_onto.InstanceKey.Strings.{Str, contains_char, split, eq_str, contains_str}
use aletheia_onto.InstanceKey.{
  InstanceKey, pair_separator, value_separator, parse_key_columns, token, from_token, from_parts,
  from_positions, make_key,
}
use aletheia_onto.InstanceKey.RoundTrip.{
  IsPercentCoding, IsKeyOf, from_token-token, token-injective,
}

-- A coding in place of the percent encoding: it moves every character behind the separators.
abbrev moved : Str → Str
moved = map (λ c. c + 100)

abbrev moved_back : Str → Str
moved_back = map (λ c. c - 100)

moved_inverse : (s : Str) → moved_back (moved s) ≡ s
moved_inverse [] = refl
moved_inverse (c ∷ s) = ground (arith, moved_inverse s)

moved_free : (sep : ℕ) (s : Str) → (sep - 99 ≡ 0) → contains_char sep (moved s) ≡ false
moved_free sep [] h = refl
moved_free sep (c ∷ s) h = ground (arith, moved_free sep s h)

moved-IsPercentCoding : IsPercentCoding moved moved_back
moved-IsPercentCoding = record {
  inverse = moved_inverse;
  no_pair_separator = λ s. moved_free pair_separator s refl;
  no_value_separator = λ s. moved_free value_separator s refl;
}

abbrev is_blank : ℕ → Bool
is_blank c = c == b' '

-- `a, b`
abbrev two_columns : Str
two_columns = b'a' ∷ b',' ∷ b' ' ∷ b'b' ∷ []

abbrev a_and_b : List Str
a_and_b = (b'a' ∷ []) ∷ (b'b' ∷ []) ∷ []

two_columns_parsed : parse_key_columns is_blank (some two_columns) ≡ a_and_b
unfolding parse_key_columns split
two_columns_parsed = refl

-- The values contain both separators.
abbrev hard_key : InstanceKey
hard_key = record { columns = a_and_b; values = (b';' ∷ b'=' ∷ []) ∷ [] ∷ [] }

abbrev other_key : InstanceKey
other_key = record { columns = a_and_b; values = [] ∷ (b';' ∷ b'=' ∷ []) ∷ [] }

hard_key-IsKeyOf : IsKeyOf (parse_key_columns is_blank (some two_columns)) hard_key
unfolding parse_key_columns split contains_str eq_str
hard_key-IsKeyOf = (refl, refl, (refl, (refl, tt)))

from_token-token_example :
    from_token is_blank moved_back (some two_columns) (token moved hard_key) ≡ ok hard_key
from_token-token_example =
    from_token-token moved-IsPercentCoding is_blank (some two_columns) hard_key hard_key-IsKeyOf

token-injective_example : hard_key ≡ hard_key
token-injective_example =
    token-injective moved-IsPercentCoding is_blank (some two_columns) hard_key hard_key
      hard_key-IsKeyOf hard_key-IsKeyOf refl

-- `1;2`
abbrev two_values : Str
two_values = b'1' ∷ b';' ∷ b'2' ∷ []

-- The values alone.
positions_read :
    from_token is_blank (λ s. s) (some two_columns) two_values
    ≡ ok (record { columns = a_and_b; values = (b'1' ∷ []) ∷ (b'2' ∷ []) ∷ [] })
unfolding from_token from_parts from_positions parse_key_columns split make_key
positions_read = refl
