-- ===== src/InstanceKey/Readings.antt =====
-- The branches of the readings of backend/ontology_platform/instance_key.py, and what they return.
use aletheia_onto.Base.{
  ℕ, ◌≤◌, ◌≡◌, refl, sym, ◌∙◌, Bool, true, false, not, Option, some, none, List, [], ◌∷◌, map,
  arith, any, keep, length, ◌==◌, ltb, Bool-cases, inl, inr, ok, Result, ◌>>=◌, bind_returned,
  raise_if_returned,
}
use aletheia_onto.InstanceKey.Strings.{Str, is_empty, contains_char, split, join, strip}
use aletheia_onto.InstanceKey.{
  InstanceKey, KeyError, pair_separator, value_separator, zip, encoded_pair, parse_pairs, value_at,
  raise_missing, raise_unexpected, make_key, token, from_pairs, from_positions, from_parts,
  from_token, parse_key_columns, or_id,
}

-- A primary key always has a column.
pub parse_key_columns-positive :
    (is_space : ℕ → Bool) (primary_key : Option Str)
    → 1 ≤ length (parse_key_columns is_space primary_key)
unfolding parse_key_columns
parse_key_columns-positive is_space none = omega arith
parse_key_columns-positive is_space (some s) = elim (Bool-cases (is_empty (strip is_space s))) [
  | inl e ↦ rw e (omega arith)
  | inr e ↦ rw e (or_id-positive _)
]
  where
    or_id-positive : (cs : List Str) → 1 ≤ length (or_id cs)
    or_id-positive [] = omega arith
    or_id-positive (c ∷ cs) = omega arith

pub make_key_ok :
    (columns values : List Str)
    → 1 ≤ length columns
    → length columns ≡ length values
    → make_key columns values ≡ ok (record { columns = columns; values = values })
unfolding make_key
make_key_ok columns values pos e =
    let some_column : (length columns == 0) ≡ false = ground (arith, pos) in
    let same : (length columns == length values) ≡ true = ground (arith, e) in
    rw (some_column, same) refl

-- The branches of the readings, by their tests.
module _ (unquote : Str → Str) where
  pub from_token_one :
      (is_space : ℕ → Bool) (primary_key : Option Str) (text : Str)
      → (length (parse_key_columns is_space primary_key) == 1) ≡ true
      → from_token is_space unquote primary_key text
        ≡ make_key (parse_key_columns is_space primary_key) (text ∷ [])
  unfolding from_token
  from_token_one is_space primary_key text e = rw e refl

  pub from_token_many :
      (is_space : ℕ → Bool) (primary_key : Option Str) (text : Str)
      → (length (parse_key_columns is_space primary_key) == 1) ≡ false
      → from_token is_space unquote primary_key text
        ≡ from_parts unquote
            (parse_key_columns is_space primary_key)
            (keep (λ part. not (is_empty part)) (split pair_separator text))
  unfolding from_token
  from_token_many is_space primary_key text e = rw e refl

  pub from_parts_marked :
      (columns parts : List Str)
      → 1 ≤ length parts
      → any (contains_char value_separator) parts ≡ true
      → from_parts unquote columns parts ≡ from_pairs unquote columns parts
  unfolding from_parts
  from_parts_marked columns parts pos marked =
      let given : (length parts == 0) ≡ false = ground (arith, pos) in rw (given, marked) refl

pub token_many :
    (quote : Str → Str) (cs vs : List Str)
    → ltb 1 (length cs) ≡ true
    → token quote (record { columns = cs; values = vs })
      ≡ join pair_separator (map (encoded_pair quote) (zip cs vs))
unfolding token
token_many quote cs vs e = rw e refl

-- A key that was made.
make_key_returned :
    (columns values : List Str) (key : InstanceKey)
    → make_key columns values ≡ ok key
    → (key.columns ≡ columns) × (length key.values ≡ length columns)
unfolding make_key
make_key_returned columns values key h =
    let (some_column, h₁) = raise_if_returned (length columns == 0) _ _ key h in
    let (same, h₂) = raise_if_returned (not (length columns == length values)) _ _ key h₁ in
    ground (arith, same, h₂)

raise_missing_returned :
    (cs : List Str) (k : Result KeyError InstanceKey) (key : InstanceKey)
    → (raise_missing cs >>= λ _. k) ≡ ok key
    → k ≡ ok key
raise_missing_returned [] k key h = h
raise_missing_returned (c ∷ cs) k key h = absurd (ground (arith, h))

raise_unexpected_returned :
    (cs : List Str) (k : Result KeyError InstanceKey) (key : InstanceKey)
    → (raise_unexpected cs >>= λ _. k) ≡ ok key
    → k ≡ ok key
raise_unexpected_returned [] k key h = h
raise_unexpected_returned (c ∷ cs) k key h = absurd (ground (arith, h))

from_pairs_returned :
    (unquote : Str → Str) (columns parts : List Str) (key : InstanceKey)
    → from_pairs unquote columns parts ≡ ok key
    → (key.columns ≡ columns) × (length key.values ≡ length columns)
unfolding from_pairs
from_pairs_returned unquote columns parts key h =
    let (mapping, read, h₁) = bind_returned (parse_pairs unquote parts []) _ key h in
    make_key_returned columns (map (value_at mapping) columns) key
      (raise_unexpected_returned _ _ key (raise_missing_returned _ _ key h₁))

from_parts_returned :
    (unquote : Str → Str) (columns parts : List Str) (key : InstanceKey)
    → from_parts unquote columns parts ≡ ok key
    → (key.columns ≡ columns) × (length key.values ≡ length columns)
unfolding from_parts from_positions
from_parts_returned unquote columns parts key h =
    let (given, h₁) = raise_if_returned (length parts == 0) _ _ key h in
    elim (Bool-cases (any (contains_char value_separator) parts)) [
      | inl e ↦ from_pairs_returned unquote columns parts key (rw e at h₁)
      | inr e ↦
          let (count, h₂) =
            raise_if_returned (not (length parts == length columns)) _ _ key (rw e at h₁) in
          make_key_returned columns (map unquote parts) key h₂
    ]

-- Whatever text is sent as a token, a key that it is read as has exactly the columns of the
-- primary key, in their order, and one value for each.
pub from_token_columns :
    (is_space : ℕ → Bool) (unquote : Str → Str) (primary_key : Option Str) (text : Str)
    (key : InstanceKey)
    → from_token is_space unquote primary_key text ≡ ok key
    → (key.columns ≡ parse_key_columns is_space primary_key)
      × (length key.values ≡ length (parse_key_columns is_space primary_key))
from_token_columns is_space unquote primary_key text key h =
    let columns = parse_key_columns is_space primary_key in
    elim (Bool-cases (length columns == 1)) [
      | inl e ↦
          make_key_returned columns (text ∷ []) key
            (sym (from_token_one unquote is_space primary_key text e) ∙ h)
      | inr e ↦
          from_parts_returned unquote columns
            (keep (λ part. not (is_empty part)) (split pair_separator text)) key
            (sym (from_token_many unquote is_space primary_key text e) ∙ h)
    ]
