-- ===== src/InstanceKey.antt =====
-- Instance keys: backend/ontology_platform/instance_key.py. A text is the list of its code points.
-- What counts as white space and the two functions of urllib are parameters; a value stands for
-- its `str`.
pub mod Strings
pub mod Pairs
pub mod Readings
pub mod RoundTrip
use aletheia_onto.Base.{
  ℕ, Bool, true, false, not, Option, none, some, List, [], ◌∷◌, ◌++◌, map, any, keep, ◌==◌, ltb,
  if◌then◌else◌, length, Result, ok, err, ◌>>=◌, ◌>>◌, raise_if, or_raise,
}
use aletheia_onto.InstanceKey.Strings.{
  Str, eq_str, is_empty, contains_char, contains_str, strip, split, split_once, join,
}

pub record InstanceKey : Type 0 where
  pub columns : List Str
  pub values : List Str

-- The reasons for an `InstanceKeyError`.
pub data KeyError : Type 0 where
  no_columns wrong_arity empty_token wrong_count bad_pair : KeyError
  missing unexpected : List Str → KeyError

abbrev pub pair_separator : ℕ
pair_separator = b';'

abbrev pub value_separator : ℕ
value_separator = b'='

abbrev pub column_separator : ℕ
column_separator = b','

-- `("id",)`
abbrev pub id_column : List Str
id_column = (b'i' ∷ b'd' ∷ []) ∷ []

abbrev pub or_id : List Str → List Str
or_id [] = id_column
or_id (c ∷ cs) = c ∷ cs

unfoldable pub parse_key_columns : (ℕ → Bool) → Option Str → List Str
parse_key_columns is_space none = id_column
parse_key_columns is_space (some primary_key) =
    let raw = strip is_space primary_key in
    if is_empty raw
    then id_column
    else or_id
        (keep (λ part. not (is_empty part)) (map (strip is_space) (split column_separator raw)))

unfoldable pub is_composite : (ℕ → Bool) → Option Str → Bool
unfolding parse_key_columns
is_composite is_space primary_key = ltb 1 (length (parse_key_columns is_space primary_key))

-- `__post_init__`
unfoldable pub make_key : List Str → List Str → Result KeyError InstanceKey
make_key columns values = do
  raise_if (length columns == 0) no_columns
  raise_if (not (length columns == length values)) wrong_arity
  ok (record { columns = columns; values = values })

abbrev pub composite : InstanceKey → Bool
composite key = ltb 1 (length key.columns)

unfoldable pub zip : List Str → List Str → List (Str × Str)
zip [] values = []
zip (c ∷ columns) [] = []
zip (c ∷ columns) (v ∷ values) = (c, v) ∷ zip columns values

-- `f"{_encode(column)}={_encode(str(value))}"`
abbrev pub encoded_pair : (Str → Str) → Str × Str → Str
encoded_pair quote (column, value) = quote column ++ value_separator ∷ quote value

abbrev pub first_value : List Str → Str
first_value [] = []
first_value (v ∷ values) = v

unfoldable pub token : (Str → Str) → InstanceKey → Str
unfolding zip
token quote key =
    if composite key
    then join pair_separator (map (encoded_pair quote) (zip key.columns key.values))
    else first_value key.values

abbrev pub Mapping : Type 0
Mapping = List (Str × Str)

unfoldable pub value_of : Str → Mapping → Option Str
value_of k [] = none
value_of k ((j, v) ∷ d) = if eq_str k j then some v else value_of k d

-- `mapping[k] = v`
unfoldable pub assign : Str → Str → Mapping → Mapping
assign k v [] = (k, v) ∷ []
assign k v ((j, w) ∷ d) = if eq_str k j then (j, v) ∷ d else (j, w) ∷ assign k v d

-- The loop over the parts.
unfoldable pub parse_pairs : (Str → Str) → List Str → Mapping → Result KeyError Mapping
unfolding assign
parse_pairs unquote [] d = ok d
parse_pairs unquote (part ∷ parts) d = do
  pieces ← or_raise (split_once value_separator part) bad_pair
  parse_pairs unquote parts (assign (unquote pieces.0) (unquote pieces.1) d)

unfoldable pub is_in : Mapping → Str → Bool
unfolding value_of
is_in d c = elim (value_of c d) [ none ↦ false | some v ↦ true ]

-- `mapping[c]`; no column is missing where it is read.
unfoldable pub value_at : Mapping → Str → Str
unfolding value_of
value_at d c = elim (value_of c d) [ none ↦ [] | some v ↦ v ]

abbrev pub raise_missing : List Str → Result KeyError (Unit {0})
raise_missing [] = ok tt
raise_missing (c ∷ cs) = err (missing (c ∷ cs))

abbrev pub raise_unexpected : List Str → Result KeyError (Unit {0})
raise_unexpected [] = ok tt
raise_unexpected (c ∷ cs) = err (unexpected (c ∷ cs))

-- The form `column=value;column=value`.
unfoldable pub from_pairs : (Str → Str) → List Str → List Str → Result KeyError InstanceKey
unfolding parse_pairs is_in value_at make_key
from_pairs unquote columns parts = do
  mapping ← parse_pairs unquote parts []
  raise_missing (keep (λ c. not (is_in mapping c)) columns)
  raise_unexpected (keep (λ name. not (contains_str name columns)) (map (λ entry. entry.0) mapping))
  make_key columns (map (value_at mapping) columns)

-- The form with the values alone, in the order of the columns.
unfoldable pub from_positions : (Str → Str) → List Str → List Str → Result KeyError InstanceKey
unfolding make_key
from_positions unquote columns parts = do
  raise_if (not (length parts == length columns)) wrong_count
  make_key columns (map unquote parts)

unfoldable pub from_parts : (Str → Str) → List Str → List Str → Result KeyError InstanceKey
unfolding from_pairs from_positions
from_parts unquote columns parts = do
  raise_if (length parts == 0) empty_token
  (if any (contains_char value_separator) parts
      then from_pairs unquote columns parts
      else from_positions unquote columns parts)

unfoldable pub from_token :
    (ℕ → Bool) → (Str → Str) → Option Str → Str → Result KeyError InstanceKey
unfolding parse_key_columns make_key from_parts
from_token is_space unquote primary_key text =
    let columns = parse_key_columns is_space primary_key in
    if length columns == 1
    then make_key columns (text ∷ [])
    else from_parts unquote columns (keep (λ part. not (is_empty part)) (split pair_separator text))

-- `Row` is the fetched row: a column it does not have is `none`.
unfoldable pub present : (Str → Option Str) → Str → Bool
present row c = elim (row c) [ none ↦ false | some v ↦ true ]

unfoldable pub column_value : (Str → Option Str) → Str → Str
column_value row c = elim (row c) [ none ↦ [] | some v ↦ v ]

unfoldable pub from_row : (ℕ → Bool) → Option Str → (Str → Option Str) → Result KeyError InstanceKey
unfolding parse_key_columns make_key present column_value
from_row is_space primary_key row = do
  raise_missing (keep (λ c. not (present row c)) (parse_key_columns is_space primary_key))
  make_key (parse_key_columns is_space primary_key)
      (map (column_value row) (parse_key_columns is_space primary_key))

unfoldable pub from_values : (ℕ → Bool) → Option Str → List Str → Result KeyError InstanceKey
unfolding parse_key_columns make_key
from_values is_space primary_key values = make_key (parse_key_columns is_space primary_key) values

-- `" and "`
abbrev pub and_word : Str
and_word = b' ' ∷ b'a' ∷ b'n' ∷ b'd' ∷ b' ' ∷ []

-- `sep.join(parts)` for a longer separator.
unfoldable pub join_with : Str → List Str → Str
join_with sep [] = []
join_with sep (s ∷ []) = s
join_with sep (s ∷ t ∷ rest) = s ++ sep ++ join_with sep (t ∷ rest)

unfoldable pub where_clause : (Str → Str) → Str → InstanceKey → Str × List Str
unfolding join_with
where_clause quote placeholder key = (
  join_with and_word (map (λ c. quote c ++ b' ' ∷ b'=' ∷ b' ' ∷ placeholder) key.columns),
  key.values,
)
