-- ===== src/InstanceKey/RoundTrip.antt =====
-- Tokens of backend/ontology_platform/instance_key.py stand for exactly one key.
use aletheia_onto.Base.{
  ℕ, suc, ◌≤◌, ◌≡◌, refl, ap, sym, ◌∙◌, Bool, true, false, not, Option, List, [], ◌∷◌, ◌++◌, map,
  arith, All, keep, length, ◌==◌, ok,
}
use aletheia_onto.InstanceKey.Strings.{
  Str, is_empty, contains_char, contains_char-append, split, join, split-join,
}
use aletheia_onto.InstanceKey.{
  InstanceKey, pair_separator, value_separator, zip, encoded_pair, make_key, token, from_pairs,
  from_parts, from_token, parse_key_columns,
}
use aletheia_onto.InstanceKey.Readings.{
  parse_key_columns-positive, make_key_ok, from_token_one, from_token_many, from_parts_marked,
  token_many,
}
use aletheia_onto.InstanceKey.Pairs.{DistinctColumns, assign_all_lem, parse_pairs-encoded_pair}

-- What urllib's `quote` with no safe character and `unquote` are relied on for.
pub record IsPercentCoding (quote : Str → Str) (unquote : Str → Str) : Type 0 where
  pub inverse : (s : Str) → unquote (quote s) ≡ s
  pub no_pair_separator : (s : Str) → contains_char pair_separator (quote s) ≡ false
  pub no_value_separator : (s : Str) → contains_char value_separator (quote s) ≡ false

-- A key that the constructor accepts, over the columns of a primary key that names none twice.
abbrev pub IsKeyOf : List Str → InstanceKey → Type 0
IsKeyOf columns key =
    (key.columns ≡ columns) × (length columns ≡ length key.values) × DistinctColumns columns

module _ {quote : Str → Str} {unquote : Str → Str} (coding : IsPercentCoding quote unquote) where
  encoded_pair-free : (c v : Str) → contains_char pair_separator (encoded_pair quote (c, v)) ≡ false
  encoded_pair-free c v =
      contains_char-append pair_separator (quote c) (value_separator ∷ quote v)
      ∙ ground (arith, coding.no_pair_separator c, coding.no_pair_separator v)

  encoded_pair-value :
      (c v : Str)
      → (contains_char value_separator (encoded_pair quote (c, v)) ≡ true)
        × (is_empty (encoded_pair quote (c, v)) ≡ false)
  encoded_pair-value c v = (
    contains_char-append value_separator (quote c) (value_separator ∷ quote v)
        ∙ ground (arith, coding.no_value_separator c),
    not_empty (quote c) (quote v),
  )
    where
      not_empty : (s t : Str) → is_empty (s ++ value_separator ∷ t) ≡ false
      not_empty [] t = refl
      not_empty (x ∷ s) t = refl

  all_free :
      (cs vs : List Str)
      → All (λ t. contains_char pair_separator t ≡ false) (map (encoded_pair quote) (zip cs vs))
  unfolding zip
  all_free [] vs = tt
  all_free (c ∷ cs) [] = tt
  all_free (c ∷ cs) (v ∷ vs) = (encoded_pair-free c v, all_free cs vs)

  keep-encoded :
      (cs vs : List Str)
      → keep (λ part. not (is_empty part)) (map (encoded_pair quote) (zip cs vs))
        ≡ map (encoded_pair quote) (zip cs vs)
  unfolding zip
  keep-encoded [] vs = refl
  keep-encoded (c ∷ cs) [] = refl
  keep-encoded (c ∷ cs) (v ∷ vs) =
      let (marked, full) = encoded_pair-value c v in
      rw full (ap (λ rest. encoded_pair quote (c, v) ∷ rest) (keep-encoded cs vs))

  from_pairs-encoded :
      (cs vs : List Str)
      → 1 ≤ length cs
      → length cs ≡ length vs
      → DistinctColumns cs
      → from_pairs unquote cs (map (encoded_pair quote) (zip cs vs))
        ≡ ok (record { columns = cs; values = vs })
  unfolding from_pairs
  from_pairs-encoded cs vs pos e h =
      let (no_missing, no_unexpected, values) = assign_all_lem cs vs e h in
      rw
        (
          parse_pairs-encoded_pair quote unquote coding.inverse coding.no_value_separator cs vs [],
          no_missing,
          no_unexpected,
          values,
        )
        (make_key_ok cs vs pos e)

  from_parts-encoded :
      (c v : Str) (cs vs : List Str)
      → length cs ≡ length vs
      → DistinctColumns (c ∷ cs)
      → from_parts unquote (c ∷ cs) (map (encoded_pair quote) (zip (c ∷ cs) (v ∷ vs)))
        ≡ ok (record { columns = c ∷ cs; values = v ∷ vs })
  unfolding from_parts zip
  from_parts-encoded c v cs vs e h =
      let (marked, full) = encoded_pair-value c v in
      let pairs = from_pairs-encoded (c ∷ cs) (v ∷ vs) (omega arith) (ap suc e) h in
      let parts = map (encoded_pair quote) (zip (c ∷ cs) (v ∷ vs)) in
      from_parts_marked unquote (c ∷ cs) parts (omega arith) (rw marked refl) ∙ pairs

  -- The text of a composite key, split again.
  split-token :
      (c v : Str) (cs vs : List Str)
      → keep
          (λ part. not (is_empty part))
          (split pair_separator
            (join pair_separator (map (encoded_pair quote) (zip (c ∷ cs) (v ∷ vs)))))
        ≡ map (encoded_pair quote) (zip (c ∷ cs) (v ∷ vs))
  unfolding zip
  split-token c v cs vs =
      ap (keep (λ part. not (is_empty part))) (
        split-join pair_separator (encoded_pair quote (c, v)) (map (encoded_pair quote) (zip cs vs))
          (all_free (c ∷ cs) (v ∷ vs)))
      ∙ keep-encoded (c ∷ cs) (v ∷ vs)

  single :
      (c v : Str)
      → make_key (c ∷ []) (token quote (record { columns = c ∷ []; values = v ∷ [] }) ∷ [])
        ≡ ok (record { columns = c ∷ []; values = v ∷ [] })
  unfolding token
  single c v = make_key_ok (c ∷ []) (v ∷ []) (omega arith) refl

  token_columns :
      (is_space : ℕ → Bool) (primary_key : Option Str) (cs vs : List Str)
      → parse_key_columns is_space primary_key ≡ cs
      → 1 ≤ length cs
      → length cs ≡ length vs
      → DistinctColumns cs
      → from_token is_space unquote primary_key (token quote (record { columns = cs; values = vs }))
        ≡ ok (record { columns = cs; values = vs })
  token_columns is_space primary_key [] vs e pos same h = absurd (omega arith)
  token_columns is_space primary_key (c ∷ cs) [] e pos same h = absurd (ground (arith, same))
  token_columns is_space primary_key (c ∷ []) (v ∷ []) e pos same h =
      from_token_one unquote is_space primary_key _ (ap (λ cs. length cs == 1) e)
      ∙ (ap (λ cs. make_key cs (token quote (record { columns = c ∷ []; values = v ∷ [] }) ∷ [])) e
          ∙ single c v)
  token_columns is_space primary_key (c ∷ []) (v ∷ w ∷ vs) e pos same h =
      absurd (ground (arith, same))
  token_columns is_space primary_key (c ∷ d ∷ cs) (v ∷ vs) e pos same h =
      from_token_many unquote is_space primary_key _ (ap (λ cs. length cs == 1) e ∙ ground arith)
      ∙ (ap
            (λ columns. from_parts unquote columns (
              keep (λ part. not (is_empty part))
                (split pair_separator
                  (token quote (record { columns = c ∷ d ∷ cs; values = v ∷ vs })))))
            e
          ∙ (ap
                (λ text.
                  from_parts unquote (c ∷ d ∷ cs)
                    (keep (λ part. not (is_empty part)) (split pair_separator text)))
                (token_many quote (c ∷ d ∷ cs) (v ∷ vs) (ground arith))
              ∙ (ap (from_parts unquote (c ∷ d ∷ cs)) (split-token c v (d ∷ cs) vs)
                  ∙ from_parts-encoded c v (d ∷ cs) vs (ground (arith, same)) h)))

  module _ (is_space : ℕ → Bool) (primary_key : Option Str) where
    -- If urllib's two functions are inverse and the encoding leaves none of the two separators,
    -- then the token of a key over the columns of a primary key, which names no column twice, is
    -- read back as that key: with one column and with several, whatever its values contain.
    pub from_token-token :
        (key : InstanceKey)
        → IsKeyOf (parse_key_columns is_space primary_key) key
        → from_token is_space unquote primary_key (token quote key) ≡ ok key
    from_token-token key (columns, same, distinct) =
        ap
          (λ cs.
            from_token is_space unquote primary_key
              (token quote (record { columns = cs; values = key.values })))
          columns
        ∙ (token_columns is_space primary_key (parse_key_columns is_space primary_key) key.values
              refl (parse_key_columns-positive is_space primary_key) same distinct
            ∙ ap (λ cs. ok (record { columns = cs; values = key.values })) (sym columns))

    -- Under the same conditions two keys of one primary key that have the same token are the
    -- same key.
    pub token-injective :
        (key other : InstanceKey)
        → IsKeyOf (parse_key_columns is_space primary_key) key
        → IsKeyOf (parse_key_columns is_space primary_key) other
        → token quote key ≡ token quote other
        → key ≡ other
    token-injective key other k o same =
        let there = from_token-token key k in
        let here = from_token-token other o in
        let equal : ok key ≡ ok other =
          sym there ∙ (ap (from_token is_space unquote primary_key) same ∙ here) in
        ground (arith, equal)
