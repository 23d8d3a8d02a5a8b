-- ===== src/InstanceKey/Pairs.antt =====
-- The dict that backend/ontology_platform/instance_key.py reads from the parts of a token.
use aletheia_onto.Base.{
  ◌≡◌, refl, ap, sym, ◌∙◌, true, false, not, some, List, [], ◌∷◌, map, arith, All, keep, length,
  Bool-cases, inl, inr, ok, keep_none,
}
use aletheia_onto.InstanceKey.Strings.{
  Str, eq_str, eq_str_refl, eq_str→eq, contains_char, contains_str, split_once_front,
}
use aletheia_onto.InstanceKey.{
  Mapping, value_separator, zip, encoded_pair, value_of, assign, parse_pairs, is_in, value_at,
}

-- No column is named twice.
abbrev pub DistinctColumns : List Str → Type 0
DistinctColumns [] = Unit
DistinctColumns (c ∷ cs) = (contains_str c cs ≡ false) × DistinctColumns cs

-- The dict after the assignments of the columns in turn.
unfoldable pub assign_all : List Str → List Str → Mapping → Mapping
assign_all [] vs d = d
assign_all (c ∷ cs) [] d = d
assign_all (c ∷ cs) (v ∷ vs) d = assign_all cs vs (assign c v d)

value_of-assign_self : (k v : Str) (d : Mapping) → value_of k (assign k v d) ≡ some v
unfolding value_of assign
value_of-assign_self k v [] = rw (eq_str_refl k) refl
value_of-assign_self k v ((j, w) ∷ d) = ground (arith, value_of-assign_self k v d)

value_of-assign_ne :
    (k j v : Str) (d : Mapping) → eq_str k j ≡ false → value_of k (assign j v d) ≡ value_of k d
unfolding value_of assign
value_of-assign_ne k j v [] h = rw h refl
value_of-assign_ne k j v ((i, w) ∷ d) h = elim (Bool-cases (eq_str j i)) [
  | inl e ↦
      let out : eq_str k i ≡ false = ap (λ x. eq_str k x) (sym (eq_str→eq j i e)) ∙ h in
      rw (e, out) refl
  | inr e ↦ rw e (ground (arith, value_of-assign_ne k j v d h))
]

value_of-assign_all_absent :
    (k : Str) (cs vs : List Str) (d : Mapping)
    → contains_str k cs ≡ false
    → value_of k (assign_all cs vs d) ≡ value_of k d
unfolding assign_all contains_str
value_of-assign_all_absent k [] vs d h = refl
value_of-assign_all_absent k (c ∷ cs) [] d h = refl
value_of-assign_all_absent k (c ∷ cs) (v ∷ vs) d h =
    let here : eq_str k c ≡ false = ground (arith, h) in
    value_of-assign_all_absent k cs vs (assign c v d) (rw here at h)
    ∙ value_of-assign_ne k c v d here

-- Each column has the value of its place.
abbrev Holds : Mapping → List Str → List Str → Type 0
Holds d [] vs = Unit
Holds d (c ∷ cs) [] = Unit
Holds d (c ∷ cs) (v ∷ vs) = (value_of c d ≡ some v) × Holds d cs vs

assign_all-Holds :
    (cs vs : List Str) (d : Mapping) → DistinctColumns cs → Holds (assign_all cs vs d) cs vs
unfolding assign_all
assign_all-Holds [] vs d h = tt
assign_all-Holds (c ∷ cs) [] d h = tt
assign_all-Holds (c ∷ cs) (v ∷ vs) d h = (
  value_of-assign_all_absent c cs vs (assign c v d) h.0 ∙ value_of-assign_self c v d,
  assign_all-Holds cs vs (assign c v d) h.1,
)

Holds-missing :
    (d : Mapping) (cs vs : List Str)
    → length cs ≡ length vs
    → Holds d cs vs
    → keep (λ c. not (is_in d c)) cs ≡ []
unfolding is_in
Holds-missing d [] vs e h = refl
Holds-missing d (c ∷ cs) [] e h = absurd (ground (arith, e))
Holds-missing d (c ∷ cs) (v ∷ vs) e h =
    let there : is_in d c ≡ true = rw (is_in, h.0) refl in
    rw there (Holds-missing d cs vs (ground (arith, e)) h.1)

Holds-values :
    (d : Mapping) (cs vs : List Str)
    → length cs ≡ length vs
    → Holds d cs vs
    → map (value_at d) cs ≡ vs
unfolding value_at
Holds-values d [] [] e h = refl
Holds-values d [] (v ∷ vs) e h = absurd (ground (arith, e))
Holds-values d (c ∷ cs) [] e h = absurd (ground (arith, e))
Holds-values d (c ∷ cs) (v ∷ vs) e h =
    rw (value_at, h.0) (ap (λ rest. v ∷ rest) (Holds-values d cs vs (ground (arith, e)) h.1))

-- The names in the dict are columns.
abbrev Named : List Str → Mapping → Type 0
Named columns d = All (λ name. not (contains_str name columns) ≡ false) (map (λ e. e.0) d)

assign-Named :
    (columns : List Str) (k v : Str) (d : Mapping)
    → contains_str k columns ≡ true
    → Named columns d
    → Named columns (assign k v d)
unfolding assign
assign-Named columns k v [] h n = (rw h refl, tt)
assign-Named columns k v ((j, w) ∷ d) h n = elim (Bool-cases (eq_str k j)) [
  | inl e ↦ rw e (n.0, n.1)
  | inr e ↦ rw e (n.0, assign-Named columns k v d h n.1)
]

assign_all-Named :
    (columns cs vs : List Str) (d : Mapping)
    → All (λ c. contains_str c columns ≡ true) cs
    → Named columns d
    → Named columns (assign_all cs vs d)
unfolding assign_all
assign_all-Named columns [] vs d h n = n
assign_all-Named columns (c ∷ cs) [] d h n = n
assign_all-Named columns (c ∷ cs) (v ∷ vs) d h n =
    assign_all-Named columns cs vs (assign c v d) h.1 (assign-Named columns c v d h.0 n)

contains_str-weaken :
    (c : Str) (columns cs : List Str)
    → All (λ x. contains_str x columns ≡ true) cs
    → All (λ x. contains_str x (c ∷ columns) ≡ true) cs
unfolding contains_str
contains_str-weaken c columns [] h = tt
contains_str-weaken c columns (x ∷ cs) h =
    (ground (arith, h.0), contains_str-weaken c columns cs h.1)

contains_str_self : (cs : List Str) → All (λ x. contains_str x cs ≡ true) cs
unfolding contains_str
contains_str_self [] = tt
contains_str_self (c ∷ cs) =
    (rw (eq_str_refl c) refl, contains_str-weaken c cs cs (contains_str_self cs))

-- What the two lists of complaints and the values are for the dict of all columns.
pub assign_all_lem :
    (cs vs : List Str)
    → length cs ≡ length vs
    → DistinctColumns cs
    → (keep (λ c. not (is_in (assign_all cs vs []) c)) cs ≡ [])
      × (keep (λ name. not (contains_str name cs)) (map (λ e. e.0) (assign_all cs vs [])) ≡ [])
      × (map (value_at (assign_all cs vs [])) cs ≡ vs)
assign_all_lem cs vs e h =
    let d = assign_all cs vs [] in
    let holds = assign_all-Holds cs vs [] h in
    (
      Holds-missing d cs vs e holds,
      keep_none _ (map (λ e. e.0) d) (assign_all-Named cs cs vs [] (contains_str_self cs) tt),
      Holds-values d cs vs e holds,
    )

module _ (quote unquote : Str → Str) (inverse : (s : Str) → unquote (quote s) ≡ s)
    (quoted : (s : Str) → contains_char value_separator (quote s) ≡ false) where
  -- The loop over the parts of a token undoes the encoding of the pairs.
  pub parse_pairs-encoded_pair :
      (cs vs : List Str) (d : Mapping)
      → parse_pairs unquote (map (encoded_pair quote) (zip cs vs)) d ≡ ok (assign_all cs vs d)
  unfolding parse_pairs zip assign_all
  parse_pairs-encoded_pair [] vs d = refl
  parse_pairs-encoded_pair (c ∷ cs) [] d = refl
  parse_pairs-encoded_pair (c ∷ cs) (v ∷ vs) d =
      rw (split_once_front value_separator (quote c) (quote v) (quoted c), inverse c, inverse v)
        (parse_pairs-encoded_pair cs vs (assign c v d))
