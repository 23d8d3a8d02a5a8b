-- ===== src/InstanceKey/Strings.antt =====
-- Texts as lists of code points, with the Python operations that
-- backend/ontology_platform/instance_key.py uses.
use mathlib.Core.List.{reverse}
use aletheia_onto.Base.{
  ℕ, ◌≡◌, refl, ap, ◌∙◌, Bool, true, false, Option, none, some, List, [], ◌∷◌, ◌++◌, arith, any,
  All, ◌==◌, ==-refl, ◌&&◌, ◌||◌, if◌then◌else◌, Bool-cases, inl, inr,
}

abbrev pub Str : Type 0
Str = List ℕ

-- `s == t`
unfoldable pub eq_str : Str → Str → Bool
eq_str [] [] = true
eq_str [] (d ∷ t) = false
eq_str (c ∷ s) [] = false
eq_str (c ∷ s) (d ∷ t) = (c == d) && eq_str s t

abbrev pub is_empty : Str → Bool
is_empty [] = true
is_empty (c ∷ s) = false

-- `c in s`, of a character.
abbrev pub contains_char : ℕ → Str → Bool
contains_char c = any (λ d. c == d)

-- `s in ss`, of a tuple of texts.
unfoldable pub contains_str : Str → List Str → Bool
unfolding eq_str
contains_str s = any (eq_str s)

abbrev pub drop_spaces : (ℕ → Bool) → Str → Str
drop_spaces is_space [] = []
drop_spaces is_space (c ∷ s) = if is_space c then drop_spaces is_space s else c ∷ s

-- `s.strip()`
abbrev pub strip : (ℕ → Bool) → Str → Str
strip is_space s = reverse (drop_spaces is_space (reverse (drop_spaces is_space s)))

-- A character in front of the first part.
abbrev pub extend : ℕ → List Str → List Str
extend c [] = (c ∷ []) ∷ []
extend c (s ∷ ss) = (c ∷ s) ∷ ss

-- `s.split(sep)`
unfoldable pub split : ℕ → Str → List Str
split sep [] = [] ∷ []
split sep (c ∷ s) = if c == sep then [] ∷ split sep s else extend c (split sep s)

abbrev pub extend_first : ℕ → Option (Str × Str) → Option (Str × Str)
extend_first c none = none
extend_first c (some (s, t)) = some (c ∷ s, t)

-- `s.split(sep, 1)`, if it has two pieces.
unfoldable pub split_once : ℕ → Str → Option (Str × Str)
split_once sep [] = none
split_once sep (c ∷ s) = if c == sep then some ([], s) else extend_first c (split_once sep s)

-- `sep.join(parts)`
unfoldable pub join : ℕ → List Str → Str
join sep [] = []
join sep (s ∷ []) = s
join sep (s ∷ t ∷ rest) = s ++ sep ∷ join sep (t ∷ rest)

pub eq_str_refl : (s : Str) → eq_str s s ≡ true
unfolding eq_str
eq_str_refl [] = refl
eq_str_refl (c ∷ s) = rw (==-refl c) (eq_str_refl s)

pub eq_str→eq : (s t : Str) → eq_str s t ≡ true → s ≡ t
unfolding eq_str
eq_str→eq [] [] h = refl
eq_str→eq [] (d ∷ t) h = absurd (ground arith)
eq_str→eq (c ∷ s) [] h = absurd (ground arith)
eq_str→eq (c ∷ s) (d ∷ t) h = ground (arith, eq_str→eq s t)

-- A text without the separator is one part, and the separator ends it.
pub split_one : (sep : ℕ) (s : Str) → contains_char sep s ≡ false → split sep s ≡ s ∷ []
unfolding split
split_one sep [] h = refl
split_one sep (c ∷ s) h = elim (Bool-cases (c == sep)) [
  | inl e ↦ absurd (ground (arith, e, h))
  | inr e ↦ rw (e, split_one sep s (ground (arith, h))) refl
]

split_front :
    (sep : ℕ) (s rest : Str)
    → contains_char sep s ≡ false
    → split sep (s ++ sep ∷ rest) ≡ s ∷ split sep rest
unfolding split
split_front sep [] rest h = rw (==-refl sep) refl
split_front sep (c ∷ s) rest h = elim (Bool-cases (c == sep)) [
  | inl e ↦ absurd (ground (arith, e, h))
  | inr e ↦ rw (e, split_front sep s rest (ground (arith, h))) refl
]

-- Splitting takes joined parts apart, if none contains the separator.
pub split-join :
    (sep : ℕ) (s : Str) (ss : List Str)
    → All (λ t. contains_char sep t ≡ false) (s ∷ ss)
    → split sep (join sep (s ∷ ss)) ≡ s ∷ ss
unfolding join
split-join sep s [] h = split_one sep s h.0
split-join sep s (t ∷ ss) h =
    split_front sep s (join sep (t ∷ ss)) h.0 ∙ ap (λ rest. s ∷ rest) (split-join sep t ss h.1)

pub split_once_front :
    (sep : ℕ) (s rest : Str)
    → contains_char sep s ≡ false
    → split_once sep (s ++ sep ∷ rest) ≡ some (s, rest)
unfolding split_once
split_once_front sep [] rest h = rw (==-refl sep) refl
split_once_front sep (c ∷ s) rest h = elim (Bool-cases (c == sep)) [
  | inl e ↦ absurd (ground (arith, e, h))
  | inr e ↦ rw (e, split_once_front sep s rest (ground (arith, h))) refl
]

pub contains_char-append :
    (c : ℕ) (s t : Str) → contains_char c (s ++ t) ≡ contains_char c s || contains_char c t
contains_char-append c [] t = refl
contains_char-append c (d ∷ s) t = ground (arith, contains_char-append c s t)
