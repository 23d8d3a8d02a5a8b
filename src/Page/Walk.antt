-- ===== src/Page/Walk.antt =====
-- A client that follows `hasMore` reads every row once: backend/ontology_platform/pagination.py.
use aletheia_onto.Base.{
  ℕ, zero, suc, ◌+◌, ◌-◌, ◌≤◌, ◌<◌, ◌≡◌, refl, false, Option, none, some, List, [], ◌∷◌, ◌++◌,
  arith, ltb, length, if◌then◌else◌, take, drop, ℤ, pos, negsuc, inl, inr, Bool-cases, ltb→lt, ap,
  sym,
}
use mathlib.Core.Option
use native.Mathlib.Nat.{zero-add, suc-add}
use aletheia_onto.Page.{QueryLimits, clamp_page_size, page_block}

-- A supplied page size, negative ones included, is brought between one row and the configured
-- maximum, if that is positive.
pub clamp_page_size_bounds :
    (limits : QueryLimits) (value : ℤ)
    → 0 < limits.max_page_size
    → (1 ≤ clamp_page_size limits (some value))
      × (clamp_page_size limits (some value) ≤ limits.max_page_size)
unfolding clamp_page_size
clamp_page_size_bounds limits (pos n) h = omega arith
clamp_page_size_bounds limits (negsuc n) h = omega arith

module _ {ℓ} {A : Type ℓ} where
  length-drop : (n : ℕ) (xs : List A) → length (drop n xs) ≡ length xs - n
  length-drop zero xs = omega arith
  length-drop (suc n) [] = omega arith
  length-drop (suc n) (x ∷ xs) = omega (arith, length-drop n xs)

  drop_all : (n : ℕ) (xs : List A) → length xs ≤ n → drop n xs ≡ []
  drop_all zero [] h = refl
  drop_all zero (x ∷ xs) h = absurd (omega arith)
  drop_all (suc n) [] h = refl
  drop_all (suc n) (x ∷ xs) h = drop_all n xs (omega arith)

  drop-add : (a b : ℕ) (xs : List A) → drop (a + b) xs ≡ drop b (drop a xs)
  drop-add zero b xs = rw zero-add
  drop-add (suc a) b [] = rw suc-add (sym (drop_all b [] (omega arith)))
  drop-add (suc a) b (x ∷ xs) = rw suc-add (drop-add a b xs)

  take-append-rest : (n : ℕ) (xs : List A) → take n xs ++ drop (length (take n xs)) xs ≡ xs
  take-append-rest zero xs = refl
  take-append-rest (suc n) [] = refl
  take-append-rest (suc n) (x ∷ xs) = ap (◌∷◌ x) (take-append-rest n xs)

  take_all : (n : ℕ) (xs : List A) → length xs ≤ length (take n xs) → take n xs ≡ xs
  take_all zero [] h = refl
  take_all zero (x ∷ xs) h = absurd (omega arith)
  take_all (suc n) [] h = refl
  take_all (suc n) (x ∷ xs) h = ap (◌∷◌ x) (take_all n xs (omega arith))

  take_some : (n : ℕ) (xs : List A) → 0 < n → 0 < length xs → 0 < length (take n xs)
  take_some (suc n) (x ∷ xs) p q = omega arith
  take_some zero xs p q = absurd (omega arith)
  take_some (suc n) [] p q = absurd (omega arith)

  abbrev page : List A → ℕ → ℕ → List A
  page rows limit offset = take limit (drop offset rows)

  -- A client that asks for the next page, at the offset behind the rows it got, while the block
  -- says that there are more. There is no answer if it has not finished when the fuel is used up.
  unfoldable pub walk : ℕ → List A → ℕ → ℕ → Option (List A)
  walk zero rows limit offset = none
  walk (suc fuel) rows limit offset =
      let got = page rows limit offset in
      let rest = walk fuel rows limit (offset + length got) in
      if (page_block (some limit) offset (length rows) (length got)).has_more
      then Option.map (λ more. got ++ more) rest
      else some got

  last_page :
      (fuel : ℕ) (rows : List A) (limit offset : ℕ)
      → ltb (offset + length (page rows limit offset)) (length rows) ≡ false
      → walk (suc fuel) rows limit offset ≡ some (drop offset rows)
  unfolding walk page_block
  last_page fuel rows limit offset last =
      rw last (
        ap some (take_all limit (drop offset rows) (ground (arith, last, length-drop offset rows))))

  -- With a positive limit, following `hasMore` from an offset ends, in no more requests than there
  -- are rows behind the offset, and one, and has read every row behind the offset once and in order.
  pub walk-drop :
      (fuel : ℕ) (rows : List A) (limit offset : ℕ)
      → 0 < limit
      → length rows ≤ offset + fuel
      → walk (suc fuel) rows limit offset ≡ some (drop offset rows)
  unfolding walk page_block
  walk-drop zero rows limit offset positive enough =
      last_page zero rows limit offset (ground (arith, enough))
  walk-drop (suc fuel) rows limit offset positive enough =
      let xs = drop offset rows in
      let n = length (take limit xs) in
      elim (Bool-cases (ltb (offset + n) (length rows))) [
        | inr last ↦ last_page (suc fuel) rows limit offset last
        | inl more ↦
            let progress : 0 < n =
              take_some limit xs positive
                (omega (arith, length-drop offset rows, ltb→lt _ _ more)) in
            rw (more, walk-drop fuel rows limit (offset + n) positive (omega arith))
              (ap some (rw (drop-add offset n rows) (take-append-rest limit xs)))
      ]
