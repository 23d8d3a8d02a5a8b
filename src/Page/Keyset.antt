-- ===== src/Page/Keyset.antt =====
-- Keyset pages over rows that are read newest first: `resolve_cursor` and `cursor_block` of
-- backend/ontology_platform/pagination.py. A row is the id that it carries.
use aletheia_onto.Base.{
  ℕ, zero, suc, ◌≤◌, ◌<◌, ◌≡◌, refl, ap, subst, sym, ◌∙◌, Option, none, some, List, [], ◌∷◌, ◌++◌,
  arith, ltb, min, map, keep, take, drop, All,
}
use aletheia_onto.Page.{resolve_cursor, selects, min_of, present, cursor_block}

-- `order by id desc` of ids that no two rows share.
abbrev pub IsDescending : List ℕ → Type 0
IsDescending [] = Unit
IsDescending (x ∷ xs) = All (λ y. y < x) xs × IsDescending xs

-- The rows that a request with this position reads, before the limit cuts them.
abbrev pub matching : Option ℕ → List ℕ → List ℕ
matching before rows = keep (selects (resolve_cursor before none)) rows

present-some : (ids : List ℕ) → present (map some ids) ≡ ids
unfolding present
present-some [] = refl
present-some (x ∷ xs) = ap (◌∷◌ x) (present-some xs)

-- Over a descending list the smallest id is the last.
last_of : ℕ → List ℕ → ℕ
last_of x [] = x
last_of x (y ∷ ys) = last_of y ys

min_of-last : (x : ℕ) (xs : List ℕ) → IsDescending (x ∷ xs) → min_of x xs ≡ last_of x xs
unfolding min_of last_of
min_of-last x [] d = refl
min_of-last x (y ∷ ys) d = let e : min x y ≡ y = omega (arith, d.0.0) in rw e (min_of-last y ys d.1)

All-take : (P : ℕ → Type 0) (n : ℕ) (xs : List ℕ) → All P xs → All P (take n xs)
All-take P zero xs a = tt
All-take P (suc n) [] a = tt
All-take P (suc n) (x ∷ xs) a = (a.0, All-take P n xs a.1)

take-IsDescending : (n : ℕ) (xs : List ℕ) → IsDescending xs → IsDescending (take n xs)
take-IsDescending zero xs d = tt
take-IsDescending (suc n) [] d = tt
take-IsDescending (suc n) (x ∷ xs) d = (All-take (λ y. y < x) n xs d.0, take-IsDescending n xs d.1)

last-le : (n x : ℕ) (xs : List ℕ) → IsDescending (x ∷ xs) → last_of x (take n xs) ≤ x
unfolding last_of
last-le zero x xs d = omega arith
last-le (suc n) x [] d = omega arith
last-le (suc n) x (y ∷ ys) d = omega (arith, last-le n y ys d.1, d.0.0)

keep-All : (b : ℕ) (xs : List ℕ) → All (λ y. y < b) xs → keep (λ id. ltb id b) xs ≡ xs
keep-All b [] a = refl
keep-All b (x ∷ xs) a = ground (arith, keep-All b xs a.1)

-- What lies below the last id of a page is what follows the page.
below_page :
    (n x : ℕ) (xs : List ℕ)
    → IsDescending (x ∷ xs)
    → keep (λ id. ltb id (last_of x (take n xs))) (x ∷ xs) ≡ drop n xs
unfolding last_of
below_page zero x xs d = ground (arith, keep-All x xs d.0)
below_page (suc n) x [] d = ground arith
below_page (suc n) x (y ∷ ys) d = ground (arith, below_page n y ys d.1, last-le n y ys d.1, d.0.0)

keep-keep :
    (m b : ℕ) (xs : List ℕ)
    → m ≤ b
    → keep (λ id. ltb id m) (keep (λ id. ltb id b) xs) ≡ keep (λ id. ltb id m) xs
keep-keep m b [] le = refl
keep-keep m b (x ∷ xs) le = ground (arith, keep-keep m b xs le)

keep-append_newer :
    (m : ℕ) (newer rows : List ℕ)
    → All (λ id. m ≤ id) newer
    → keep (λ id. ltb id m) (newer ++ rows) ≡ keep (λ id. ltb id m) rows
keep-append_newer m [] rows a = refl
keep-append_newer m (x ∷ newer) rows a = ground (arith, keep-append_newer m newer rows a.1)

All-keep : (b : ℕ) (rows : List ℕ) → All (λ id. id < b) (keep (λ id. ltb id b) rows)
All-keep b [] = tt
All-keep b (x ∷ rows) = ground (arith, All-keep b rows)

-- The `nextBefore` of a page of descending ids is the last id.
next_before-last :
    (x k : ℕ) (xs : List ℕ)
    → IsDescending (x ∷ xs)
    → (cursor_block (map some (x ∷ xs)) (some k)).next_before ≡ some (last_of x xs)
unfolding cursor_block
next_before-last x k xs d = rw (present-some (x ∷ xs)) (ap some (min_of-last x xs d))

module _ (rows newer : List ℕ) (n : ℕ) where
  -- Let a request older than `before` read the descending rows `x ∷ xs` and return the first
  -- `suc n`. With the `nextBefore` of that page the next request reads exactly the rows behind
  -- the page, also if rows with larger ids have arrived in between.
  pub next_page :
      (before x m : ℕ) (xs : List ℕ)
      → matching (some before) rows ≡ x ∷ xs
      → IsDescending (x ∷ xs)
      → (cursor_block (map some (take (suc n) (x ∷ xs))) (some (suc n))).next_before ≡ some m
      → All (λ id. m ≤ id) newer
      → matching (some m) (newer ++ rows) ≡ drop (suc n) (x ∷ xs)
  unfolding selects resolve_cursor
  next_page before x m xs read d next arrived =
      let last : last_of x (take n xs) ≡ m =
        cc (next_before-last x (suc n) (take n xs) (take-IsDescending (suc n) (x ∷ xs) d)) in
      let small : m ≤ before =
        let top : All (λ id. id < before) (x ∷ xs) = rw read at (All-keep before rows) in
        omega (arith, last-le n x xs d, last, top.0) in
      keep-append_newer m newer rows arrived
      ∙ sym (keep-keep m before rows small)
      ∙ ap (keep (λ id. ltb id m)) read
      ∙ subst (λ b. keep (λ id. ltb id b) (x ∷ xs) ≡ drop n xs) last (below_page n x xs d)
