-- ===== src/Temporal/Rows.antt =====
-- The table of an instance and the rows of one attribute in it: backend/ontology_platform/temporal.py.
use aletheia_onto.Base.{
  ℕ, zero, suc, ◌≤◌, ◌<◌, ◌≡◌, refl, sym, ap, Bool, true, false, some, List, [], ◌∷◌, arith, All,
  leb, length, take, Text, ◌==◌, ==-refl, if◌then◌else◌, Bool-cases, Option-cases, inl, inr,
}
use aletheia_onto.Temporal.{
  AttributeVersion, covers, covering, close, insert_version, rows_of, close_row, insert_row,
}

-- No number of the list is below one that stands before it.
abbrev pub IsAscending : List ℕ → Type 0
IsAscending [] = Unit
IsAscending (n ∷ ns) = All (λ m. n ≤ m) ns × IsAscending ns

above : (n m : ℕ) (ns : List ℕ) → n < m → All (λ k. m ≤ k) ns → All (λ k. n < k) ns
above n m [] lt a = tt
above n m (k ∷ ns) lt a = (omega (arith, lt, a.0), above n m ns lt a.1)

below : (n m : ℕ) (ns : List ℕ) → n ≤ m → All (λ k. m ≤ k) ns → All (λ k. n ≤ k) ns
below n m [] le a = tt
below n m (k ∷ ns) le a = (omega (arith, le, a.0), below n m ns le a.1)

module _ {V : Type 0} where
  unfoldable pub starts : List (Text × AttributeVersion V) → List ℕ
  starts [] = []
  starts ((c, v) ∷ table) = v.valid_from ∷ starts table

  pub rows_of-close_row :
      (code : Text) (start : ℕ) (table : List (Text × AttributeVersion V))
      → rows_of code (close_row code start table) ≡ close start (rows_of code table)
  unfolding rows_of close_row close
  rows_of-close_row code start [] = refl
  rows_of-close_row code start ((c, v) ∷ table) =
      let ih = rows_of-close_row code start table in
      elim (Bool-cases (c == code)) [
        | inr e ↦ rw (e, e) ih
        | inl e ↦ elim (Option-cases (covering start (rows_of code table))) [
          | inl f ↦ rw (close_row, close, e, f) (rw e refl)
          | inr (w, f) ↦ rw (close_row, close, e, f) (rw e (ap (◌∷◌ v) ih))
        ]
      ]

  pub other-close_row :
      (code other : Text) (start : ℕ) (table : List (Text × AttributeVersion V))
      → (code == other) ≡ false
      → rows_of other (close_row code start table) ≡ rows_of other table
  unfolding rows_of close_row
  other-close_row code other start [] ne = refl
  other-close_row code other start ((c, v) ∷ table) ne =
      let ih = other-close_row code other start table ne in
      elim (Bool-cases (c == code)) [
        | inr e ↦ rw (close_row, e) (ground (arith, ih))
        | inl e ↦
            let away : (c == other) ≡ false = ground (arith, e, ne) in
            elim (Option-cases (covering start (rows_of code table))) [
              | inl f ↦ rw (close_row, e, f) (rw away refl)
              | inr (w, f) ↦ rw (close_row, e, f) (rw away ih)
            ]
      ]

  pub starts-close_row :
      (code : Text) (start : ℕ) (table : List (Text × AttributeVersion V))
      → starts (close_row code start table) ≡ starts table
  unfolding starts close_row
  starts-close_row code start [] = refl
  starts-close_row code start ((c, v) ∷ table) =
      let ih = starts-close_row code start table in
      elim (Bool-cases (c == code)) [
        | inr e ↦ rw (close_row, e) (ap (◌∷◌ v.valid_from) ih)
        | inl e ↦ elim (Option-cases (covering start (rows_of code table))) [
          | inl f ↦ rw (close_row, e, f) (ended v (covers v start))
          | inr (w, f) ↦ rw (close_row, e, f) (ap (◌∷◌ v.valid_from) ih)
        ]
      ]
    where
      ended :
          (v : AttributeVersion V) (test : Bool)
          → (if test then record v { valid_to = some start } else v).valid_from ∷ starts table
            ≡ v.valid_from ∷ starts table
      ended v true = refl
      ended v false = refl

  insert_version-first :
      (code : Text) (new : AttributeVersion V) (table : List (Text × AttributeVersion V))
      → All (λ s. new.valid_from < s) (starts table)
      → insert_version new (rows_of code table) ≡ new ∷ rows_of code table
  unfolding insert_version rows_of starts
  insert_version-first code new [] a = refl
  insert_version-first code new ((c, v) ∷ table) a =
      let ih = insert_version-first code new table a.1 in ground (arith, ih, a.0)

  pub rows_of-insert_row :
      (code : Text) (new : AttributeVersion V) (table : List (Text × AttributeVersion V))
      → IsAscending (starts table)
      → rows_of code (insert_row code new table) ≡ insert_version new (rows_of code table)
  unfolding rows_of insert_row insert_version starts
  rows_of-insert_row code new [] a = rw (==-refl code) refl
  rows_of-insert_row code new ((c, v) ∷ table) a =
      let ih = rows_of-insert_row code new table a.1 in
      elim (Bool-cases (leb v.valid_from new.valid_from)) [
        | inl e ↦ elim (Bool-cases (c == code)) [
          | inl f ↦ rw (e, f) (rw e (ap (◌∷◌ v) ih))
          | inr f ↦ rw (e, f) ih
        ]
        | inr e ↦
            let lt : new.valid_from < v.valid_from = ground (arith, e) in
            let first =
              insert_version-first code new ((c, v) ∷ table)
                (lt, above new.valid_from v.valid_from (starts table) lt a.0) in
            rw (e, ==-refl code) (sym first)
      ]

  pub other-insert_row :
      (code other : Text) (new : AttributeVersion V) (table : List (Text × AttributeVersion V))
      → (code == other) ≡ false
      → rows_of other (insert_row code new table) ≡ rows_of other table
  unfolding rows_of insert_row
  other-insert_row code other new [] ne = rw ne refl
  other-insert_row code other new ((c, v) ∷ table) ne =
      let ih = other-insert_row code other new table ne in
      elim (Bool-cases (leb v.valid_from new.valid_from)) [
        | inl e ↦ rw e (ground (arith, ih))
        | inr e ↦ rw (e, ne) refl
      ]

  All-insert_row :
      (n : ℕ) (code : Text) (new : AttributeVersion V) (table : List (Text × AttributeVersion V))
      → n ≤ new.valid_from
      → All (λ m. n ≤ m) (starts table)
      → All (λ m. n ≤ m) (starts (insert_row code new table))
  unfolding starts insert_row
  All-insert_row n code new [] le a = (le, tt)
  All-insert_row n code new ((c, v) ∷ table) le a =
      elim (Bool-cases (leb v.valid_from new.valid_from)) [
        | inl e ↦ rw e (a.0, All-insert_row n code new table le a.1)
        | inr e ↦ rw e (le, a)
      ]

  pub insert_row-IsAscending :
      (code : Text) (new : AttributeVersion V) (table : List (Text × AttributeVersion V))
      → IsAscending (starts table)
      → IsAscending (starts (insert_row code new table))
  unfolding starts insert_row
  insert_row-IsAscending code new [] a = (tt, tt)
  insert_row-IsAscending code new ((c, v) ∷ table) a =
      elim (Bool-cases (leb v.valid_from new.valid_from)) [
        | inl e ↦ rw e (
          All-insert_row v.valid_from code new table (ground (arith, e)) a.0,
          insert_row-IsAscending code new table a.1,
        )
        | inr e ↦
            let le : new.valid_from ≤ v.valid_from = ground (arith, e) in
            rw e ((le, below new.valid_from v.valid_from (starts table) le a.0), a)
      ]

  pub length-insert_row :
      (code : Text) (new : AttributeVersion V) (table : List (Text × AttributeVersion V))
      → length (starts (insert_row code new table)) ≡ suc (length (starts table))
  unfolding starts insert_row
  length-insert_row code new [] = refl
  length-insert_row code new ((c, v) ∷ table) = ground (arith, length-insert_row code new table)

  pub take_all :
      (n : ℕ) (table : List (Text × AttributeVersion V))
      → length (starts table) ≤ n
      → take n table ≡ table
  unfolding starts
  take_all zero [] le = refl
  take_all zero ((c, v) ∷ table) le = absurd (omega (arith, le))
  take_all (suc n) [] le = refl
  take_all (suc n) ((c, v) ∷ table) le = ap (◌∷◌ (c, v)) (take_all n table (omega (arith, le)))
