-- ===== src/Base/Kept.antt =====
-- Filtered lists, and what holds of all elements of one.
use mathlib.Core.Path.{◌≡◌, refl, ap}
use mathlib.Core.Logic.{inl, inr}
use mathlib.Core.Bool.{Bool, true, false}
use mathlib.Core.List.{List, [], ◌∷◌, ◌++◌, map}
use native.Mathlib.Omega.{arith}
use aletheia_onto.Base.Tests.{Bool-cases}
use aletheia_onto.Base.Lists.{keep, All}

module _ {ℓ} {A : Type ℓ} where
  pub All-map₂ {κ μ ν} :
      {P : A → Type κ} {Q : A → Type μ} {R : A → Type ν}
      → ((x : A) → P x → Q x → R x)
      → (xs : List A) → All P xs
      → All Q xs
      → All R xs
  All-map₂ f [] a b = tt
  All-map₂ f (x ∷ xs) a b = (f x a.0 b.0, All-map₂ f xs a.1 b.1)

  pub All-keep {κ} : (P : A → Type κ) (p : A → Bool) (xs : List A) → All P xs → All P (keep p xs)
  All-keep P p [] a = tt
  All-keep P p (x ∷ xs) a = elim (Bool-cases (p x)) [
    | inl e ↦ rw e (a.0, All-keep P p xs a.1)
    | inr e ↦ rw e (All-keep P p xs a.1)
  ]

  -- What holds of the elements that pass holds of the filtered list.
  pub All-kept {κ} :
      (P : A → Type κ) (p : A → Bool) (xs : List A)
      → All (λ x. p x ≡ true → P x) xs
      → All P (keep p xs)
  All-kept P p [] a = tt
  All-kept P p (x ∷ xs) a = elim (Bool-cases (p x)) [
    | inl e ↦ rw e (a.0 e, All-kept P p xs a.1)
    | inr e ↦ rw e (All-kept P p xs a.1)
  ]

  pub All-snoc {κ} : (P : A → Type κ) (x : A) (xs : List A) → All P xs → P x → All P (xs ++ x ∷ [])
  All-snoc P x [] a p = (p, tt)
  All-snoc P x (y ∷ ys) a p = (a.0, All-snoc P x ys a.1 p)

  pub keep-snoc_in :
      (p : A → Bool) (x : A) (xs : List A)
      → p x ≡ true
      → keep p (xs ++ x ∷ []) ≡ keep p xs ++ x ∷ []
  keep-snoc_in p x [] e = rw e refl
  keep-snoc_in p x (y ∷ ys) e = ground (arith, keep-snoc_in p x ys e)

  pub keep-snoc_out :
      (p : A → Bool) (x : A) (xs : List A) → p x ≡ false → keep p (xs ++ x ∷ []) ≡ keep p xs
  keep-snoc_out p x [] e = rw e refl
  keep-snoc_out p x (y ∷ ys) e = ground (arith, keep-snoc_out p x ys e)

  pub keep_none : (p : A → Bool) (xs : List A) → All (λ x. p x ≡ false) xs → keep p xs ≡ []
  keep_none p [] a = refl
  keep_none p (x ∷ xs) a = rw a.0 (keep_none p xs a.1)

  pub keep-append : (p : A → Bool) (xs ys : List A) → keep p (xs ++ ys) ≡ keep p xs ++ keep p ys
  keep-append p [] ys = refl
  keep-append p (x ∷ xs) ys = ground (arith, keep-append p xs ys)

  -- A filter that passes every value of a function passes the whole list of its values.
  pub keep-map_all {κ} :
      {B : Type κ} (p : A → Bool) (f : B → A) (xs : List B)
      → ((x : B) → p (f x) ≡ true)
      → keep p (map f xs) ≡ map f xs
  keep-map_all p f [] h = refl
  keep-map_all p f (x ∷ xs) h = rw (h x) (ap (λ rest. f x ∷ rest) (keep-map_all p f xs h))

  -- A filter that passes all that a second one passes can be left out before it.
  pub keep-keep :
      (p q : A → Bool) (xs : List A)
      → ((x : A) → p x ≡ true → q x ≡ true)
      → keep p (keep q xs) ≡ keep p xs
  keep-keep p q [] imp = refl
  keep-keep p q (x ∷ xs) imp = elim (Bool-cases (p x)) [
    | inl e ↦ rw (imp x e, e) (ap (λ rest. x ∷ rest) (keep-keep p q xs imp))
    | inr e ↦ elim (Bool-cases (q x)) [
      | inl f ↦ rw (f, e) (keep-keep p q xs imp)
      | inr f ↦ rw (f, e) (keep-keep p q xs imp)
    ]
  ]
