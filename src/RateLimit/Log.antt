-- ===== src/RateLimit/Log.antt =====
-- The log of one key: what expiry keeps, against a count of the requests inside a window.
use aletheia_onto.Base.{
  ℕ, suc, ◌+◌, ◌≤◌, ◌<◌, ◌≡◌, refl, List, [], ◌∷◌, ◌++◌, arith, length, All, ltb, leb,
  if◌then◌else◌, ◌&&◌, dec_lt,
}
use aletheia_onto.RateLimit.{expire}

-- How many of the moments have not left the window at `moment`.
unfoldable pub count_recent : ℕ → ℕ → List ℕ → ℕ
count_recent window moment [] = 0
count_recent window moment (h ∷ hs) =
    let rest = count_recent window moment hs in if ltb moment (h + window) then suc rest else rest

-- How many of the moments lie in the window that ends at `t`.
unfoldable pub count_inside : ℕ → ℕ → List ℕ → ℕ
count_inside window t [] = 0
count_inside window t (h ∷ hs) =
    let rest = count_inside window t hs in if leb h t && ltb t (h + window) then suc rest else rest

-- Moments in order, none after `bound`.
abbrev pub IsLog : ℕ → List ℕ → Type 0
IsLog bound [] = Unit
IsLog bound (h ∷ hs) = (h ≤ bound) × All (λ x. h ≤ x) hs × IsLog bound hs

module _ (window : ℕ) where
  pub expire-expire :
      (before moment : ℕ) (log : List ℕ)
      → before ≤ moment
      → expire window moment (expire window before log) ≡ expire window moment log
  unfolding expire
  expire-expire before moment [] le = refl
  expire-expire before moment (h ∷ hs) le = ground (arith, expire-expire before moment hs le)

  pub expire-snoc :
      (moment : ℕ) (log : List ℕ)
      → 0 < window
      → expire window moment (log ++ moment ∷ []) ≡ expire window moment log ++ moment ∷ []
  unfolding expire
  expire-snoc moment [] pos = ground arith
  expire-snoc moment (h ∷ hs) pos = ground (arith, expire-snoc moment hs pos)

  All-recent :
      (moment h : ℕ) (hs : List ℕ)
      → moment < h + window
      → All (λ x. h ≤ x) hs
      → count_recent window moment hs ≡ length hs
  unfolding count_recent
  All-recent moment h [] lt a = refl
  All-recent moment h (x ∷ hs) lt a = ground (arith, All-recent moment h hs lt a.1)

  -- On an ordered log expiry from the front keeps exactly the recent moments.
  pub length-expire :
      (bound moment : ℕ) (log : List ℕ)
      → IsLog bound log
      → length (expire window moment log) ≡ count_recent window moment log
  unfolding expire count_recent
  length-expire bound moment [] s = refl
  length-expire bound moment (h ∷ hs) s =
      ground (arith, length-expire bound moment hs s.2, All-recent moment h hs)

  inside-le-recent :
      (t moment : ℕ) (log : List ℕ)
      → moment ≤ t
      → count_inside window t log ≤ count_recent window moment log
  unfolding count_inside count_recent
  inside-le-recent t moment [] le = omega arith
  inside-le-recent t moment (h ∷ hs) le = ground (arith, inside-le-recent t moment hs le)

  inside-snoc-le :
      (t moment : ℕ) (log : List ℕ)
      → count_inside window t (log ++ moment ∷ []) ≤ count_inside window t log + 1
  unfolding count_inside
  inside-snoc-le t moment [] = ground arith
  inside-snoc-le t moment (h ∷ hs) = ground (arith, inside-snoc-le t moment hs)

  inside-snoc_later :
      (t moment : ℕ) (log : List ℕ)
      → t < moment
      → count_inside window t (log ++ moment ∷ []) ≡ count_inside window t log
  unfolding count_inside
  inside-snoc_later t moment [] lt = ground arith
  inside-snoc_later t moment (h ∷ hs) lt = ground (arith, inside-snoc_later t moment hs lt)

  -- A request admitted below the limit takes no window over it.
  pub inside-snoc_bound :
      (n t moment : ℕ) (log : List ℕ)
      → count_recent window moment log < n
      → count_inside window t log ≤ n
      → count_inside window t (log ++ moment ∷ []) ≤ n
  inside-snoc_bound n t moment log room le = elim (dec_lt t moment) [
    | yes p ↦ omega (arith, inside-snoc_later t moment log p)
    | no p ↦ omega (arith, inside-snoc-le t moment log, inside-le-recent t moment log (omega arith))
  ]

All-snoc {ℓ κ} :
    {A : Type ℓ} (P : A → Type κ) (xs : List A) (y : A) → All P xs → P y → All P (xs ++ y ∷ [])
All-snoc P [] y a p = (p, tt)
All-snoc P (x ∷ xs) y a p = (a.0, All-snoc P xs y a.1 p)

pub IsLog-snoc :
    (before moment : ℕ) (log : List ℕ)
    → before ≤ moment
    → IsLog before log
    → IsLog moment (log ++ moment ∷ [])
IsLog-snoc before moment [] le s = (omega arith, tt, tt)
IsLog-snoc before moment (h ∷ hs) le s = (
  omega arith,
  All-snoc (λ x. h ≤ x) hs moment s.1 (omega arith),
  IsLog-snoc before moment hs le s.2,
)

pub IsLog-later :
    (before moment : ℕ) (log : List ℕ) → before ≤ moment → IsLog before log → IsLog moment log
IsLog-later before moment [] le s = tt
IsLog-later before moment (h ∷ hs) le s = (omega arith, s.1, IsLog-later before moment hs le s.2)
