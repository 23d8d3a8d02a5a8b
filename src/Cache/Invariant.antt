-- ===== src/Cache/Invariant.antt =====
-- No key twice, and never more entries than `max_size`: backend/ontology_platform/cache.py.
use aletheia_onto.Base.{
  ℕ, ◌+◌, ◌≤◌, ◌≡◌, Option, some, [], ◌∷◌, arith, length, Text, Dict, lookup, erase, inl, inr,
  Option-cases, Distinct, Distinct-snoc, Distinct-erase, Distinct-insert, lookup-erase_self,
  length-append,
}
use aletheia_onto.Cache.{Stamped, SimpleCache, move_to_end, evict, get, set}

pub record IsValid {ℓ} {V : Type ℓ} (c : SimpleCache V) : Type ℓ where
  pub distinct : Distinct c.entries
  pub bounded : length c.entries ≤ c.max_size

module _ {ℓ} {V : Type ℓ} where
  length-erase-le : (k : Text) (d : Dict (Stamped V)) → length (erase k d) ≤ length d
  length-erase-le k [] = omega arith
  length-erase-le k (e ∷ d) = ground (arith, length-erase-le k d)

  pub length-erase :
      (k : Text) (d : Dict (Stamped V)) (v : Stamped V)
      → lookup k d ≡ some v
      → length (erase k d) + 1 ≡ length d
  length-erase k [] v e = absurd (ground arith)
  length-erase k (x ∷ d) v e = ground (arith, length-erase k d v)

  pub move_to_end-Distinct :
      (k : Text) (d : Dict (Stamped V)) → Distinct d → Distinct (move_to_end k d)
  unfolding move_to_end
  move_to_end-Distinct k d h = elim (Option-cases (lookup k d)) [
    | inl e ↦ rw (e, move_to_end) h
    | inr (v, e) ↦
        rw (e, move_to_end)
          (Distinct-snoc k v (erase k d) (Distinct-erase k d h) (lookup-erase_self k d h))
  ]

  pub length-move_to_end : (k : Text) (d : Dict (Stamped V)) → length (move_to_end k d) ≡ length d
  unfolding move_to_end
  length-move_to_end k d = elim (Option-cases (lookup k d)) [
    | inl e ↦ rw (e, move_to_end)
    | inr (v, e) ↦ rw (e, move_to_end, length-append) (length-erase k d v e)
  ]

  pub evict-Distinct : (n : ℕ) (d : Dict (Stamped V)) → Distinct d → Distinct (evict n d)
  unfolding evict
  evict-Distinct n [] h = tt
  evict-Distinct n (x ∷ d) h = ground (arith, evict-Distinct n d h.1)

  pub length-evict-le : (n : ℕ) (d : Dict (Stamped V)) → length (evict n d) ≤ n
  unfolding evict
  length-evict-le n [] = omega arith
  length-evict-le n (x ∷ d) = ground (arith, length-evict-le n d)

  -- A write into a cache whose keys are distinct keeps them distinct and brings the size within
  -- `max_size`, also where it was not.
  pub set-IsValid :
      (c : SimpleCache V) (k : Text) (v : V) (ttl : Option ℕ) (now : ℕ)
      → Distinct c.entries
      → IsValid (set c k v ttl now)
  unfolding set
  set-IsValid c k v ttl now h = record {
    distinct =
        evict-Distinct c.max_size _ (Distinct-insert k _ _ (move_to_end-Distinct k c.entries h));
    bounded = length-evict-le c.max_size _;
  }

  -- A read keeps the keys distinct and the size within `max_size`, whether it hits, misses or drops
  -- a stale entry.
  pub get-IsValid : (c : SimpleCache V) (k : Text) (now : ℕ) → IsValid c → IsValid (get c k now).0
  unfolding get
  get-IsValid c k now h = elim (Option-cases (lookup k c.entries)) [
    | inl e ↦ rw (e, get) h
    | inr (v, e) ↦ ground (
      arith,
      move_to_end-Distinct k c.entries h.distinct,
      length-move_to_end k c.entries,
      Distinct-erase k c.entries h.distinct,
      length-erase-le k c.entries,
    )
  ]
