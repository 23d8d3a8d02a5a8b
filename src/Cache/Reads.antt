-- ===== src/Cache/Reads.antt =====
-- What a read returns after a write, and what a write puts out: backend/ontology_platform/cache.py.
use aletheia_onto.Base.{
  ℕ, ◌+◌, ◌≤◌, ◌<◌, ◌≡◌, ◌≢◌, refl, ap, Option, none, some, [], ◌∷◌, ◌++◌, arith, ltb, length,
  if◌then◌else◌, Text, Dict, lookup, insert, erase, inl, inr, Option-cases, Bool-cases, Distinct,
  lookup-snoc, lookup-erase_ne, lookup-erase_self, length-append,
}
use aletheia_onto.Cache.{Stamped, SimpleCache, move_to_end, is_live, evict, get, set}
use aletheia_onto.Cache.Invariant.{IsValid}

module _ {ℓ} {V : Type ℓ} where
  insert-snoc :
      (k : Text) (v w : Stamped V) (d : Dict (Stamped V))
      → lookup k d ≡ none
      → insert k w (d ++ (k, v) ∷ []) ≡ d ++ (k, w) ∷ []
  insert-snoc k v w [] e = ground arith
  insert-snoc k v w (x ∷ d) e = ground (arith, insert-snoc k v w d)

  insert_absent :
      (k : Text) (w : Stamped V) (d : Dict (Stamped V))
      → lookup k d ≡ none
      → insert k w d ≡ d ++ (k, w) ∷ []
  insert_absent k w [] e = refl
  insert_absent k w (x ∷ d) e = ground (arith, insert_absent k w d)

  erase_absent : (k : Text) (d : Dict (Stamped V)) → lookup k d ≡ none → erase k d ≡ d
  erase_absent k [] e = refl
  erase_absent k (x ∷ d) e = ground (arith, erase_absent k d)

  -- The written entry comes last, behind all the others in their order.
  written_last :
      (k : Text) (w : Stamped V) (d : Dict (Stamped V))
      → Distinct d
      → insert k w (move_to_end k d) ≡ erase k d ++ (k, w) ∷ []
  unfolding move_to_end
  written_last k w d h = elim (Option-cases (lookup k d)) [
    | inl e ↦ rw (e, move_to_end, erase_absent k d e) (insert_absent k w d e)
    | inr (v, e) ↦ rw (e, move_to_end) (insert-snoc k v w (erase k d) (lookup-erase_self k d h))
  ]

  evict_fits : (n : ℕ) (d : Dict (Stamped V)) → length d ≤ n → evict n d ≡ d
  unfolding evict
  evict_fits n [] le = refl
  evict_fits n (x ∷ d) le = ground arith

  lookup-evict-snoc :
      (n : ℕ) (k : Text) (w : Stamped V) (d : Dict (Stamped V))
      → 0 < n
      → lookup k d ≡ none
      → lookup k (evict n (d ++ (k, w) ∷ [])) ≡ some w
  unfolding evict
  lookup-evict-snoc n k w [] pos e = ground arith
  lookup-evict-snoc n k w (x ∷ d) pos e =
      ground (arith, lookup-evict-snoc n k w d, lookup-snoc k k w d)

  evict_one :
      (n : ℕ) (x : Text × Stamped V) (d : Dict (Stamped V)) → length d ≡ n → evict n (x ∷ d) ≡ d
  unfolding evict
  evict_one n x d e = ground (arith, evict_fits n d)

  get_found :
      (c : SimpleCache V) (k : Text) (now : ℕ) (e : Stamped V)
      → lookup k c.entries ≡ some e
      → (get c k now).1 ≡ (if ltb now (e.timestamp + c.default_ttl) then some e.value else none)
  unfolding get is_live
  get_found c k now e found = elim (Bool-cases (ltb now (e.timestamp + c.default_ttl))) [
    | inl live ↦ rw (found, get, live)
    | inr stale ↦ rw (found, get, stale)
  ]

  module _ (c : SimpleCache V) (k : Text) (v : V) (ttl : Option ℕ) (now : ℕ) (h : IsValid c) where
    abbrev written : Stamped V
    written = record { timestamp = now; value = v }

    entries-set :
        (set c k v ttl now).entries ≡ evict c.max_size (erase k c.entries ++ (k, written) ∷ [])
    unfolding set
    entries-set = ap (evict c.max_size) (written_last k written c.entries h.distinct)

    lookup-set_self : 0 < c.max_size → lookup k (set c k v ttl now).entries ≡ some written
    lookup-set_self pos = rw entries-set (
        lookup-evict-snoc c.max_size k written (erase k c.entries) pos
          (lookup-erase_self k c.entries h.distinct))

    -- In a valid cache with room for one entry, a read of the key just written returns the value
    -- while the default time to live lasts from the write on, and nothing from then on, whatever
    -- `ttl` the write was given.
    pub get-set :
        (later : ℕ)
        → 0 < c.max_size
        → (get (set c k v ttl now) k later).1
          ≡ (if ltb later (now + c.default_ttl) then some v else none)
    unfolding set
    get-set later pos = get_found (set c k v ttl now) k later written (lookup-set_self pos)

    -- In a valid cache with room left, or for a key that is there, a write keeps the entry of every
    -- other key.
    pub lookup-set_ne :
        (j : Text)
        → j ≢ k
        → length (erase k c.entries) < c.max_size
        → lookup j (set c k v ttl now).entries ≡ lookup j c.entries
    lookup-set_ne j ne room =
        rw
          (
            entries-set,
            evict_fits c.max_size (erase k c.entries ++ (k, written) ∷ [])
                (rw length-append (omega arith)),
          )
          (ground
            (arith, lookup-snoc j k written (erase k c.entries), lookup-erase_ne j k c.entries ne))

    -- A write of a new key into a valid cache that is full puts out the entry that was used least
    -- recently, and no other.
    pub set_full :
        (oldest : Text × Stamped V) (rest : Dict (Stamped V))
        → c.entries ≡ oldest ∷ rest
        → length c.entries ≡ c.max_size
        → lookup k c.entries ≡ none
        → (set c k v ttl now).entries ≡ rest ++ (k, written) ∷ []
    set_full oldest rest e full new =
        rw (entries-set, erase_absent k c.entries new, e)
          (evict_one c.max_size oldest (rest ++ (k, written) ∷ [])
            (rw length-append (omega (arith, ap length e))))
