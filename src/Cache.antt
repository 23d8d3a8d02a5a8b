-- ===== src/Cache.antt =====
-- `SimpleCache` of backend/ontology_platform/cache.py: an `OrderedDict` from keys to a time stamp
-- and a value, least recently used first. Times are the whole numbers of some tick; the test
-- `now - timestamp < ttl` is written `now < timestamp + ttl`.
pub mod Invariant
pub mod Reads
use aletheia_onto.Base.{
  ℕ, ◌+◌, Bool, true, false, Option, none, some, List, [], ◌∷◌, ◌++◌, ltb, length, if◌then◌else◌,
  Text, Dict, lookup, insert, erase,
}

pub record Stamped {ℓ} (V : Type ℓ) : Type ℓ where
  pub timestamp : ℕ
  pub value : V

pub record SimpleCache {ℓ} (V : Type ℓ) : Type ℓ where
  pub max_size : ℕ
  pub default_ttl : ℕ
  pub entries : Dict (Stamped V)

module _ {ℓ} {V : Type ℓ} where
  -- `move_to_end` of a key that is there.
  unfoldable pub move_to_end : Text → Dict (Stamped V) → Dict (Stamped V)
  move_to_end key entries = elim (lookup key entries) [
    | none ↦ entries
    | some e ↦ erase key entries ++ (key, e) ∷ []
  ]

  unfoldable pub is_live : SimpleCache V → Stamped V → ℕ → Bool
  is_live c e now = ltb now (e.timestamp + c.default_ttl)

  unfoldable pub get : SimpleCache V → Text → ℕ → SimpleCache V × Option V
  get c key now = elim (lookup key c.entries) [
    | none ↦ (c, none)
    | some e ↦
        if is_live c e now
        then (record c { entries = move_to_end key c.entries }, some e.value)
        else (record c { entries = erase key c.entries }, none)
  ]

  -- `while len(self._cache) > self.max_size: self._cache.popitem(last=False)`
  unfoldable pub evict : ℕ → Dict (Stamped V) → Dict (Stamped V)
  evict max_size [] = []
  evict max_size (e ∷ entries) =
      let rest = evict max_size entries in
      if ltb max_size (length (e ∷ entries)) then rest else e ∷ entries

  -- The argument `ttl` is not read.
  unfoldable pub set : SimpleCache V → Text → V → Option ℕ → ℕ → SimpleCache V
  set c key value ttl now = record c {
    entries =
        evict c.max_size
          (insert key (record { timestamp = now; value = value }) (move_to_end key c.entries));
  }

  unfoldable pub delete : SimpleCache V → Text → SimpleCache V
  delete c key = record c { entries = erase key c.entries }

  unfoldable pub clear : SimpleCache V → SimpleCache V
  clear c = record c { entries = [] }
