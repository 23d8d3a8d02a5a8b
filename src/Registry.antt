-- ===== src/Registry.antt =====
-- Extension points: backend/ontology_platform/registry.py. Names are numbered texts, their
-- normalization (`strip` and `lower`) is a parameter, and an implementation is the identity of the
-- object.
pub mod Entries
use aletheia_onto.Base.{
  ℕ, Bool, true, false, not, Option, none, some, List, [], ◌∷◌, ◌==◌, leb, ◌&&◌, if◌then◌else◌,
  Text, is_set, Dict, lookup, lookup_or, insert, erase, Result, ok, err, ◌>>=◌, ◌>>◌, raise_if,
  or_raise,
}

pub record Registry : Type 0 where
  pub aliases : Dict Text
  pub entries : Dict ℕ

pub data RegistryError : Type 0 where
  empty_name taken unsupported : RegistryError

-- `existing is not None and existing is not implementation and not replace`
abbrev pub is_taken : Option ℕ → ℕ → Bool → Bool
is_taken none implementation replace = false
is_taken (some existing) implementation replace = not (existing == implementation) && not replace

-- The keys in order.
unfoldable pub insert_name : Text → List Text → List Text
insert_name n [] = n ∷ []
insert_name n (m ∷ names) = if leb n m then n ∷ m ∷ names else m ∷ insert_name n names

module _ (normalize : Text → Text) where
  unfoldable pub register : Registry → Text → ℕ → Bool → Result RegistryError Registry
  register r name implementation replace = do
    raise_if (not (is_set (normalize name))) empty_name
    raise_if (is_taken (lookup (normalize name) r.entries) implementation replace) taken
    ok (record r { entries = insert (normalize name) implementation r.entries })

  unfoldable pub unregister : Registry → Text → Registry
  unregister r name = record r { entries = erase (normalize name) r.entries }

  -- `self.aliases.get(key, key)`
  unfoldable pub resolve : Registry → Text → Text
  resolve r name = lookup_or (normalize name) (normalize name) r.aliases

  unfoldable pub get : Registry → Text → Result RegistryError ℕ
  unfolding resolve
  get r name = or_raise (lookup (resolve r name) r.entries) unsupported

  unfoldable pub try_get : Registry → Text → Option ℕ
  unfolding resolve
  try_get r name = lookup (resolve r name) r.entries

  unfoldable pub contains_name : Registry → Text → Bool
  unfolding try_get resolve
  contains_name r name = elim (try_get r name) [ none ↦ false | some i ↦ true ]

  unfoldable pub alias : Registry → Text → Text → Registry
  alias r name target = record r { aliases = insert (normalize name) (normalize target) r.aliases }

unfoldable pub names : Dict ℕ → List Text
unfolding insert_name
names [] = []
names ((n, i) ∷ entries) = insert_name n (names entries)
