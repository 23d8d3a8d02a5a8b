-- ===== src/Registry/Entries.antt =====
-- What is looked up in a registry of backend/ontology_platform/registry.py after other calls.
use aletheia_onto.Base.{
  ℕ, ◌≡◌, inl, inr, refl, sym, ◌∙◌, ap, Bool, true, false, not, none, some, List, [], ◌∷◌, arith,
  ◌==◌, ==→eq, if◌then◌else◌, contains, Text, is_set, Dict, lookup, lookup_or, lookup-insert,
  insert, Result, ok, err, raise_if_returned, Bool-cases,
}
use aletheia_onto.Registry.{
  Registry, RegistryError, is_taken, insert_name, register, try_get, resolve, names,
}

contains-insert_name :
    (x n : Text) (ns : List Text)
    → contains x (insert_name n ns) ≡ (if x == n then true else contains x ns)
unfolding insert_name
contains-insert_name x n [] = refl
contains-insert_name x n (m ∷ ns) = ground (arith, contains-insert_name x n ns)

-- `names` lists exactly the keys.
pub contains-names :
    (x : Text) (entries : Dict ℕ)
    → contains x (names entries) ≡ elim (lookup x entries) [ none ↦ false | some i ↦ true ]
unfolding names
contains-names x [] = refl
contains-names x ((n, i) ∷ entries) =
    contains-insert_name x n (names entries) ∙ ground (arith, contains-names x entries)

module _ (normalize : Text → Text) where
  -- A registration that returned.
  pub register_returned :
      (r : Registry) (name : Text) (i : ℕ) (replace : Bool) (after : Registry)
      → register normalize r name i replace ≡ ok after
      → (after.aliases ≡ r.aliases)
        × (after.entries ≡ insert (normalize name) i r.entries)
        × (is_taken (lookup (normalize name) r.entries) i replace ≡ false)
  unfolding register
  register_returned r name i replace after h =
      let (set, h₁) = raise_if_returned (not (is_set (normalize name))) _ _ after h in
      let (free, h₂) =
        raise_if_returned (is_taken (lookup (normalize name) r.entries) i replace) _ _ after h₁ in
      (ground (arith, h₂), ground (arith, h₂), free)

  -- Registrations of plugins, in turn; none asks for a replacement, and one that raises is logged
  -- and leaves the registry as it was.
  abbrev pub kept : Registry → Result RegistryError Registry → Registry
  kept r (ok after) = after
  kept r (err e) = r

  unfoldable pub register_all : Registry → List (Text × ℕ) → Registry
  unfolding register
  register_all r [] = r
  register_all r ((name, i) ∷ plugins) =
      register_all (kept r (register normalize r name i false)) plugins

  register-lookup :
      (r : Registry) (name key : Text) (i j : ℕ)
      → lookup key r.entries ≡ some j
      → lookup key (kept r (register normalize r name i false)).entries ≡ some j
  register-lookup r name key i j h = step (register normalize r name i false) refl
    where
      step :
          (outcome : Result RegistryError Registry)
          → register normalize r name i false ≡ outcome
          → lookup key (kept r outcome).entries ≡ some j
      step (err e) out = h
      step (ok after) out =
          let (aliases, entries, free) = register_returned r name i false after out in
          rw (entries, lookup-insert key (normalize name) i r.entries)
            (elim (Bool-cases (key == normalize name)) [
              | inr e ↦ rw e h
              | inl e ↦
                  let there : lookup (normalize name) r.entries ≡ some j =
                    ap (λ k. lookup k r.entries) (sym (==→eq key (normalize name) e)) ∙ h in
                  rw e (ground (arith, rw there at free))
            ])

  register-aliases :
      (r : Registry) (name : Text) (i : ℕ)
      → (kept r (register normalize r name i false)).aliases ≡ r.aliases
  register-aliases r name i = step (register normalize r name i false) refl
    where
      step :
          (outcome : Result RegistryError Registry)
          → register normalize r name i false ≡ outcome
          → (kept r outcome).aliases ≡ r.aliases
      step (err e) out = refl
      step (ok after) out = (register_returned r name i false after out).0

  register-try_get :
      (r : Registry) (plugin : Text) (i : ℕ) (name : Text) (j : ℕ)
      → try_get normalize r name ≡ some j
      → try_get normalize (kept r (register normalize r plugin i false)) name ≡ some j
  unfolding try_get resolve
  register-try_get r plugin i name j h =
      ap
        (λ aliases.
          lookup (lookup_or (normalize name) (normalize name) aliases)
            (kept r (register normalize r plugin i false)).entries)
        (register-aliases r plugin i)
      ∙ register-lookup r plugin (resolve normalize r name) i j h

  -- However many plugins register whatever implementations, without asking for a replacement, a
  -- name that was answered before is answered by the same implementation afterwards, whether it is
  -- an alias or not.
  pub register_all-try_get :
      (r : Registry) (plugins : List (Text × ℕ)) (name : Text) (j : ℕ)
      → try_get normalize r name ≡ some j
      → try_get normalize (register_all r plugins) name ≡ some j
  unfolding register_all
  register_all-try_get r [] name j h = h
  register_all-try_get r ((plugin, i) ∷ plugins) name j h =
      register_all-try_get (kept r (register normalize r plugin i false)) plugins name j
        (register-try_get r plugin i name j h)
