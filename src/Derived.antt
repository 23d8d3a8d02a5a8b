-- ===== src/Derived.antt =====
-- Derived attributes: backend/ontology_platform/derived_attributes.py. The rule sandbox is a
-- parameter, as the module has it injected; an error that it returns is not the empty text. `N` is
-- the type of the plain numbers.
pub mod Passes
pub mod Seen
pub mod Consistent
pub mod Exits
pub mod Covered
pub mod Depth
use aletheia_onto.Base.{
  ℕ, zero, suc, ◌≡◌, Bool, true, false, not, Option, none, some, List, [], ◌∷◌, length, ◌==◌,
  if◌then◌else◌, Text, is_set, Dict, lookup, insert, Result, ok, err,
}

-- What an expression yields: a `Quantity` is a number with its unit.
pub data Value (N : Type 0) : Type 0 where
  missing : Value N
  flag : Bool → Value N
  number : N → Value N
  quantity : N → Text → Value N
  text : Text → Value N

pub record DerivedSpec : Type 0 where
  pub code : Text
  pub name : Text
  pub expression : Text
  pub unit : Text

-- `error` is 0 if the value was computed.
pub record DerivedResult (N : Type 0) : Type 0 where
  pub name : Text
  pub value : Value N
  pub expression : Text
  pub unit : Text
  pub error : Text

abbrev pub computed : {N : Type 0} → DerivedResult N → Bool
computed r = not (is_set r.error)

-- `MAX_DERIVATION_PASSES`
abbrev pub max_derivation_passes : ℕ
max_derivation_passes = 5

-- The text for an attribute that the passes left although its names are now there.
abbrev pub unavailable : Text
unavailable = 1

abbrev pub Context : Type 0 → Type 0
Context N = Dict (Value N)

abbrev pub Sandbox : Type 0 → Type 0
Sandbox N = Text → Context N → Result Text (Value N)

-- The values computed so far, as results and in the context.
pub record Progress (N : Type 0) : Type 0 where
  pub working : Context N
  pub results : Dict (DerivedResult N)

module _ {N : Type 0} where
  -- `Quantity(value, spec.unit)` of a number, also of one that has a unit.
  unfoldable pub with_unit : Text → Value N → Value N
  with_unit unit (number n) = if is_set unit then quantity n unit else number n
  with_unit unit (quantity n u) = if is_set unit then quantity n unit else quantity n u
  with_unit unit missing = missing
  with_unit unit (flag b) = flag b
  with_unit unit (text t) = text t

  unfoldable pub computed_result : DerivedSpec → Value N → DerivedResult N
  unfolding with_unit
  computed_result spec value = record {
    name = spec.name;
    value = with_unit spec.unit value;
    expression = spec.expression;
    unit = spec.unit;
    error = 0;
  }

  unfoldable pub add_value : DerivedSpec → Value N → Progress N → Progress N
  unfolding computed_result with_unit
  add_value spec value p = record {
    working = insert spec.code (with_unit spec.unit value) p.working;
    results = insert spec.code (computed_result spec value) p.results;
  }

  -- One pass over the pending attributes: the progress after it and those deferred.
  unfoldable pub derive_pass :
      Sandbox N → List DerivedSpec → Progress N → Progress N × List DerivedSpec
  unfolding add_value
  derive_pass evaluate [] p = (p, [])
  derive_pass evaluate (spec ∷ specs) p = elim (evaluate spec.expression p.working) [
    | ok value ↦ derive_pass evaluate specs (add_value spec value p)
    | err e ↦ let (after, deferred) = derive_pass evaluate specs p in (after, spec ∷ deferred)
  ]

  -- The passes; `progressed` is that a pass deferred fewer than were pending.
  unfoldable pub derive_passes :
      Sandbox N → ℕ → List DerivedSpec → Progress N → Progress N × List DerivedSpec
  unfolding derive_pass
  derive_passes evaluate zero pending p = (p, pending)
  derive_passes evaluate (suc passes) [] p = (p, [])
  derive_passes evaluate (suc passes) (spec ∷ specs) p =
      let (after, deferred) = derive_pass evaluate (spec ∷ specs) p in
      let rest = derive_passes evaluate passes deferred after in
      if length deferred == suc (length specs) then (after, deferred) else rest

  abbrev pub reason : Result Text (Value N) → Text
  reason (ok value) = unavailable
  reason (err e) = if is_set e then e else unavailable

  abbrev pub failed_result : Sandbox N → Context N → DerivedSpec → DerivedResult N
  failed_result evaluate working spec = record {
    name = spec.name;
    value = missing;
    expression = spec.expression;
    unit = spec.unit;
    error = reason (evaluate spec.expression working);
  }

  unfoldable pub report_pending :
      Sandbox N → Context N → List DerivedSpec → Dict (DerivedResult N) → Dict (DerivedResult N)
  report_pending evaluate working [] results = results
  report_pending evaluate working (spec ∷ specs) results =
      report_pending evaluate working specs
        (insert spec.code (failed_result evaluate working spec) results)

  unfoldable pub compute_derived : Sandbox N → List DerivedSpec → Context N → Dict (DerivedResult N)
  unfolding derive_passes report_pending
  compute_derived evaluate specs context =
      let (p, pending) =
        derive_passes evaluate max_derivation_passes specs
          (record { working = context; results = [] }) in
      report_pending evaluate p.working pending p.results

  -- The values that the rules see.
  unfoldable pub derived_context : Dict (DerivedResult N) → Context N
  derived_context [] = []
  derived_context ((code, r) ∷ results) =
      let rest = derived_context results in if computed r then (code, r.value) ∷ rest else rest
