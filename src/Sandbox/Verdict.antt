-- ===== src/Sandbox/Verdict.antt =====
-- Verdicts of backend/ontology_platform/rule_sandbox.py: what has to hold for a rule to pass.
use aletheia_onto.Base.{
  ℕ, ◌≡◌, ◌↔◌, refl, sym, ◌∙◌, ap, Bool, true, not, Option, none, some, List, [], ◌∷◌, arith, ◌==◌,
  ==→eq, if◌then◌else◌, Bool-cases, inl, inr, Text, is_set, Dict, lookup, insert, lookup-insert,
  Distinct, Result, ok, err, bind_returned, raise_if_returned, or_raise_returned,
}
use aletheia_onto.Registry.{Registry, names}
use aletheia_onto.Sandbox.Tree.{Node}
use aletheia_onto.Sandbox.{
  SandboxError, Python, Validation, as_raised, verdict, update_functions, allowed_names,
  validate_ast, validate_rule_expression, evaluate_expression_value, evaluate_rule_expression,
}
use aletheia_onto.Sandbox.Walk.{IsSafe, validate_ast_iff}

module _ {V : Type 0} where
  -- The registered function, or else the column.
  abbrev pub function_or : (ℕ → V) → Option ℕ → Option V → Option V
  function_or function none column = column
  function_or function (some i) column = some (function i)

  lookup-update_functions :
      (function : ℕ → V) (n : Text) (entries : Dict ℕ) (context : Dict V)
      → Distinct entries
      → lookup n (update_functions function entries context)
        ≡ function_or function (lookup n entries) (lookup n context)
  unfolding update_functions
  lookup-update_functions function n [] context h = refl
  lookup-update_functions function n ((m, i) ∷ entries) context h =
      let rest = lookup-update_functions function n entries (insert m (function i) context) h.1 in
      elim (Bool-cases (n == m)) [
        | inr e ↦
            let same : lookup n (insert m (function i) context) ≡ lookup n context =
              lookup-insert n m (function i) context ∙ rw e refl in
            rw e (rest ∙ ap (function_or function (lookup n entries)) same)
        | inl e ↦
            let gone : lookup n entries ≡ none = ap (λ k. lookup k entries) (==→eq n m e) ∙ h.0 in
            let here : lookup n (insert m (function i) context) ≡ some (function i) =
              lookup-insert n m (function i) context ∙ rw e refl in
            rw e (rest ∙ rw gone here)
      ]

  -- In an evaluation `None` is `None`, every registered name is the registered function, whatever
  -- columns the context has, and any other name is what the context says.
  pub lookup-allowed_names :
      (function : ℕ → V) (none_name : Text) (none_value : V) (r : Registry) (context : Dict V)
      (n : Text)
      → Distinct r.entries
      → lookup n (allowed_names function none_name none_value r context) ≡ (
          if n == none_name
          then some none_value
          else function_or function (lookup n r.entries) (lookup n context))
  unfolding allowed_names
  lookup-allowed_names function none_name none_value r context n h =
      lookup-insert n none_name none_value (update_functions function r.entries context)
      ∙ elim (Bool-cases (n == none_name)) [
        | inl e ↦ rw e refl
        | inr e ↦ rw e (lookup-update_functions function n r.entries context h)
      ]

  module _ (python : Python V) (r : Registry) (text : Text) (context : Dict V) where
    -- The text parses to a safe tree, whose evaluation returns a true value.
    abbrev pub Passes : Type 0
    Passes =
        (tree : Node) × (python.parse text ≡ some tree)
        × IsSafe python.is_internal (names r.entries) tree
        × (v : V) × (python.run tree
              (allowed_names python.function python.none_name python.none_value r context)
            ≡ ok v)
        × (python.truthy v ≡ true)

    evaluated_safely :
        (v : V)
        → evaluate_expression_value python r text context ≡ ok v
        → python.truthy v ≡ true
        → Passes
    unfolding evaluate_expression_value
    evaluated_safely v h true_value =
        let (tree, parsed, h₁) = or_raise_returned (python.parse text) _ _ v h in
        let functions = names r.entries in
        let (u, valid, h₂) =
          bind_returned (validate_ast python.is_internal functions tree) _ v h₁ in
        let outcome =
          python.run tree
            (allowed_names python.function python.none_name python.none_value r context) in
        (
          tree,
          parsed,
          (validate_ast_iff python.is_internal functions tree).0.0 valid,
          v,
          unraised outcome v h₂,
          true_value,
        )
      where
        unraised : (o : Result Text V) (v : V) → as_raised o ≡ ok v → o ≡ ok v
        unraised (ok w) v h = ground (arith, h)
        unraised (err e) v h = absurd (ground (arith, h))

    passed :
        (outcome : Result SandboxError V)
        → verdict python.truthy outcome ≡ (true, none)
        → (v : V) × (outcome ≡ ok v) × (python.truthy v ≡ true)
    passed (ok v) h = (v, refl, ap (λ (p : Bool × Option SandboxError). p.0) h)
    passed (err e) h = absurd (ground (arith, h))

    -- A rule passes exactly if its text parses to a safe tree and the evaluation of that tree, with
    -- the registered functions and the names of the context, returns a value that counts as true:
    -- a text that does not parse, a tree that is refused and an evaluation that raises do not pass.
    pub evaluate_rule_expression_passes :
        (evaluate_rule_expression python r text context ≡ (true, none)) ↔ Passes
    unfolding evaluate_rule_expression evaluate_expression_value
    evaluate_rule_expression_passes = (
      (λ h.
          let (v, value, true_value) = passed (evaluate_expression_value python r text context) h in
          evaluated_safely v value true_value),
      (λ p.
          let (tree, parsed, safe, v, run, true_value) = p in
          let valid = (validate_ast_iff python.is_internal (names r.entries) tree).0.1 safe in
          rw (parsed, valid, run, true_value) refl),
    )

    -- If a rule was found valid when it was written, under the functions that are registered, and
    -- stripping leaves its text as it is, then its evaluation is never refused: it is what Python
    -- makes of the tree, a value or an error that it raises.
    pub validated_rule_runs :
        (strip : Text → Text) (available : Option (List Text)) (answer : Validation)
        → strip text ≡ text
        → validate_rule_expression strip python.parse python.is_internal
            (names r.entries)
            python.none_name
            text
            available
          ≡ ok answer
        → (tree : Node) × (python.parse text ≡ some tree)
          × (evaluate_expression_value python r text context
              ≡ as_raised (
                  python.run tree
                    (allowed_names python.function python.none_name python.none_value r context)))
    unfolding validate_rule_expression evaluate_expression_value
    validated_rule_runs strip available answer bare h =
        let (given, h₁) = raise_if_returned (not (is_set (strip text))) _ _ answer h in
        let (tree, parsed, h₂) = or_raise_returned (python.parse (strip text)) _ _ answer h₁ in
        let (u, valid, h₃) =
          bind_returned (validate_ast python.is_internal (names r.entries) tree) _ answer h₂ in
        let same : python.parse text ≡ some tree = ap python.parse (sym bare) ∙ parsed in
        (tree, same, rw (same, valid) refl)
