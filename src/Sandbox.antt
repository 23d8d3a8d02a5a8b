-- ===== src/Sandbox.antt =====
-- The rule sandbox: backend/ontology_platform/rule_sandbox.py, over the syntax trees of Python's
-- `ast`. Parsing, which the text goes through after `_normalize_expression`, and `eval` are
-- parameters.
pub mod Tree
pub mod Walk
pub mod Verdict
use aletheia_onto.Base.{
  ℕ, zero, suc, Bool, true, false, not, Option, none, some, List, [], ◌∷◌, keep, ◌==◌, ltb, ◌&&◌,
  if◌then◌else◌, Text, is_set, contains, Dict, lookup, insert, Result, ok, err, ◌>>=◌, ◌>>◌,
  raise_if, or_raise,
}
use aletheia_onto.Registry.{Registry, RegistryError, register, names}
use aletheia_onto.Sandbox.Tree.{
  Node, Nodes, nil, cons, expression, name, attribute, call, allowed, other, children, append_nodes,
  size, size_all,
}

pub data SandboxError : Type 0 where
  forbidden_node : Text → SandboxError
  forbidden_call keywords_given : SandboxError
  internal_attribute : Text → SandboxError
  not_parsed out_of_fuel : SandboxError
  raised : Text → SandboxError

abbrev pub is_nil : Nodes → Bool
is_nil nil = true
is_nil (cons n ns) = false

-- `isinstance(node.func, ast.Name) and node.func.id in allowed`
abbrev pub is_registered : List Text → Node → Bool
is_registered functions (name id) = contains id functions
is_registered functions _ = false

-- The body of the loop of `_validate_ast`; `is_internal` is `startswith("__")`.
unfoldable pub check_node : (Text → Bool) → List Text → Node → Result SandboxError (Unit {0})
check_node is_internal functions (other type children) = err (forbidden_node type)
check_node is_internal functions (call func arguments keywords) = do
  raise_if (not (is_registered functions func)) forbidden_call
  raise_if (not (is_nil keywords)) keywords_given
  ok tt
check_node is_internal functions (attribute value attr) =
    raise_if (is_internal attr) (internal_attribute attr)
check_node is_internal functions (name id) = ok tt
check_node is_internal functions (expression body) = ok tt
check_node is_internal functions (allowed type children) = ok tt

-- The loop over `ast.walk`: a queue, from whose front a node is taken and at whose end its children
-- are put. Each step takes one node, so the size of the tree is enough fuel.
unfoldable pub validate_queue :
    (Text → Bool) → List Text → ℕ → Nodes → Result SandboxError (Unit {0})
unfolding check_node
validate_queue is_internal functions fuel nil = ok tt
validate_queue is_internal functions zero (cons n ns) = err out_of_fuel
validate_queue is_internal functions (suc fuel) (cons n ns) =
    check_node is_internal functions n
    >> validate_queue is_internal functions fuel (append_nodes ns (children n))

unfoldable pub validate_ast : (Text → Bool) → List Text → Node → Result SandboxError (Unit {0})
unfolding validate_queue
validate_ast is_internal functions tree =
    validate_queue is_internal functions (size tree) (cons tree nil)

-- The names in a tree other than functions and `None`.
abbrev pub is_reference : List Text → Text → Text → Bool
is_reference functions none_name id = not (contains id functions) && not (id == none_name)

-- `sorted({...})`
unfoldable pub insert_reference : Text → List Text → List Text
insert_reference n [] = n ∷ []
insert_reference n (m ∷ ns) =
    if n == m then m ∷ ns else if ltb n m then n ∷ m ∷ ns else m ∷ insert_reference n ns

abbrev pub add_reference : List Text → Text → Node → List Text → List Text
add_reference functions none_name (name id) found =
    if is_reference functions none_name id then insert_reference id found else found
add_reference functions none_name _ found = found

unfoldable pub references_queue : List Text → Text → ℕ → Nodes → List Text
unfolding insert_reference
references_queue functions none_name fuel nil = []
references_queue functions none_name zero (cons n ns) = []
references_queue functions none_name (suc fuel) (cons n ns) =
    add_reference functions none_name n
      (references_queue functions none_name fuel (append_nodes ns (children n)))

-- The answer of `validate_rule_expression` for a valid expression.
pub record Validation : Type 0 where
  pub referenced : List Text
  pub unknown : List Text

unfoldable pub unknown_names : Option (List Text) → List Text → List Text
unknown_names none referenced = []
unknown_names (some known) referenced = keep (λ n. not (contains n known)) referenced

unfoldable pub validate_rule_expression :
    (Text → Text)
    → (Text → Option Node)
    → (Text → Bool)
    → List Text
    → Text
    → Text
    → Option (List Text)
    → Result SandboxError Validation
unfolding validate_ast references_queue unknown_names
validate_rule_expression strip parse is_internal functions none_name text available = do
  raise_if (not (is_set (strip text))) not_parsed
  tree ← or_raise (parse (strip text)) not_parsed
  validate_ast is_internal functions tree
  let referenced = references_queue functions none_name (size tree) (cons tree nil) in
      ok (record { referenced = referenced; unknown = unknown_names available referenced })

-- What an evaluation is given: the parser, the test of an attribute, `eval`, the values that
-- stand for the registered functions and for `None`, and truthiness.
pub record Python (V : Type 0) : Type 0 where
  pub parse : Text → Option Node
  pub is_internal : Text → Bool
  pub run : Node → Dict V → Result Text V
  pub function : ℕ → V
  pub none_name : Text
  pub none_value : V
  pub truthy : V → Bool

module _ {V : Type 0} where
  -- `names.update(...)` of the registered functions.
  unfoldable pub update_functions : (ℕ → V) → Dict ℕ → Dict V → Dict V
  update_functions function [] names = names
  update_functions function ((n, i) ∷ entries) names =
      update_functions function entries (insert n (function i) names)

  -- `_allowed_names`
  unfoldable pub allowed_names : (ℕ → V) → Text → V → Registry → Dict V → Dict V
  unfolding update_functions
  allowed_names function none_name none_value r context =
      insert none_name none_value (update_functions function r.entries context)

  abbrev pub as_raised : Result Text V → Result SandboxError V
  as_raised (ok v) = ok v
  as_raised (err e) = err (raised e)

  unfoldable pub evaluate_expression_value :
      Python V → Registry → Text → Dict V → Result SandboxError V
  unfolding validate_ast allowed_names
  evaluate_expression_value python r text context = do
    tree ← or_raise (python.parse text) not_parsed
    validate_ast python.is_internal (names r.entries) tree
    as_raised (
        python.run tree
          (allowed_names python.function python.none_name python.none_value r context))

  abbrev pub verdict : (V → Bool) → Result SandboxError V → Bool × Option SandboxError
  verdict truthy (ok v) = (truthy v, none)
  verdict truthy (err e) = (false, some e)

  unfoldable pub evaluate_rule_expression :
      Python V → Registry → Text → Dict V → Bool × Option SandboxError
  unfolding evaluate_expression_value
  evaluate_rule_expression python r text context =
      verdict python.truthy (evaluate_expression_value python r text context)
