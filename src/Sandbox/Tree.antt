-- ===== src/Sandbox/Tree.antt =====
-- Syntax trees of Python's `ast`, as backend/ontology_platform/rule_sandbox.py looks at them: by
-- class, with what it reads of calls, names and attributes. The classes of `ALLOWED_AST_NODES`
-- that it does not look into are `allowed`, all that are not listed there are `other`.
use aletheia_onto.Base.{ℕ, suc, ◌+◌, ◌≡◌, refl, arith, Text}

mutual
  pub data Node : Type 0 where
    expression : Node → Node
    name : Text → Node
    attribute : Node → Text → Node
    call : Node → Nodes → Nodes → Node
    allowed : Text → Nodes → Node
    other : Text → Nodes → Node

  pub data Nodes : Type 0 where
    nil : Nodes
    cons : Node → Nodes → Nodes

unfoldable pub append_nodes : Nodes → Nodes → Nodes
append_nodes nil ms = ms
append_nodes (cons n ns) ms = cons n (append_nodes ns ms)

-- `ast.iter_child_nodes`, less the contexts of names and attributes, which are always allowed.
unfoldable pub children : Node → Nodes
unfolding append_nodes
children (expression body) = cons body nil
children (name id) = nil
children (attribute value attr) = cons value nil
children (call func arguments keywords) = cons func (append_nodes arguments keywords)
children (allowed type ns) = ns
children (other type ns) = ns

-- How many nodes a walk visits.
unfoldable mutual
  pub size : Node → ℕ
  size (expression body) = suc (size body)
  size (name id) = 1
  size (attribute value attr) = suc (size value)
  size (call func arguments keywords) = suc (size func + (size_all arguments + size_all keywords))
  size (allowed type ns) = suc (size_all ns)
  size (other type ns) = suc (size_all ns)

  pub size_all : Nodes → ℕ
  size_all nil = 0
  size_all (cons n ns) = size n + size_all ns

pub size_all-append_nodes :
    (ns ms : Nodes) → size_all (append_nodes ns ms) ≡ size_all ns + size_all ms
unfolding append_nodes size
size_all-append_nodes nil ms = omega arith
size_all-append_nodes (cons n ns) ms = omega (arith, size_all-append_nodes ns ms)

-- A node is one more than its children.
pub size-children : (n : Node) → size n ≡ suc (size_all (children n))
unfolding children size
size-children (expression body) = omega arith
size-children (name id) = refl
size-children (attribute value attr) = omega arith
size-children (call func arguments keywords) =
    omega (arith, size_all-append_nodes arguments keywords)
size-children (allowed type ns) = refl
size-children (other type ns) = refl
