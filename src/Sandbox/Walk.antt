-- ===== src/Sandbox/Walk.antt =====
-- What `_validate_ast` of backend/ontology_platform/rule_sandbox.py accepts, by the shape of the
-- tree instead of the order of the walk.
use aletheia_onto.Base.{
  ℕ, zero, suc, ◌≤◌, ◌≡◌, ◌↔◌, ◌≢◌, refl, Bool, true, false, not, arith, List, Text, Bool-cases,
  inl, inr, contains, Result, ok, err, ◌>>◌, raise_if_returned, bind_returned,
}
use aletheia_onto.Sandbox.Tree.{
  Node, Nodes, nil, cons, expression, name, attribute, call, allowed, other, children, append_nodes,
  size, size_all, size_all-append_nodes, size-children,
}
use aletheia_onto.Sandbox.{
  SandboxError, out_of_fuel, is_nil, is_registered, check_node, validate_queue, validate_ast,
}

module _ (is_internal : Text → Bool) (functions : List Text) where
  -- Only allowed classes of nodes occur, every call is of a registered function by its bare name
  -- and without keywords, and no internal attribute is read.
  unfoldable mutual
    pub IsSafe : Node → Type 0
    IsSafe (expression body) = IsSafe body
    IsSafe (name id) = Unit
    IsSafe (attribute value attr) = (is_internal attr ≡ false) × IsSafe value
    IsSafe (call func arguments keywords) =
        ((id : Text) × (func ≡ name id) × (contains id functions ≡ true))
        × (keywords ≡ nil)
        × AreSafe arguments
    IsSafe (allowed type ns) = AreSafe ns
    IsSafe (other type ns) = ⊥

    pub AreSafe : Nodes → Type 0
    AreSafe nil = Unit
    AreSafe (cons n ns) = IsSafe n × AreSafe ns

  AreSafe-append_nodes : (ns ms : Nodes) → AreSafe (append_nodes ns ms) ↔ (AreSafe ns × AreSafe ms)
  unfolding append_nodes IsSafe
  AreSafe-append_nodes nil ms = ((λ h. (tt, h)), (λ h. h.1))
  AreSafe-append_nodes (cons n ns) ms =
      let ih = AreSafe-append_nodes ns ms in
      ((λ h. let both = ih.0 h.1 in ((h.0, both.0), both.1)), (λ h. (h.0.0, ih.1 (h.0.1, h.1))))

  registered_name :
      (func : Node)
      → is_registered functions func ≡ true
      → (id : Text) × (func ≡ name id) × (contains id functions ≡ true)
  registered_name (name id) h = (id, refl, h)
  registered_name (expression body) h = absurd (ground (arith, h))
  registered_name (attribute value attr) h = absurd (ground (arith, h))
  registered_name (call func arguments keywords) h = absurd (ground (arith, h))
  registered_name (allowed type ns) h = absurd (ground (arith, h))
  registered_name (other type ns) h = absurd (ground (arith, h))

  no_keywords : (keywords : Nodes) → is_nil keywords ≡ true → keywords ≡ nil
  no_keywords nil h = refl
  no_keywords (cons n ns) h = absurd (ground (arith, h))

  -- A node that is accepted with its children is safe.
  check_node-IsSafe :
      (n : Node) → check_node is_internal functions n ≡ ok tt → AreSafe (children n) → IsSafe n
  unfolding check_node children append_nodes IsSafe
  check_node-IsSafe (expression body) h s = s.0
  check_node-IsSafe (name id) h s = tt
  check_node-IsSafe (attribute value attr) h s = elim (Bool-cases (is_internal attr)) [
    | inr e ↦ (e, s.0)
    | inl e ↦ absurd (ground (arith, e, h))
  ]
  check_node-IsSafe (call func arguments keywords) h s =
      let (named, h₁) = raise_if_returned (not (is_registered functions func)) _ _ tt h in
      let (bare, h₂) = raise_if_returned (not (is_nil keywords)) _ _ tt h₁ in
      (
        registered_name func (ground (arith, named)),
        no_keywords keywords (ground (arith, bare)),
        ((AreSafe-append_nodes arguments keywords).0 s.1).0,
      )
  check_node-IsSafe (allowed type ns) h s = s
  check_node-IsSafe (other type ns) h s = absurd (ground (arith, h))

  IsSafe-check_node :
      (n : Node) → IsSafe n → (check_node is_internal functions n ≡ ok tt) × AreSafe (children n)
  unfolding check_node children append_nodes IsSafe
  IsSafe-check_node (expression body) s = (refl, (s, tt))
  IsSafe-check_node (name id) s = (refl, tt)
  IsSafe-check_node (attribute value attr) s = (rw s.0 refl, (s.1, tt))
  IsSafe-check_node (call func arguments keywords) s =
      let ((id, named, registered), bare, safe) = s in
      (
        rw (named, registered, bare) refl,
        (rw named tt, (AreSafe-append_nodes arguments keywords).1 (safe, rw bare tt)),
      )
  IsSafe-check_node (allowed type ns) s = (refl, s)
  IsSafe-check_node (other type ns) s = absurd s

  -- One step of the walk does not change how much there is to walk.
  queue_size :
      (n : Node) (ns : Nodes) → size_all (cons n ns) ≡ suc (size_all (append_nodes ns (children n)))
  unfolding size
  queue_size n ns = omega (arith, size-children n, size_all-append_nodes ns (children n))

  validate_queue-AreSafe :
      (fuel : ℕ) (ns : Nodes) → validate_queue is_internal functions fuel ns ≡ ok tt → AreSafe ns
  unfolding validate_queue IsSafe
  validate_queue-AreSafe fuel nil h = tt
  validate_queue-AreSafe zero (cons n ns) h = absurd (ground (arith, h))
  validate_queue-AreSafe (suc fuel) (cons n ns) h =
      let (u, here, h₁) = bind_returned (check_node is_internal functions n) _ tt h in
      let safe =
        (AreSafe-append_nodes ns (children n)).0
          (validate_queue-AreSafe fuel (append_nodes ns (children n)) h₁) in
      (check_node-IsSafe n here safe.1, safe.0)

  AreSafe-validate_queue :
      (fuel : ℕ) (ns : Nodes)
      → size_all ns ≤ fuel
      → AreSafe ns
      → validate_queue is_internal functions fuel ns ≡ ok tt
  unfolding validate_queue IsSafe
  AreSafe-validate_queue fuel nil le s = refl
  AreSafe-validate_queue zero (cons n ns) le s = absurd (omega (arith, le, queue_size n ns))
  AreSafe-validate_queue (suc fuel) (cons n ns) le s =
      let (here, below) = IsSafe-check_node n s.0 in
      let rest =
        AreSafe-validate_queue fuel (append_nodes ns (children n))
          (omega (arith, le, queue_size n ns))
          ((AreSafe-append_nodes ns (children n)).1 (s.1, below)) in
      rw (here, rest) refl

  check_node-fuel : (n : Node) → check_node is_internal functions n ≢ err out_of_fuel
  unfolding check_node
  check_node-fuel (expression body) h = ground (arith, h)
  check_node-fuel (name id) h = ground (arith, h)
  check_node-fuel (attribute value attr) h = ground (arith, h)
  check_node-fuel (call func arguments keywords) h = ground (arith, h)
  check_node-fuel (allowed type ns) h = ground (arith, h)
  check_node-fuel (other type ns) h = ground (arith, h)

  validate_queue-fuel :
      (fuel : ℕ) (ns : Nodes)
      → size_all ns ≤ fuel
      → validate_queue is_internal functions fuel ns ≢ err out_of_fuel
  unfolding validate_queue
  validate_queue-fuel fuel nil le h = ground (arith, h)
  validate_queue-fuel zero (cons n ns) le h = absurd (omega (arith, le, queue_size n ns))
  validate_queue-fuel (suc fuel) (cons n ns) le h =
      let rest =
        validate_queue-fuel fuel (append_nodes ns (children n))
          (omega (arith, le, queue_size n ns)) in
      after (check_node is_internal functions n)
        (validate_queue is_internal functions fuel (append_nodes ns (children n)))
        (check_node-fuel n) rest h
    where
      after :
          (a b : Result SandboxError (Unit {0}))
          → a ≢ err out_of_fuel
          → b ≢ err out_of_fuel
          → (a >> b) ≢ err out_of_fuel
      after (ok u) b na nb h = nb h
      after (err e) b na nb h = na h

  -- The walk over a tree accepts it exactly if it is safe: only allowed classes of nodes occur in
  -- it, every call is of a registered function by its bare name and without keywords, and no
  -- internal attribute is read. The walk never runs out of the fuel that it is given.
  pub validate_ast_iff :
      (tree : Node)
      → ((validate_ast is_internal functions tree ≡ ok tt) ↔ IsSafe tree)
        × (validate_ast is_internal functions tree ≢ err out_of_fuel)
  unfolding validate_ast size IsSafe
  validate_ast_iff tree = (
    (
      (λ h. (validate_queue-AreSafe (size tree) (cons tree nil) h).0),
      (λ s. AreSafe-validate_queue (size tree) (cons tree nil) (omega arith) (s, tt)),
    ),
    validate_queue-fuel (size tree) (cons tree nil) (omega arith),
  )
