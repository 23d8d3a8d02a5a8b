-- ===== src/Lib.antt =====
-- A verification library for the backend of the ontology platform, in backend/ontology_platform.
--
-- The platform describes business data by ontologies: objects with attributes, subtypes and rules,
-- mapped to source tables. People review the mappings, publish an ontology, and then instances are
-- assessed against the rules; workflows move instances between states, permissions say who may do
-- what, and every request passes the access policy and the limiter. The parts modelled here:
--
-- - Base: the shared helpers. Numbers are the native ones, texts that the code only compares are
--   numbers (0 is the empty text), dictionaries are association lists in insertion order.
-- - RateLimit and Middleware: rate_limiter.py, `RateLimiter` and `RateLimitMiddleware.decide`.
--   Times are numbers of ticks. The middleware asks Policy whether a path is public.
-- - Policy: access_policy.py, `strip_version_prefix`, `is_public`, `required_capability` and
--   `register_route_policy`. A path is a list of code points; matching a regular expression is a
--   parameter.
-- - Cache: cache.py, `SimpleCache`. Pool: connection_pool.py, `ConnectionPool`, over any type of
--   connections.
-- - Page: pagination.py with the clamps of config.py.
-- - Model: the tables of database.py that the following parts read and write.
-- - Hierarchy: type_hierarchy.py, `declare_subtype`, `ancestors_of` and `expand`. The two walks over
--   the parents have the source's own bound of sixteen rounds as their fuel.
-- - Kernel: semantic_kernel.py. Kernel/Select is the query of `assess_instance` for the rules in
--   force; Kernel/Order is `order_rules_by_dependency`, whose loop runs on as much fuel as there
--   are rules, since every round but the last places one; Kernel/Verdict is the rule loop of
--   `assess_instance` and `_decision_from_results`, which Kernel/Verdict/Sandboxed runs over
--   Sandbox; Kernel/Report is `_status_counts` and `_consistency_status`.
-- - Workflow: the state machines of workflow_permission.py, with the guards of transitions and the
--   history; Workflow/Seed is `create_workflow`, Workflow/Serve sequences of calls.
-- - Permission: `check_permission`, `upsert_permission_policy` and the tool authorizations of
--   workflow_permission.py. Row filters use the guards of Workflow.
-- - Governance: governance.py, the reviews of mappings and `publish_ontology`, whose two
--   transactions see two states of the tables. Governance/Rules is the four writes of rules,
--   Governance/Derive `derive_ontology_version` with its copies; the keys that the database assigns
--   are arguments.
-- - Auth: auth.py, accounts and sessions; hashing and random tokens are parameters. A moment is in
--   microseconds.
-- - Automation: automation.py with the records of decisions.py, over the verdict of Kernel, the
--   state machines of Workflow and the executors of Registry. The rows of a preflight are committed
--   before the execution, so they stay when it raises; the requests to executors are part of the
--   state.
-- - Quotas: quotas.py, with the check as http_runtime.py calls it before a write; the rows of the
--   shared store have a `tenant_id`, which no write of the application sets.
-- - InstanceKey: instance_key.py. Texts are lists of code points; `quote` and `unquote` of urllib
--   are parameters, of which the round trip assumes that they are inverse and leave no separator.
-- - Registry: registry.py, with the loop over plugins.
-- - Sandbox: rule_sandbox.py over syntax trees. The walk of `_validate_ast` has the size of the
--   tree as its fuel, since every step takes one node from the queue. Its functions are those of
--   Registry.
-- - Derived: derived_attributes.py, the passes of `compute_derived` over any sandbox, with the
--   source's own bound of five passes.
-- - Temporal: temporal.py, `record_attribute_version`, `load_versions` with its cut, and `values_as_of`
--   for the attributes of one instance.
-- - Tests: the theorems on concrete inputs.
--
-- A transaction that raises is rolled back, so operations return the new tables or an error. The
-- kernel, the guards and the derived attributes take the evaluation of an expression as a parameter:
-- it raises, or answers with a verdict or a value and possibly an error. Python's parser and `eval`
-- are parameters of Sandbox. The release gates enter as the number of blockers.
-- Not modelled: access to source databases, the HTTP layer, text formatting, time stamps
-- and columns that no operation tests, and the parts of the backend that the list above does not
-- name.
pub mod Base
pub mod RateLimit
pub mod Policy
pub mod Middleware
pub mod Cache
pub mod Pool
pub mod Page
pub mod InstanceKey
pub mod Model
pub mod Hierarchy
pub mod Kernel
pub mod Workflow
pub mod Governance
pub mod Permission
pub mod Temporal
pub mod Auth
pub mod Automation
pub mod Quotas
pub mod Registry
pub mod Sandbox
pub mod Derived
pub mod Tests
