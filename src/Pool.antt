-- ===== src/Pool.antt =====
-- `ConnectionPool` of backend/ontology_platform/connection_pool.py. A key stands for the triple
-- of database type, URI and schema, which the code only compares. What `factory()` opens and
-- whether a connection can be handed back (its rollback works and it is not closed) belong to the
-- database driver: they are arguments. The lock makes each operation one step.
pub mod Keyed
use aletheia_onto.Base.{
  ℕ, suc, ◌+◌, Bool, true, false, Option, none, some, List, [], ◌∷◌, ◌++◌, leb, ltb, length,
  if◌then◌else◌, Text, Dict, lookup, lookup_or, insert,
}

abbrev pub max_idle_per_key : ℕ
max_idle_per_key = 8

pub record ConnectionPool (Conn : Type 0) : Type 0 where
  pub size : ℕ
  pub idle : Dict (List Conn)
  pub opened : ℕ
  pub reused : ℕ
  -- The connections that were closed, the latest first.
  pub closed : List Conn

module _ {Conn : Type 0} where
  unfoldable pub is_enabled : ConnectionPool Conn → Bool
  is_enabled p = ltb 0 p.size

  -- The last element, and those before it: `idle.pop()`.
  unfoldable pub pop_last : List Conn → Option (List Conn × Conn)
  pop_last [] = none
  pop_last (x ∷ xs) = elim (pop_last xs) [ none ↦ some ([], x) | some (ys, y) ↦ some (x ∷ ys, y) ]

  -- `fresh` is what `factory()` would open.
  unfoldable pub acquire : ConnectionPool Conn → Text → Conn → ConnectionPool Conn × Conn
  acquire p key fresh =
      if is_enabled p
      then (elim (pop_last (lookup_or [] key p.idle)) [
        | none ↦ (record p { opened = p.opened + 1 }, fresh)
        | some (rest, conn) ↦
            (record p { idle = insert key rest p.idle; reused = p.reused + 1 }, conn)
      ])
      else (p, fresh)

  unfoldable pub discard : ConnectionPool Conn → Conn → ConnectionPool Conn
  discard p conn = record p { closed = conn ∷ p.closed }

  -- Putting a connection into the bucket of its key, where the oldest makes room.
  unfoldable pub shelve : ConnectionPool Conn → Text → Conn → List Conn → ConnectionPool Conn
  shelve p key conn [] = record p { idle = insert key (conn ∷ []) p.idle }
  shelve p key conn (stale ∷ bucket) =
      if leb max_idle_per_key (length (stale ∷ bucket))
      then (record p { idle = insert key (bucket ++ conn ∷ []) p.idle; closed = stale ∷ p.closed })
      else record p { idle = insert key (stale ∷ bucket ++ conn ∷ []) p.idle }

  -- `none` is the release of no connection; `returnable` says that the rollback went through and
  -- the connection is open.
  unfoldable pub release :
      (Conn → Bool) → ConnectionPool Conn → Text → Option Conn → ConnectionPool Conn
  release returnable p key none = p
  release returnable p key (some conn) =
      if is_enabled p
      then (if returnable conn then shelve p key conn (lookup_or [] key p.idle) else discard p conn)
      else p

  unfoldable pub all_idle : Dict (List Conn) → List Conn
  all_idle [] = []
  all_idle ((key, bucket) ∷ d) = bucket ++ all_idle d

  unfoldable pub clear : ConnectionPool Conn → ConnectionPool Conn
  unfolding all_idle
  clear p = record p { idle = []; closed = all_idle p.idle ++ p.closed }
