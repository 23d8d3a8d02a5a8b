-- ===== src/Pool/Keyed.antt =====
-- A borrowed connection was opened for the key it is borrowed under, and no bucket outgrows its
-- cap: backend/ontology_platform/connection_pool.py.
use aletheia_onto.Base.{
  ◌≤◌, ◌≡◌, refl, ap, Bool, true, none, some, List, [], ◌∷◌, ◌++◌, arith, leb, length, Text,
  lookup_or, insert, lookup_or-insert, ◌==◌, ==→eq, ==-refl, ◌∙◌, inl, inr, Option-cases,
  Bool-cases, All, length-append,
}
use aletheia_onto.Pool.{
  ConnectionPool, max_idle_per_key, is_enabled, pop_last, acquire, discard, shelve, release,
}

module _ {Conn : Type 0} where
  pop_last-snoc : (xs : List Conn) (x : Conn) → pop_last (xs ++ x ∷ []) ≡ some (xs, x)
  unfolding pop_last
  pop_last-snoc [] x = refl
  pop_last-snoc (y ∷ xs) x = rw (pop_last-snoc xs x)

  pop_last-none : (xs : List Conn) → pop_last xs ≡ none → xs ≡ []
  unfolding pop_last
  pop_last-none [] e = refl
  pop_last-none (x ∷ xs) e = absurd (ground arith)

  pop_last-some : (xs ys : List Conn) (y : Conn) → pop_last xs ≡ some (ys, y) → xs ≡ ys ++ y ∷ []
  unfolding pop_last
  pop_last-some [] ys y e = absurd (ground arith)
  pop_last-some (x ∷ xs) ys y e = elim (Option-cases (pop_last xs)) [
    | inl none_left ↦ ground (arith, pop_last-none xs none_left)
    | inr ((zs, z), found) ↦ ground (arith, pop_last-some xs zs z found)
  ]

  -- What is idle under a key was opened for that key, and no bucket holds more than its cap.
  pub record Keeps (OpenedFor : Conn → Text → Type 0) (p : ConnectionPool Conn) : Type 0 where
    pub kept : (key : Text) → All (λ c. OpenedFor c key) (lookup_or [] key p.idle)
    pub capped : (key : Text) → length (lookup_or [] key p.idle) ≤ max_idle_per_key

  All-split : (P : Conn → Type 0) (xs ys : List Conn) → All P (xs ++ ys) → All P xs × All P ys
  All-split P [] ys a = (tt, a)
  All-split P (x ∷ xs) ys a = let (l, r) = All-split P xs ys a.1 in ((a.0, l), r)

  All-join : (P : Conn → Type 0) (xs ys : List Conn) → All P xs → All P ys → All P (xs ++ ys)
  All-join P [] ys a b = b
  All-join P (x ∷ xs) ys a b = (a.0, All-join P xs ys a.1 b)

  module _ (OpenedFor : Conn → Text → Type 0) (p : ConnectionPool Conn) (k : Keeps OpenedFor p)
      (key : Text) where
    stored-Keeps :
        (bucket : List Conn)
        → All (λ c. OpenedFor c key) bucket
        → length bucket ≤ max_idle_per_key
        → Keeps OpenedFor (record p { idle = insert key bucket p.idle })
    stored-Keeps bucket good short = record {
      kept = λ j. elim (Bool-cases (j == key)) [
        | inl same ↦
            let eq : j ≡ key = ==→eq j key same in
            rw (lookup_or-insert [] j key bucket p.idle, same, eq) good
        | inr other ↦ rw (lookup_or-insert [] j key bucket p.idle, other) (k.kept j)
      ];
      capped = λ j. ground (arith, lookup_or-insert [] j key bucket p.idle, k.capped j);
    }

    -- From a pool in which what is idle under a key was opened for it and no bucket exceeds its
    -- cap, if the factory opens connections for the key, a borrower gets a connection that was
    -- opened for its key, and the pool stays such.
    pub acquire-Keeps :
        (fresh : Conn)
        → OpenedFor fresh key
        → Keeps OpenedFor (acquire p key fresh).0 × OpenedFor (acquire p key fresh).1 key
    unfolding acquire
    acquire-Keeps fresh f = elim (Bool-cases (is_enabled p)) [
      | inr off ↦ (rw (off, acquire) k, rw (off, acquire) f)
      | inl on ↦ elim (Option-cases (pop_last (lookup_or [] key p.idle))) [
        | inl e ↦ (
          rw (on, e, acquire) (record { kept = k.kept; capped = k.capped }),
          rw (on, e, acquire) f,
        )
        | inr ((rest, conn), e) ↦
            let split : lookup_or [] key p.idle ≡ rest ++ conn ∷ [] = pop_last-some _ rest conn e in
            let (good, last) =
              All-split (λ c. OpenedFor c key) rest (conn ∷ []) (rw split at (k.kept key)) in
            let short : length rest ≤ max_idle_per_key =
              omega (arith, k.capped key, ap length split, length-append rest (conn ∷ [])) in
            let st = stored-Keeps rest good short in
            (
              rw (on, e, acquire) (record { kept = st.kept; capped = st.capped }),
              rw (on, e, acquire) last.0,
            )
      ]
    ]

    shelve-Keeps :
        (conn : Conn) (bucket : List Conn)
        → lookup_or [] key p.idle ≡ bucket
        → OpenedFor conn key
        → Keeps OpenedFor (shelve p key conn bucket)
    unfolding shelve
    shelve-Keeps conn [] e f = stored-Keeps (conn ∷ []) (f, tt) (omega arith)
    shelve-Keeps conn (stale ∷ bucket) e f =
        let old : All (λ c. OpenedFor c key) (stale ∷ bucket) = rw e at (k.kept key) in
        let grown : All (λ c. OpenedFor c key) (bucket ++ conn ∷ []) =
          All-join (λ c. OpenedFor c key) bucket (conn ∷ []) old.1 (f, tt) in
        elim (Bool-cases (leb max_idle_per_key (length (stale ∷ bucket)))) [
          | inl full ↦
              let st =
                stored-Keeps (bucket ++ conn ∷ []) grown
                  (omega (arith, k.capped key, ap length e, length-append bucket (conn ∷ []))) in
              rw full (record { kept = st.kept; capped = st.capped })
          | inr room ↦ rw room (
              stored-Keeps (stale ∷ bucket ++ conn ∷ []) (old.0, grown)
                (ground (arith, length-append bucket (conn ∷ []))))
        ]

    -- In a pool in which what is idle under a key was opened for it and no bucket exceeds its cap,
    -- a connection that comes back under the key it was opened for leaves the pool such, whether it
    -- is shelved, closed or dropped.
    pub release-Keeps :
        (returnable : Conn → Bool) (conn : Conn)
        → OpenedFor conn key
        → Keeps OpenedFor (release returnable p key (some conn))
    unfolding release discard
    release-Keeps returnable conn f = elim (Bool-cases (is_enabled p)) [
      | inr off ↦ rw (off, release) k
      | inl on ↦ elim (Bool-cases (returnable conn)) [
        | inl good ↦ rw (on, good) (shelve-Keeps conn (lookup_or [] key p.idle) refl f)
        | inr bad ↦ rw (on, bad) (record { kept = k.kept; capped = k.capped })
      ]
    ]

  acquire_last :
      (q : ConnectionPool Conn) (key : Text) (fresh conn : Conn) (ys : List Conn)
      → is_enabled q ≡ true
      → lookup_or [] key q.idle ≡ ys ++ conn ∷ []
      → (acquire q key fresh).1 ≡ conn
  unfolding acquire
  acquire_last q key fresh conn ys on e = rw (on, e, pop_last-snoc ys conn, acquire)

  shelve_last :
      (p : ConnectionPool Conn) (key : Text) (conn : Conn) (bucket : List Conn)
      → (ys : List Conn) × (lookup_or [] key (shelve p key conn bucket).idle ≡ ys ++ conn ∷ [])
        × (is_enabled (shelve p key conn bucket) ≡ is_enabled p)
  unfolding shelve is_enabled
  shelve_last p key conn [] =
      ([], rw (lookup_or-insert [] key key (conn ∷ []) p.idle, ==-refl key), refl)
  shelve_last p key conn (stale ∷ bucket) =
      elim (Bool-cases (leb max_idle_per_key (length (stale ∷ bucket)))) [
        | inl full ↦ (
          bucket,
          rw (full, lookup_or-insert [] key key (bucket ++ conn ∷ []) p.idle, ==-refl key),
          rw full,
        )
        | inr room ↦ (
          stale ∷ bucket,
          rw (room, lookup_or-insert [] key key (stale ∷ bucket ++ conn ∷ []) p.idle, ==-refl key),
          rw room,
        )
      ]

  -- A connection that an enabled pool takes back is the next one lent under its key.
  pub acquire-release :
      (returnable : Conn → Bool) (p : ConnectionPool Conn) (key : Text) (conn fresh : Conn)
      → is_enabled p ≡ true
      → returnable conn ≡ true
      → (acquire (release returnable p key (some conn)) key fresh).1 ≡ conn
  unfolding release
  acquire-release returnable p key conn fresh on good =
      let (ys, e, same) = shelve_last p key conn (lookup_or [] key p.idle) in
      rw (on, good) (acquire_last _ key fresh conn ys (same ∙ on) e)
