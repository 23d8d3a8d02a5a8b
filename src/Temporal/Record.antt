-- ===== src/Temporal/Record.antt =====
-- Recording versions in any order of their starts: backend/ontology_platform/temporal.py.
use aletheia_onto.Base.{
  ℕ, ◌≤◌, ◌<◌, ◌≡◌, refl, ◌∙◌, ap, Bool, true, false, Option, none, some, List, [], ◌∷◌, arith, leb,
  ltb, if◌then◌else◌, Bool-cases, Option-cases, inl, inr,
}
use aletheia_onto.Temporal.{
  AttributeVersion, lasts, covers, covering, close, insert_version, record_one,
}
use aletheia_onto.Temporal.Latest.{Reaches-lasts, Gapless, latest, none_before, covering-latest}

module _ {V : Type 0} where
  -- Of two recorded values the one that starts later counts, and of two that start together the
  -- one recorded later.
  abbrev pub later_of : ℕ → Option (ℕ × V) → ℕ → V → Option (ℕ × V)
  later_of t none start value = if leb start t then some (start, value) else none
  later_of t (some e) start value =
      if leb start t then (if leb e.0 start then some (start, value) else some e) else some e

  latest-ended :
      (t start : ℕ) (v : AttributeVersion V) (versions : List (AttributeVersion V)) (ended : Bool)
      → latest t ((if ended then record v { valid_to = some start } else v) ∷ versions)
        ≡ latest t (v ∷ versions)
  unfolding latest
  latest-ended t start v versions true = refl
  latest-ended t start v versions false = refl

  pub latest-close :
      (t start : ℕ) (versions : List (AttributeVersion V))
      → latest t (close start versions) ≡ latest t versions
  unfolding latest close
  latest-close t start [] = refl
  latest-close t start (v ∷ versions) = elim (Option-cases (covering start versions)) [
    | inl e ↦ rw (close, e) (latest-ended t start v versions (covers v start))
    | inr (w, e) ↦ rw (close, e) (ground (arith, latest-close t start versions))
  ]

  -- The rows are in the order of their starts.
  abbrev pub Sorted : AttributeVersion V → List (AttributeVersion V) → Type 0
  Sorted v [] = Unit
  Sorted v (w ∷ versions) = (v.valid_from ≤ w.valid_from) × Sorted w versions

  abbrev pub IsSorted : List (AttributeVersion V) → Type 0
  IsSorted [] = Unit
  IsSorted (v ∷ versions) = Sorted v versions

  pub Gapless-Sorted :
      (v : AttributeVersion V) (versions : List (AttributeVersion V))
      → Gapless v versions
      → Sorted v versions
  Gapless-Sorted v [] g = tt
  Gapless-Sorted v (w ∷ versions) g =
      let (sorted, reach, rest) = g in (sorted, Gapless-Sorted w versions rest)

  ended-Sorted :
      (start : ℕ) (v w : AttributeVersion V) (versions : List (AttributeVersion V)) (ended : Bool)
      → Sorted v (w ∷ versions)
      → Sorted v ((if ended then record w { valid_to = some start } else w) ∷ versions)
  ended-Sorted start v w [] true g = g
  ended-Sorted start v w (x ∷ versions) true g = g
  ended-Sorted start v w versions false g = g

  pub close-Sorted :
      (start : ℕ) (v : AttributeVersion V) (versions : List (AttributeVersion V))
      → Sorted v versions
      → Sorted v (close start versions)
  unfolding close
  close-Sorted start v [] g = tt
  close-Sorted start v (w ∷ versions) g = elim (Option-cases (covering start versions)) [
    | inr (x, e) ↦ rw (close, e) (g.0, close-Sorted start w versions g.1)
    | inl e ↦ rw (close, e) (ended-Sorted start v w versions (covers w start) g)
  ]

  latest-ge :
      (t : ℕ) (v : AttributeVersion V) (versions : List (AttributeVersion V)) (e : ℕ × V)
      → Sorted v versions
      → latest t (v ∷ versions) ≡ some e
      → v.valid_from ≤ e.0
  unfolding latest
  latest-ge t v [] e g h = ground arith
  latest-ge t v (w ∷ versions) e g h = elim (Option-cases (latest t (w ∷ versions))) [
    | inl f ↦ ground (arith, f, h)
    | inr (x, f) ↦ let below = latest-ge t w versions x g.1 f in ground (arith, f, h, below, g.0)
  ]

  rest-IsSorted :
      (v : AttributeVersion V) (versions : List (AttributeVersion V))
      → Sorted v versions
      → IsSorted versions
  rest-IsSorted v [] g = tt
  rest-IsSorted v (w ∷ versions) g = g.1

  pub latest-insert_version :
      (t : ℕ) (new : AttributeVersion V) (versions : List (AttributeVersion V))
      → IsSorted versions
      → latest t (insert_version new versions)
        ≡ later_of t (latest t versions) new.valid_from new.value
  unfolding latest insert_version
  latest-insert_version t new [] g = ground arith
  latest-insert_version t new (v ∷ versions) g =
      elim (Bool-cases (leb v.valid_from new.valid_from)) [
        | inl e ↦
            let ih = latest-insert_version t new versions (rest-IsSorted v versions g) in
            elim (Option-cases (latest t versions)) [
              | inl f ↦ rw (e, ih, f) (ground (arith, e))
              | inr (x, f) ↦ rw (e, ih, f) (ground (arith, e))
            ]
        | inr e ↦ elim (Option-cases (latest t (v ∷ versions))) [
          | inl f ↦ ground (arith, e, f)
          | inr (x, f) ↦ let below = latest-ge t v versions x g f in ground (arith, e, f, below)
        ]
      ]

  insert_behind :
      (new v : AttributeVersion V) (versions : List (AttributeVersion V))
      → v.valid_from ≤ new.valid_from
      → insert_version new (v ∷ versions) ≡ v ∷ insert_version new versions
  unfolding insert_version
  insert_behind new v versions le = ground (arith, le)

  pub insert_before :
      (new w : AttributeVersion V) (versions : List (AttributeVersion V))
      → new.valid_from < w.valid_from
      → insert_version new (w ∷ versions) ≡ new ∷ w ∷ versions
  unfolding insert_version
  insert_before new w versions lt = ground (arith, lt)

  -- A covering row behind the head.
  covering_behind :
      (start : ℕ) (v : AttributeVersion V) (versions : List (AttributeVersion V))
      (x : AttributeVersion V)
      → covering start versions ≡ some x
      → (covering start (v ∷ versions) ≡ some x)
        × (close start (v ∷ versions) ≡ v ∷ close start versions)
  unfolding covering close
  covering_behind start v versions x c = (rw c refl, rw (close, c) refl)

  -- The head covers, and nothing behind it.
  covering_here :
      (start : ℕ) (v : AttributeVersion V) (versions : List (AttributeVersion V))
      → covering start versions ≡ none
      → covers v start ≡ true
      → (covering start (v ∷ versions) ≡ some v)
        × (close start (v ∷ versions) ≡ record v { valid_to = some start } ∷ versions)
  unfolding covering close
  covering_here start v versions c holds = (rw (c, holds) refl, rw (close, c, holds) refl)

  covers_started :
      (v : AttributeVersion V) (start : ℕ)
      → v.valid_from ≤ start
      → lasts v.valid_to start ≡ true
      → covers v start ≡ true
  unfolding covers
  covers_started v start le holds =
      let begun : ltb start v.valid_from ≡ false = ground (arith, le) in rw begun holds

  -- A row in front of the covering one stays.
  record_behind :
      (start : ℕ) (value : V) (v : AttributeVersion V) (versions : List (AttributeVersion V))
      (x : AttributeVersion V)
      → v.valid_from ≤ start
      → covering start versions ≡ some x
      → record_one (v ∷ versions) start value ≡ v ∷ record_one versions start value
  unfolding record_one
  record_behind start value v versions x le c =
      let (found, closed) = covering_behind start v versions x c in
      rw (found, closed, c)
        (insert_behind (record { value = value; valid_from = start; valid_to = x.valid_to }) v
          (close start versions) le)

  -- The covering row is closed, and the new one follows it.
  pub record_here :
      (start : ℕ) (value : V) (v w : AttributeVersion V) (versions : List (AttributeVersion V))
      → v.valid_from ≤ start
      → start < w.valid_from
      → covering start (w ∷ versions) ≡ none
      → lasts v.valid_to start ≡ true
      → record_one (v ∷ w ∷ versions) start value
        ≡ record v { valid_to = some start }
          ∷ record { value = value; valid_from = start; valid_to = v.valid_to }
          ∷ w
          ∷ versions
  unfolding record_one
  record_here start value v w versions le lt c holds =
      let (found, closed) =
        covering_here start v (w ∷ versions) c (covers_started v start le holds) in
      let new : AttributeVersion V = record {
        value = value;
        valid_from = start;
        valid_to = v.valid_to;
      } in
      let old : AttributeVersion V = record v { valid_to = some start } in
      rw (found, closed)
        (insert_behind new old (w ∷ versions) le
          ∙ ap (λ vs. old ∷ vs) (insert_before new w versions lt))

  -- What a recording does to a table with a row that has started: the head keeps its start.
  pub recorded :
      (start : ℕ) (value : V) (v : AttributeVersion V) (versions : List (AttributeVersion V))
      → Gapless v versions
      → v.valid_from ≤ start
      → (h : AttributeVersion V) × (tail : List (AttributeVersion V)) × (record_one
            (v ∷ versions)
            start
            value
          ≡ h ∷ tail)
        × (h.valid_from ≡ v.valid_from)
        × Gapless h tail
  unfolding record_one close insert_version covering covers
  recorded start value v [] g le =
      let new : AttributeVersion V = record {
        value = value;
        valid_from = start;
        valid_to = none;
      } in
      let old : AttributeVersion V = record v { valid_to = some start } in
      (old, new ∷ [], rw g (ground arith), refl, (le, (λ lt. omega arith), refl))
  recorded start value v (w ∷ versions) g le =
      let (sorted, reach, rest) = g in
      elim (Bool-cases (leb w.valid_from start)) [
        | inl e ↦
            let (h, tail, eq, same, gapless) =
              recorded start value w versions rest (ground (arith, e)) in
            let (x, c, l) = covering-latest start w versions rest (ground (arith, e)) in
            (
              v,
              h ∷ tail,
              record_behind start value v (w ∷ versions) x le c ∙ ap (λ vs. v ∷ vs) eq,
              refl,
              (rw same sorted, (λ lt. rw same (reach (rw same at lt))), gapless),
            )
        | inr e ↦
            let later : start < w.valid_from = ground (arith, e) in
            let (c, l) = none_before start w versions rest later in
            let holds = Reaches-lasts v.valid_to start w.valid_from later (reach (omega arith)) in
            let new : AttributeVersion V = record {
              value = value;
              valid_from = start;
              valid_to = v.valid_to;
            } in
            let old : AttributeVersion V = record v { valid_to = some start } in
            (
              old,
              new ∷ w ∷ versions,
              record_here start value v w versions le later c holds,
              refl,
              (le, (λ lt. omega arith), (omega arith, (λ lt. reach (omega arith)), rest)),
            )
      ]
