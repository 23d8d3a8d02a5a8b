-- ===== src/Kernel/Report.antt =====
-- What a sample of assessments amounts to: `_status_counts` and `_consistency_status` of
-- backend/ontology_platform/semantic_kernel.py.
use aletheia_onto.Base.{
  ℕ, suc, ◌+◌, ◌≤◌, ◌≡◌, ◌↔◌, Text, List, [], ◌∷◌, arith, if◌then◌else◌, length, ltb, leb,
}
use aletheia_onto.Kernel.Order.{is_empty}
use aletheia_onto.Kernel.Verdict.{DecisionStatus, approved, review, blocked}

-- The dictionary of `_status_counts`, whose keys are the three statuses.
pub record StatusCounts : Type 0 where
  pub approved_count : ℕ
  pub review_count : ℕ
  pub blocked_count : ℕ

pub data ConsistencyStatus : Type 0 where
  consistent mixed mixed_with_blockers incomplete empty : ConsistencyStatus

abbrev pub count_one : DecisionStatus → StatusCounts → StatusCounts
count_one approved counts = record counts { approved_count = suc counts.approved_count }
count_one review counts = record counts { review_count = suc counts.review_count }
count_one blocked counts = record counts { blocked_count = suc counts.blocked_count }

-- `for item in items`, from the counts so far.
unfoldable pub count_all : List DecisionStatus → StatusCounts → StatusCounts
count_all [] counts = counts
count_all (item ∷ items) counts = count_all items (count_one item counts)

unfoldable pub status_counts : List DecisionStatus → StatusCounts
unfolding count_all
status_counts items =
    count_all items (record { approved_count = 0; review_count = 0; blocked_count = 0 })

abbrev active : DecisionStatus → ℕ → List DecisionStatus → List DecisionStatus
active status n rest = if ltb 0 n then status ∷ rest else rest

unfoldable pub active_statuses : StatusCounts → List DecisionStatus
active_statuses counts =
    active approved counts.approved_count
      (active review counts.review_count (active blocked counts.blocked_count []))

unfoldable pub consistency_status : StatusCounts → List Text → ConsistencyStatus
consistency_status counts errors =
    let statuses = active_statuses counts in
    if is_empty errors
    then (if is_empty statuses
        then empty
        else if leb (length statuses) 1
        then consistent
        else if ltb 0 counts.blocked_count
        then mixed_with_blockers
        else mixed)
    else incomplete

-- How many verdicts of a list are `status`.
abbrev pub occurrences : (DecisionStatus → ℕ) → List DecisionStatus → ℕ
occurrences weigh [] = 0
occurrences weigh (item ∷ items) = weigh item + occurrences weigh items

abbrev pub is_approved : DecisionStatus → ℕ
is_approved approved = 1
is_approved review = 0
is_approved blocked = 0

abbrev pub is_review : DecisionStatus → ℕ
is_review approved = 0
is_review review = 1
is_review blocked = 0

abbrev pub is_blocked : DecisionStatus → ℕ
is_blocked approved = 0
is_blocked review = 0
is_blocked blocked = 1

count_all_lem :
    (items : List DecisionStatus) (counts : StatusCounts)
    → ((count_all items counts).approved_count
        ≡ occurrences is_approved items + counts.approved_count)
      × ((count_all items counts).review_count ≡ occurrences is_review items + counts.review_count)
      × ((count_all items counts).blocked_count
          ≡ occurrences is_blocked items + counts.blocked_count)
unfolding count_all
count_all_lem [] counts = (omega arith, omega arith, omega arith)
count_all_lem (approved ∷ items) counts =
    let (a, r, b) = count_all_lem items (count_one approved counts) in
    (omega arith, omega arith, omega arith)
count_all_lem (review ∷ items) counts =
    let (a, r, b) = count_all_lem items (count_one review counts) in
    (omega arith, omega arith, omega arith)
count_all_lem (blocked ∷ items) counts =
    let (a, r, b) = count_all_lem items (count_one blocked counts) in
    (omega arith, omega arith, omega arith)

-- The three counts are the numbers of times that each verdict occurs.
pub status_counts_lem :
    (items : List DecisionStatus)
    → ((status_counts items).approved_count ≡ occurrences is_approved items)
      × ((status_counts items).review_count ≡ occurrences is_review items)
      × ((status_counts items).blocked_count ≡ occurrences is_blocked items)
unfolding status_counts
status_counts_lem items =
    let (a, r, b) =
      count_all_lem items (record { approved_count = 0; review_count = 0; blocked_count = 0 }) in
    (omega arith, omega arith, omega arith)

-- A sample without errors has blockers among mixed verdicts exactly when some verdict is
-- `blocked` and some is not.
pub mixed_with_blockers_iff :
    (items : List DecisionStatus)
    → (consistency_status (status_counts items) [] ≡ mixed_with_blockers) ↔ (
        (1 ≤ occurrences is_blocked items)
        × (1 ≤ occurrences is_approved items + occurrences is_review items))
unfolding consistency_status active_statuses
mixed_with_blockers_iff items =
    let (a, r, b) = status_counts_lem items in
    (
      λ h. (ground (arith, a, r, b, h), ground (arith, a, r, b, h)),
      λ h. ground (arith, a, r, b, h.0, h.1),
    )
