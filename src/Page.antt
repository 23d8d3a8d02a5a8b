-- ===== src/Page.antt =====
-- Paging: backend/ontology_platform/pagination.py, with `clamp_page_size` and
-- `clamp_sample_size` of backend/ontology_platform/config.py. The caller's numbers are signed.
pub mod Walk
pub mod Keyset
use aletheia_onto.Base.{
  ℕ, ◌+◌, min, max, Bool, true, false, Option, none, some, List, [], ◌∷◌, ltb, length,
  if◌then◌else◌, ◌&&◌, ℤ, pos, negsuc, pos_part, take, drop,
}

-- `QUERY_LIMITS`
pub record QueryLimits : Type 0 where
  pub default_page_size : ℕ
  pub max_page_size : ℕ
  pub max_consistency_sample : ℕ

-- `max(1, min(resolved, upper))`
unfoldable pub clamp : ℕ → ℤ → ℕ
clamp upper (pos n) = max 1 (min n upper)
clamp upper (negsuc n) = 1

unfoldable pub clamp_page_size : QueryLimits → Option ℤ → ℕ
unfolding clamp
clamp_page_size limits none = limits.default_page_size
clamp_page_size limits (some value) = clamp limits.max_page_size value

unfoldable pub clamp_sample_size : QueryLimits → Option ℤ → ℕ
unfolding clamp
clamp_sample_size limits none = limits.default_page_size
clamp_sample_size limits (some value) = clamp limits.max_consistency_sample value

-- `max(0, int(offset or 0))`
unfoldable pub floor_offset : Option ℤ → ℕ
floor_offset none = 0
floor_offset (some i) = pos_part i

unfoldable pub resolve_page : QueryLimits → Option ℤ → Option ℤ → Option ℕ × ℕ
unfolding clamp_page_size floor_offset
resolve_page limits none offset = (none, floor_offset offset)
resolve_page limits (some limit) offset =
    (some (clamp_page_size limits (some limit)), floor_offset offset)

pub record PageBlock : Type 0 where
  pub limit : Option ℕ
  pub offset : ℕ
  pub total : ℕ
  pub has_more : Bool

unfoldable pub page_block : Option ℕ → ℕ → ℕ → ℕ → PageBlock
page_block limit offset total returned = record {
  limit = limit;
  offset = offset;
  total = total;
  has_more = elim limit [ none ↦ false | some _ ↦ ltb (offset + returned) total ];
}

-- The position that a keyset page names: `and id < ?`, `and id > ?`, or no condition.
pub data Cursor : Type 0 where
  older_than newer_than : ℕ → Cursor
  anywhere : Cursor

unfoldable pub resolve_cursor : Option ℕ → Option ℕ → Cursor
resolve_cursor (some before) after = older_than before
resolve_cursor none (some after) = newer_than after
resolve_cursor none none = anywhere

-- The condition on a row's id.
unfoldable pub selects : Cursor → ℕ → Bool
selects (older_than b) id = ltb id b
selects (newer_than a) id = ltb a id
selects anywhere id = true

-- `min(ids)` and `max(ids)` of `id ∷ ids`
unfoldable pub min_of : ℕ → List ℕ → ℕ
min_of id [] = id
min_of id (x ∷ ids) = min_of (min id x) ids

unfoldable pub max_of : ℕ → List ℕ → ℕ
max_of id [] = id
max_of id (x ∷ ids) = max_of (max id x) ids

-- `[int(row[key]) for row in rows if row.get(key) is not None]`
unfoldable pub present : List (Option ℕ) → List ℕ
present [] = []
present (none ∷ rows) = present rows
present (some id ∷ rows) = id ∷ present rows

pub record CursorBlock : Type 0 where
  pub next_before : Option ℕ
  pub next_after : Option ℕ

abbrev pub no_cursor : CursorBlock
no_cursor = record { next_before = none; next_after = none }

unfoldable pub bounds_of : List ℕ → CursorBlock
bounds_of [] = no_cursor
bounds_of (id ∷ ids) = record {
  next_before = some (min_of id ids);
  next_after = some (max_of id ids);
}

-- A row is the id that it carries, if any.
unfoldable pub cursor_block : List (Option ℕ) → Option ℕ → CursorBlock
unfolding bounds_of
cursor_block rows none = no_cursor
cursor_block rows (some limit) = bounds_of (present rows)
