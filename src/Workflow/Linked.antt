-- ===== src/Workflow/Linked.antt =====
-- Histories of backend/ontology_platform/workflow_permission.py in which each entry starts in the
-- state in which the one before it ends.
use aletheia_onto.Base.{ℕ, ◌≡◌, refl, sym, ◌∙◌, List, [], ◌∷◌, ◌++◌, Text, ◌==◌, keep}
use aletheia_onto.Workflow.{WorkflowHistory}

abbrev pub Linked : Text → List WorkflowHistory → Text → Type 0
Linked from [] to = from ≡ to
Linked from (h ∷ hs) to = (h.from_state ≡ from) × Linked h.to_state hs to

-- The entries of one row of `instance_workflow`.
abbrev pub entries_of : ℕ → List WorkflowHistory → List WorkflowHistory
entries_of id history = keep (λ h. h.instance_workflow_id == id) history

pub Linked-snoc :
    (from to : Text) (hs : List WorkflowHistory) (h : WorkflowHistory)
    → Linked from hs to
    → h.from_state ≡ to
    → Linked from (hs ++ h ∷ []) h.to_state
Linked-snoc from to [] h l e = (e ∙ sym l, refl)
Linked-snoc from to (g ∷ hs) h l e = (l.0, Linked-snoc g.to_state to hs h l.1 e)

-- A history ends in one state.
pub Linked-unique :
    (from a b : Text) (hs : List WorkflowHistory) → Linked from hs a → Linked from hs b → a ≡ b
Linked-unique from a b [] l k = sym l ∙ k
Linked-unique from a b (g ∷ hs) l k = Linked-unique g.to_state a b hs l.1 k.1
