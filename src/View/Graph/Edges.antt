-- ===== src/View/Graph/Edges.antt =====
-- Every transition that can fire is drawn.
use mathlib.Core.List.{Memᴰ}
use mathlib.Core.List.Memᴰ
use brokr.Common.{ℕ, String, List}
use brokr.Model.Composite
use brokr.Model.Workflow.{State, Transition}
use brokr.View.Graph.{GraphEdge, edge_for}

-- An edge that is drawn for the transition, in some scope and with some index.
abbrev pub IsDrawn : List GraphEdge → Transition → Type 0
IsDrawn edges t = (i : ℕ) × (scope : String) × Memᴰ (edge_for i scope t) edges
