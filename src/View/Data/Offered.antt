-- ===== src/View/Data/Offered.antt =====
-- What the visualizer offers can be sent, and is drawn.
use mathlib.Core.List.{Memᴰ}
use brokr.Common.{String, some, ◌≡◌}
use brokr.Model.Workflow.{Transition}
use brokr.Engine.Instance.{WorkflowInstance}
use brokr.Engine.Instance.WellFormed.{Leads}
use brokr.Engine.Match.{find_candidate_transition}
use brokr.Engine.Effects.{Host}
use brokr.Engine.Effects.Returns.{Returns}
use brokr.View.Graph.Edges.{IsDrawn}
use brokr.View.Data.{VisualizationData}

-- The data is about the row, and each event that it offers fires a transition that it draws.
pub record Describes {F : Type 0} {X : Type 0} (host : Host F X) (wf : WorkflowInstance)
    (v : VisualizationData) : Type 0 where
  pub journey : v.journey ≡ wf.journey
  pub reached :
      Leads "" "" v.journey v.instance_summary.current_state v.instance_summary.current_substate
  pub offered :
      (event : String)
      → Memᴰ event v.possible_events
      → (t : Transition) × (find_candidate_transition host.floats wf event wf.context_map ≡ some t)
        × IsDrawn v.graph.edges t
