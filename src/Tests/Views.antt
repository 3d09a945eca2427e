-- ===== src/Tests/Views.antt =====
-- The graph and the visualizer's data of the shop.
use brokr.Common.{[], ◌∷◌, map, ◌≡◌, refl}
use brokr.Engine.Match.{possible_events_for}
use brokr.Engine.Reads.{summarize_child}
use brokr.View.Graph.{edge_for, node_for, build_graph}
use brokr.View.Data.{VisualizationData, build_visualization_data}
use brokr.Tests.Fixture.{desk, shop, instance_a, child_b}

shop_nodes : map (λ n. n.id) (build_graph shop).nodes ≡ "created" ∷ "paid" ∷ "shipped" ∷ []
unfolding build_graph node_for
shop_nodes = refl

shop_edges :
    map (λ e. e.target) (build_graph shop).edges
    ≡ "paid" ∷ "shipped" ∷ "shipped" ∷ "paid" ∷ "paid" ∷ []
unfolding build_graph edge_for
shop_edges = refl

abbrev shown : VisualizationData
shown =
    build_visualization_data instance_a (possible_events_for desk.floats instance_a [])
      (summarize_child child_b ∷ [])
