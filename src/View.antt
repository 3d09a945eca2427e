-- ===== src/View.antt =====
-- What the visualizer is sent: the graph of a definition and the data of an instance.
pub mod Graph
pub mod Data
