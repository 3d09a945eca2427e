-- ===== src/Engine.antt =====
-- engine/: the transitions of a workflow instance.
pub mod Instance
pub mod Match
pub mod Effects
pub mod Activities
pub mod Position
pub mod Children
pub mod Actions
pub mod Transition
pub mod Chain
pub mod Event
pub mod AutoJoin
pub mod Dispatcher
pub mod Reads
pub mod Storage
