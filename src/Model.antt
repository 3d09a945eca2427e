-- ===== src/Model.antt =====
-- model/: workflow definitions, their states, guards and actions.
pub mod Workflow
pub mod Kinds
pub mod Guard
pub mod State
pub mod Composite
pub mod Transition
pub mod Defaults
pub mod Decode
pub mod Json
pub mod AsyncPool
