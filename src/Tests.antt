-- ===== src/Tests.antt =====
-- A concrete host and workflows, the theorems at inputs that meet their hypotheses, and runs.
mod Fixture
mod Matching
mod Events
mod Definitions
mod Joins
mod Dispatching
mod Views
mod Booting
mod Seeding
mod Decoding
mod Reading
mod Requests
mod Pooling
mod Storing
mod Ticking
