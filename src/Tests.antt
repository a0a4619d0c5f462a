-- ===== src/Tests.antt =====
-- Runs of the model on a small system.
pub mod Fixtures
mod Store
mod Assets
mod Worker
mod Callbacks
mod Requests
mod Commands
mod Creation
mod Races
mod Routes
