-- ===== src/Tests.antt =====
-- Concrete runs of the components, and the theorems at concrete inputs.
mod Values
mod Files
mod Hardware
mod Snapshots
mod Stores
mod Imports
mod Clones
mod Config
mod Client
mod Runs
