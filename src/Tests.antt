-- ===== src/Tests.antt =====
-- Concrete inputs, and the theorems at them.
mod Samples
mod Calls
mod Policies
mod Store
mod Processes
mod Configs
mod Shared
mod Relays
mod Layers
mod Catalogs
mod Deploys
mod Profiles
mod Bypasses
