-- ===== src/Tests.antt =====
-- Concrete runs of the models: messages on a wire, a registry of tunnels, and a key store.
mod Wire
mod Registry
mod Store
mod Relay
mod Visits
mod Site
mod Journey
mod Archive
