-- ===== src/Tests.antt =====
-- Runs of the models on concrete inputs, and the theorems at concrete inputs.
pub mod Planes
pub mod Kernel
pub mod Peers
pub mod Walks
pub mod Messages
pub mod Stitching
pub mod Neighbors
pub mod Samples
pub mod Wiring
pub mod Forwarding
