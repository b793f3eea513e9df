-- ===== src/Examples.antt =====
-- Concrete data, and the theorems applied to it, each where its hypotheses hold.
pub mod Objects
pub mod Texts
pub mod Threading
pub mod Connections
pub mod Requests
pub mod Tracking
pub mod Matching
pub mod Sending
