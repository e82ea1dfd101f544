-- ===== src/Tests.antt =====
-- Concrete inputs, and one application of each result to them.
pub mod Sample
pub mod Anchors
pub mod Oracles
pub mod Trees
pub mod Bindings
pub mod Commits
pub mod Chains
pub mod Keys
pub mod Arguments
pub mod Commands
pub mod Attest
pub mod Signers
