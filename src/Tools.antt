-- ===== src/Tools.antt =====
-- The checks and the graph of the repository's own packages: tools/workspace-packages.js, and the closure of
-- tools/affected-validation.js.
pub mod Names
pub mod Search
pub mod Graph
pub mod Order
pub mod Closure
pub mod Identities
pub mod Workspace
