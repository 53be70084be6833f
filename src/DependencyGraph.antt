-- ===== src/DependencyGraph.antt =====
-- Dependency Graphs of an Initiative (packages/core/src/dependency-graph.ts).
pub mod Cycle
pub mod Validate
pub mod Accepts
