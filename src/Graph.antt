-- ===== src/Graph.antt =====
-- backend/app/services/graph.py: the product workflow graph, its validation and its hash.
pub mod Dict
pub mod Cycle
pub mod Text
pub mod Expression
pub mod Schema
pub mod Issue
pub mod Nodes
pub mod Connections
pub mod Credentials
pub mod Validate
