-- ===== src/Examples.antt =====
-- Theorems at inputs that meet their hypotheses, and runs of the model.
pub mod Schema
pub mod Secondary
pub mod Filter
pub mod Nodes
pub mod Entries
pub mod Pages
pub mod Ranges
pub mod Util
pub mod Query
pub mod Parsing
pub mod Transactions
pub mod Plan
pub mod Tables
pub mod Scan
