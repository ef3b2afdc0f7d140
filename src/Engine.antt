-- ===== src/Engine.antt =====
-- The comparison engine (src/excel_auditor/engine.py).
pub mod Models
pub mod Log
pub mod Normalization
pub mod Keys
pub mod Writes
pub mod KeyEquality
pub mod Index
pub mod Rows
pub mod Standard
pub mod Headers
pub mod Blocked
pub mod Cells
pub mod Fields
pub mod Missing
pub mod Join
pub mod Records
pub mod Validation
pub mod Compare
pub mod Locate
