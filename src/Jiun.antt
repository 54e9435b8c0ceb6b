-- ===== src/Jiun.antt =====
-- The processor of member-jiun/src.
pub mod Text
pub mod Types
pub mod Results
pub mod Values
pub mod Parser
pub mod Split
pub mod Schema
pub mod Cells
pub mod Storage
pub mod Processor
pub mod Interactive
mod Examples
