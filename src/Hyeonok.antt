-- ===== src/Hyeonok.antt =====
-- The program of member-hyeonok/src.
pub mod Text
pub mod Ast
pub mod Split
pub mod Parser
pub mod Schema
pub mod Storage
pub mod Executor
pub mod Program
mod Examples
