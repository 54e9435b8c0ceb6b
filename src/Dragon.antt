-- ===== src/Dragon.antt =====
-- The program of member-dragon/src.
pub mod Types
pub mod Values
pub mod Words
pub mod Parser
pub mod Rows
pub mod Storage
pub mod Tables
pub mod Executor
pub mod Schema
pub mod Program
mod Examples
