-- ===== src/Jihyun.antt =====
-- The processor of member-jihyun/src.
pub mod Status
pub mod Text
pub mod Sql
pub mod Page
pub mod Action
pub mod Schema
pub mod Cache
pub mod Storage
pub mod Executor
pub mod Program
mod Examples
