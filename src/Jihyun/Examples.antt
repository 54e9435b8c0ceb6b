-- ===== src/Jihyun/Examples.antt =====
-- Runs of the definitions on small inputs.
mod Machines
mod Storage
mod Page
mod Cache
mod Text
mod Sql
mod Program
