-- ===== src/Dragon/Examples.antt =====
-- Runs of the definitions, and the theorems at concrete inputs.
mod Users
mod Tables
mod Program
