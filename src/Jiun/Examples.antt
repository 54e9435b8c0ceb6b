-- ===== src/Jiun/Examples.antt =====
-- Runs of the definitions, and the theorems at concrete inputs.
mod Program
mod Storage
mod Parser
