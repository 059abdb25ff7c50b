-- ===== src/Examples.antt =====
-- Concrete inputs, and each theorem with hypotheses applied to one.
pub mod Samples
pub mod Scripts
pub mod Evaluations
pub mod Programs
pub mod Balancing
pub mod Limits
pub mod Logins
pub mod Accounts
pub mod Assignments
pub mod Removals
pub mod Admins
