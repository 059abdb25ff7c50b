-- ===== src/Script.antt =====
-- internal/script: the language in which an administrator writes the balance query of an account.
pub mod Outcome
pub mod Lexer
pub mod Syntax
pub mod Values
pub mod Eval
pub mod Program
pub mod Parser
