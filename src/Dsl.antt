-- ===== src/Dsl.antt =====
-- The .fman language: src/dsl and include/dsl.
pub mod Token
pub mod Lexer
pub mod Parser
