-- ===== src/Dsl.antt =====
-- internal/dsl: the syntax of a Bakefile, its compiler and its formatter.
pub mod Ast
pub mod Runes
pub mod Token
pub mod Compile
pub mod Order
pub mod Format
pub mod Load
mod Tests
