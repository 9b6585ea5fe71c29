-- ===== src/Lint.antt =====
-- internal/lint: the rules, the linter configuration and the fixes.
pub mod Rules
pub mod Settings
pub mod Fix
mod Tests
