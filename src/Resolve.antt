-- ===== src/Resolve.antt =====
-- internal/resolve: the arguments of a target.
pub mod Args
pub mod Expand
