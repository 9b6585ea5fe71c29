-- ===== src/Runner.antt =====
-- internal/runner: the order of a run, its levels, and the command line of a step.
pub mod Dag
pub mod Levels
pub mod Shell
pub mod SearchPath
pub mod Steps
pub mod Cached
pub mod Run
pub mod Parallel
pub mod Why
pub mod Contained
