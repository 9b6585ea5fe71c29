-- ===== src/Lib.antt =====
-- A verification library for go-bake, a Make replacement whose Bakefile is a small language.
--
-- The program's parts: internal/dsl parses, compiles, loads and formats a Bakefile; internal/config
-- holds the compiled Bakefile and validates it; internal/lint checks and repairs the syntax tree;
-- internal/env builds the environment of a step; internal/resolve reads the arguments of a target;
-- internal/runner orders the targets of a run by their dependencies, skips those that
-- internal/cache knows to be up to date, and runs the steps of the others on the host or, by
-- internal/runner/container, in a container; internal/lifecycle starts daemons and keeps a record of
-- those that are running, and internal/baked, for cmd/baked, runs requests and follows the changes of
-- the Bakefile.
-- The loader (Dsl.Load) compiles a file and its imports to the `Config.File` that
-- `Config.Validate.validate` checks and that `Runner.Dag.topo_order` walks.
--
-- - Base: shared names, Boolean tests, texts as lists of bytes, sets and maps as lists.
-- - Config: the records of internal/config/config.go and internal/config/target.go and their
--   lookups; Config.Find is FindBakefile; Config.Validate is internal/config/validate.go, one function
--   for each of its loops.
-- - Dsl.Ast: the syntax tree of internal/dsl/ast.go. Dsl.Token: its Capture methods, the String rule
--   of internal/dsl/lexer.go and writeQuoted of internal/dsl/format.go. Dsl.Runes: the runes of a
--   text, as Go's range gives them. Dsl.Compile: compileTarget,
--   compileDaemon and compileProfile of internal/dsl/parser.go. Dsl.Load: Compile, ParseAndCompile
--   and loadWithImports of the same file. Dsl.Order: orderBodyEntries of internal/dsl/format.go.
--   Dsl.Format: the text that the formatter of the same file writes.
-- - Lint.Rules: the rules of internal/lint. Lint.Settings: internal/lint/config.go and Run of
--   internal/lint/rules.go. Lint.Fix: ApplyFixes of internal/lint/lint.go.
-- - System: the machine as a parameter: files, processes, containers, hashes, templates. Its state
--   is a type `World`, which the operations of Cache and Runner take and return.
-- - Cache: internal/cache/cache.go. Resolve.Expand: internal/resolve/expand.go and TemplateData of
--   internal/resolve/args.go.
-- - Env: internal/env/load.go; opening and scanning a file is a parameter.
-- - Resolve.Args: ParseArgs of internal/resolve/args.go.
-- - Runner.Dag: TopoOrder of internal/runner/dag.go, with the maps and slices that its closure
--   shares as explicit state. Runner.Levels: AllEdges and LevelOrder of the same file.
--   Runner.Steps: runTargetSteps and runStep of internal/runner/runner.go, with its loop
--   for the host and its loop for a container (Runner.Steps.Resolved is their specification).
--   Runner.SearchPath: stripBakeBinFromPath.
--   Runner.Cached: runTargetWithCache and stepSignature. Runner.Run: Run with one target at a time;
--   a run returns its events as a list, and the state of the machine behind them.
--   Runner.Parallel: Run by levels, as steps of its goroutines, with the semaphore and the
--   targets' pools and mutexes; the run of one target behind these is a result that the step
--   brings. Runner.Why: internal/runner/why.go. Runner.Contained: the `run_container` of System
--   is Run of Container.Executor.
--   Runner.Shell: joinArgv of internal/runner/runner.go, with the shell's rules on quoting, as POSIX
--   describes them, as its specification.
-- - Container: internal/runner/container/registry.go, over a record of Docker's calls; each part of
--   a run returns the calls that it has made. Container.Executor: Run, StartDaemonContainer,
--   StopContainer and maybePullImage of internal/runner/container/executor.go.
-- - Lifecycle: internal/lifecycle/state.go and the health check of internal/baked/health.go.
--   Lifecycle.Start: StartDaemon of internal/lifecycle/daemon.go.
-- - Service: the background service. Service.Reload: internal/baked/hotreload.go. Service.Queue:
--   internal/baked/queue.go, with its histories as a relation (Service.Queue.Reached).
--   Service.Requests and Service.Serve: internal/baked/run.go, and runRequest, replayQueue and
--   handleConn of cmd/baked/main.go.
--
-- Fuel: a visit of TopoOrder takes fuel for the depth of the recursion, one more than the number of
-- targets; every deeper visit marks one more target, so the fuel does not run out. loadWithImports
-- takes fuel for the depth of the imports; each file on the way is marked, so that one more than the
-- number of files is enough. FindBakefile takes one more than the length of the path: each directory
-- upwards has a shorter path. ParseArgs splits the arguments behind "--" with fuel for their number.
--
-- Not modelled: the grammar-driven parser (a third-party library) and what the operating system
-- and Docker do, which are parameters of Dsl.Load, Env, System and Container; times and the
-- writers of output; the command line; the sockets, signals and the file watcher of the
-- background service, and starting and stopping processes, which is a parameter of
-- Lifecycle.Start.
pub mod Base
pub mod Cache
pub mod Config
pub mod Container
pub mod Dsl
pub mod Env
pub mod Lifecycle
pub mod Lint
pub mod Resolve
pub mod Runner
pub mod Service
pub mod System
