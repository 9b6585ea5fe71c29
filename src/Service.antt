-- ===== src/Service.antt =====
-- internal/baked and cmd/baked: the background service, which keeps the daemons of a Bakefile
-- running and runs the requests of the command line.
pub mod Queue
pub mod Reload
pub mod Requests
pub mod Serve
mod Tests
