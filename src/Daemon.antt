-- ===== src/Daemon.antt =====
-- daemon/src, but for ScanFiles.cpp, in the modules below.
pub mod PortToPidMap
pub mod Calls
pub mod Pids
pub mod Server
pub mod Clients
pub mod Loop
pub mod Main
pub mod Memory
pub mod Ending
pub mod Arrivals
pub mod Mapping
pub mod Daemonize
pub mod Shutdown
