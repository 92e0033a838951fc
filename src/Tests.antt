-- ===== src/Tests.antt =====
-- The theorems at concrete inputs, in a module for each part of the program.
mod Kernel
mod NetLink
mod Threads
mod Scan
mod Daemon
mod Hunter
mod Flow
mod Endings
mod Concurrent
mod Hunting
mod Daemonize
mod Refused
mod Joining
mod Commanding
