-- ===== src/Kernel.antt =====
-- kernel_module/sniffer.c, in the modules below.
pub mod State
pub mod Messages
pub mod Commands
pub mod Clients
pub mod Hook
pub mod Sending
pub mod Registry
pub mod Reporting
pub mod Delivery
pub mod Telling
pub mod Growing
pub mod Stop
pub mod Run
pub mod Parsing
pub mod Load
pub mod Total
pub mod Widths
pub mod Range
pub mod Concurrent
