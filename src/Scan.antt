-- ===== src/Scan.antt =====
-- daemon/src/ScanFiles.cpp, in the modules below.
pub mod Chars
pub mod Regex
pub mod Numbers
pub mod Lines
pub mod Links
pub mod LinkFormat
pub mod Processes
pub mod Owners
pub mod Finding
pub mod Ports
pub mod Priority
pub mod LineFormat
pub mod Words
pub mod RoundTrip
pub mod Answers
