-- ===== src/Hunter.antt =====
-- packet_hunter/src, in the modules below.
pub mod PacketMap
pub mod Unique
pub mod Client
pub mod Loop
pub mod Filing
pub mod Save
pub mod Freeing
pub mod Threads
pub mod Interleaving
pub mod Hunted
pub mod Arrived
pub mod Order
pub mod Reordered
pub mod Memory
pub mod Shutdown
pub mod Saved
