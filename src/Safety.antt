-- ===== src/Safety.antt =====
-- Every call on a control block, in any order: Kcp of src/kcp/kcp_module/kcp.rs as its users see it.
mod Sending
mod Receiving
mod Reading
pub mod Operations
pub mod Calls
pub mod Exchange
mod Numbering
pub mod Sequence
mod Arrivals
mod Spared
mod Untouched
pub mod History
pub mod Network
mod Unforged
mod Hearing
pub mod Delivered
