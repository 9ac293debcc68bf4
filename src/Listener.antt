-- ===== src/Listener.antt =====
-- KcpListener of src/kcp/kcp_server/kcp_listener.rs: conversation numbers and new peers.
pub mod Conversations
pub mod Handshake
pub mod Opening
pub mod Accepting
pub mod Registry
pub mod Rounds
use kcp_server.Base.{ℕ, ◌-◌, Option, ◌==◌, if◌then◌else◌, add_u32, u32_max}
use kcp_server.Segment.{Bytes}
use kcp_server.Control.{Kcp, new}
use kcp_server.Outcome.{Outcome}
use kcp_server.Setup.{KcpConfig, apply_config}

-- make_conv, by one task at a time: the conversation, and `conv_make` behind the call.
unfoldable pub make_conv : ℕ → ℕ × ℕ
make_conv conv_make = (conv_make, (if conv_make == u32_max - 1 then 1 else add_u32 conv_make 1))

-- create_kcp_peer, as far as the control block.
unfoldable pub create_kcp_peer : KcpConfig → ℕ → ℕ → Option Bytes → Outcome Kcp Kcp
unfolding new apply_config
create_kcp_peer config timestamp conv key = apply_config config (new conv timestamp key)
