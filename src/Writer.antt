-- ===== src/Writer.antt =====
-- KcpWriter of src/kcp/kcp_server/kcp_peer/writer.rs: one state machine under its three polls.
pub mod Requests
use kcp_server.Base.{ℕ, ◌+◌, Bool, true, false, if◌then◌else◌}
use kcp_server.Error.{Error, to_io_error}
use kcp_server.Segment.{Bytes}
use kcp_server.Control.{UdpSend}
use kcp_server.Outcome.{Outcome, ok, err, panic}
use kcp_server.Peer.{KcpPeer, peer_send, peer_flush}
use kcp_server.Poll.{Poll, done, failed, pending, panicked}

-- KcpWriterState; the future that each state but `begin` holds is the environment's.
pub data WriterState : Type 0 where
  begin write flush_async close_async : WriterState

pub record Writer : Type 0 where
  pub peer : KcpPeer
  pub state : WriterState

-- The answer of `send` under the lock; the state is `Begin` by then.
unfoldable pub sent : KcpPeer → Outcome KcpPeer (ℕ × KcpPeer) → Poll ℕ × Writer
sent p (ok (n, p')) = (done n, record { peer = p'; state = WriterState.begin })
sent p (err e p') = (failed (to_io_error e), record { peer = p'; state = WriterState.begin })
sent p panic = (panicked, record { peer = p; state = WriterState.begin })

-- The state `Write`: `ready` tells whether the future of the lock is ready.
unfoldable pub write_locked : Bool → Bytes → KcpPeer → Poll ℕ × Writer
unfolding sent peer_send
write_locked ready buf p =
    if ready
    then sent p (peer_send p buf)
    else (pending, record { peer = p; state = WriterState.write })

unfoldable pub poll_send_in : WriterState → Bool → Bytes → KcpPeer → Poll ℕ × Writer
unfolding write_locked
poll_send_in WriterState.begin ready buf p = write_locked ready buf p
poll_send_in WriterState.write ready buf p = write_locked ready buf p
poll_send_in state ready buf p = (panicked, record { peer = p; state = state })

-- `poll_send`.
unfoldable pub poll_send : Bool → Bytes → Writer → Poll ℕ × Writer
unfolding poll_send_in
poll_send ready buf w = poll_send_in w.state ready buf w.peer

unfoldable pub flushed : KcpPeer → Outcome KcpPeer KcpPeer → Poll (Unit {0}) × Writer
flushed p (ok p') = (done tt, record { peer = p'; state = WriterState.begin })
flushed p (err e p') = (failed (to_io_error e), record { peer = p'; state = WriterState.begin })
flushed p panic = (panicked, record { peer = p; state = WriterState.begin })

-- The state `FlushAsync`: `ready` tells whether the future of `flush` comes to its end in this poll.
unfoldable pub flush_ready : UdpSend → Bool → KcpPeer → Poll (Unit {0}) × Writer
unfolding flushed peer_flush
flush_ready udp ready p =
    if ready
    then flushed p (peer_flush udp p)
    else (pending, record { peer = p; state = WriterState.flush_async })

unfoldable pub poll_flush_in : UdpSend → WriterState → Bool → KcpPeer → Poll (Unit {0}) × Writer
unfolding flush_ready
poll_flush_in udp WriterState.begin ready p = flush_ready udp ready p
poll_flush_in udp WriterState.flush_async ready p = flush_ready udp ready p
poll_flush_in udp state ready p = (panicked, record { peer = p; state = state })

-- `poll_flush_async`.
unfoldable pub poll_flush_async : UdpSend → Bool → Writer → Poll (Unit {0}) × Writer
unfolding poll_flush_in
poll_flush_async udp ready w = poll_flush_in udp w.state ready w.peer

-- The state `Close`, behind the flag's test: the future waits for the lock.
unfoldable pub close_ready : Bool → KcpPeer → Poll (Unit {0}) × Writer
close_ready ready p =
    if ready
    then (done tt, record { peer = record p { closes = p.closes + 1 }; state = WriterState.begin })
    else (pending, record { peer = p; state = WriterState.close_async })

unfoldable pub poll_close_in : WriterState → Bool → KcpPeer → Poll (Unit {0}) × Writer
unfolding close_ready
poll_close_in WriterState.begin ready p =
    if p.is_broken_pipe
    then (done tt, record { peer = p; state = WriterState.begin })
    else close_ready ready p
poll_close_in WriterState.close_async ready p = close_ready ready p
poll_close_in state ready p = (panicked, record { peer = p; state = state })

-- `poll_close_async`.
unfoldable pub poll_close_async : Bool → Writer → Poll (Unit {0}) × Writer
unfolding poll_close_in
poll_close_async ready w = poll_close_in w.state ready w.peer
