-- ===== src/Peer.antt =====
-- KcpPeer of src/kcp/kcp_server/kcp_peer.rs: the control block behind its lock, and the time of its
-- next update.
pub mod Idle
pub mod Waiting
pub mod Wakeup
use kcp_server.Base.{ℕ, Bool, true, false, not, leb, ltb, if◌then◌else◌, add_u32, ◌+◌}
use kcp_server.Error.{Error}
use kcp_server.Segment.{Bytes}
use kcp_server.Control.{Kcp, UdpSend}
use kcp_server.Outcome.{Outcome, ok, err, panic}
use kcp_server.Input.{input}
use kcp_server.Receive.{recv}
use kcp_server.Transmit.{send}
use kcp_server.Timer.{update, check, flush_async}

-- The waker slot `wake`: `registered` where a task's waker stands in it, `wakes` the calls of
-- `wake.wake()`. `closes` counts the calls of UDPPeer::close.
pub record KcpPeer : Type 0 where
  pub kcp : Kcp
  pub registered : Bool
  pub wakes : ℕ
  pub closes : ℕ
  pub is_broken_pipe : Bool
  pub next_update_time : ℕ

-- KcpPeer::new, without the number and the address, which nothing else here reads.
unfoldable pub new_peer : Kcp → KcpPeer
new_peer k = record {
  kcp = k;
  registered = false;
  wakes = 0;
  closes = 0;
  is_broken_pipe = false;
  next_update_time = 0;
}

-- AtomicWaker::wake takes the waker out of its slot, and AtomicWaker::register puts one in.
abbrev pub wake : KcpPeer → KcpPeer
wake p = record p { registered = false; wakes = p.wakes + 1 }

abbrev pub register : KcpPeer → KcpPeer
register p = record p { registered = true }

-- What `input` does once the control block has answered.
unfoldable pub after_input : KcpPeer → Outcome Kcp (ℕ × Kcp) → Outcome KcpPeer (ℕ × KcpPeer)
after_input p (ok (n, k)) = ok (n, record (wake (record p { kcp = k })) { next_update_time = 0 })
after_input p (err e k) = err e (record p { kcp = k })
after_input p panic = panic

unfoldable pub peer_input : KcpPeer → Bytes → Bool → Outcome KcpPeer (ℕ × KcpPeer)
unfolding after_input input
peer_input p buf decoding = after_input p (input p.kcp buf decoding)

unfoldable pub set_broken_pipe : KcpPeer → KcpPeer
set_broken_pipe p = wake (record p { is_broken_pipe = true })

unfoldable pub need_update : KcpPeer → ℕ → Bool
need_update p current = ltb p.next_update_time current

-- What `update` does once the control block has answered.
unfoldable pub after_update : KcpPeer → ℕ → Outcome Kcp Kcp → Outcome KcpPeer KcpPeer
unfolding check
after_update p current (ok k) =
    ok (record p { kcp = k; next_update_time = add_u32 (check k current) current })
after_update p current (err e k) = err e (record p { kcp = k })
after_update p current panic = panic

unfoldable pub peer_update : UdpSend → KcpPeer → ℕ → Outcome KcpPeer KcpPeer
unfolding after_update update
peer_update udp p current =
    if leb p.next_update_time current
    then after_update p current (update udp p.kcp current)
    else ok p

unfoldable pub close : KcpPeer → KcpPeer
close p = if not p.is_broken_pipe then record p { closes = p.closes + 1 } else p

-- `recv_buf`, `send` and `flush` call the control block behind the lock.
unfoldable pub after_recv :
    KcpPeer → Outcome Kcp (ℕ × Bytes × Kcp) → Outcome KcpPeer (ℕ × Bytes × KcpPeer)
after_recv p (ok (n, out, k)) = ok (n, out, record p { kcp = k })
after_recv p (err e k) = err e (record p { kcp = k })
after_recv p panic = panic

unfoldable pub recv_buf : KcpPeer → Bytes → Outcome KcpPeer (ℕ × Bytes × KcpPeer)
unfolding after_recv recv
recv_buf p buf = after_recv p (recv p.kcp buf)

unfoldable pub after_send : KcpPeer → Outcome Kcp (ℕ × Kcp) → Outcome KcpPeer (ℕ × KcpPeer)
after_send p (ok (n, k)) = ok (n, record p { kcp = k })
after_send p (err e k) = err e (record p { kcp = k })
after_send p panic = panic

unfoldable pub peer_send : KcpPeer → Bytes → Outcome KcpPeer (ℕ × KcpPeer)
unfolding after_send send
peer_send p buf = after_send p (send p.kcp buf)

unfoldable pub after_flush : KcpPeer → Outcome Kcp Kcp → Outcome KcpPeer KcpPeer
after_flush p (ok k) = ok (record p { kcp = k })
after_flush p (err e k) = err e (record p { kcp = k })
after_flush p panic = panic

unfoldable pub peer_flush : UdpSend → KcpPeer → Outcome KcpPeer KcpPeer
unfolding after_flush flush_async
peer_flush udp p = after_flush p (flush_async udp p.kcp)
