-- ===== src/Peer/Waiting.antt =====
-- KcpPeer::recv of src/kcp/kcp_server/kcp_peer.rs: it waits for a message, and reads it then.
pub mod Answers
pub mod Messages
use kcp_server.Base.{
  ℕ, ◌<◌, ◌+◌, ◌≤◌, ◌≡◌, Bool, true, false, ◌⊎◌, inl, inr, List, [], ◌∷◌, ◌++◌, length, ltb,
  if◌then◌else◌,
}
use kcp_server.Error.{Error}
use kcp_server.Segment.{Bytes}
use kcp_server.Control.{Kcp}
use kcp_server.Outcome.{Outcome, ok, err, panic}
use kcp_server.Receive.{peek_size, recv}
use kcp_server.Peer.{KcpPeer, register, recv_buf}

-- How a poll of WaitInput ends. `repolled`: it polled the future of the lock once more after that
-- future had given the lock, which the contract of futures forbids.
pub data Waited : Type 0 where
  ready : ℕ → Waited
  refused : Error → Waited
  asleep repolled : Waited

-- `peek_size` under the flag of a closed UDP layer.
unfoldable pub wait_size : Bool → Error ⊎ ℕ → Error ⊎ ℕ
wait_size broken (inr size) = inr size
wait_size broken (inl e) = inl (if broken then Error.broken_pipe else e)

unfoldable pub wait_round : KcpPeer → Error ⊎ ℕ → Waited × KcpPeer
wait_round p (inr size) = if ltb 0 size then (ready size, p) else (repolled, p)
wait_round p (inl Error.broken_pipe) = (refused Error.broken_pipe, p)
wait_round p (inl e) = (asleep, register p)

-- `WaitInput::poll`: without a grant of the lock it sleeps in the lock's own queue.
unfoldable pub wait_input : Bool → KcpPeer → Waited × KcpPeer
unfolding wait_round wait_size peek_size
wait_input granted p =
    if granted then wait_round p (wait_size p.is_broken_pipe (peek_size p.kcp)) else (asleep, p)

-- `recv` behind the wait, on the peer as it is by then.
unfoldable pub recv_waited : ℕ → KcpPeer → Bytes → Outcome KcpPeer (ℕ × Bytes × KcpPeer)
unfolding recv_buf
recv_waited size p buf =
    if ltb (length buf) size then err (Error.user_buf_too_small size) p else recv_buf p buf
