-- ===== src/Peer/Waiting/Answers.antt =====
-- What a poll of the wait in KcpPeer::recv of src/kcp/kcp_server/kcp_peer.rs answers.
use kcp_server.Base.{
  ℕ, ◌<◌, ◌≡◌, refl, ap, ◌∙◌, Bool, true, false, ◌⊎◌, inl, inr, length, ltb, arith, Bool-cases,
  ltb→lt,
}
use kcp_server.Error.{Error}
use kcp_server.Receive.{peek_size}
use kcp_server.Receive.Messages.{peek_queue-failure, payloads, first_message, peek_queue-size}
use kcp_server.Peer.{KcpPeer}
use kcp_server.Peer.Waiting.{
  Waited, ready, refused, asleep, repolled, wait_input, wait_round, wait_size,
}

-- What a poll of the wait that holds the lock answers.
abbrev pub Told : KcpPeer → Waited × KcpPeer → Type 0
Told p (ready size, p') =
    (p' ≡ p)
    × (0 < size)
    × (peek_size p.kcp ≡ inr size)
    × (size ≡ length (payloads (first_message p.kcp.rcv_queue)))
Told p (refused e, p') =
    (p' ≡ p)
    × (e ≡ Error.broken_pipe)
    × (p.is_broken_pipe ≡ true)
    × ((failure : Error) × (peek_size p.kcp ≡ inl failure))
Told p (asleep, p') =
    (p' ≡ record p { registered = true })
    × (p.is_broken_pipe ≡ false)
    × ((failure : Error) × (peek_size p.kcp ≡ inl failure))
Told p (repolled, p') = (p' ≡ p) × (peek_size p.kcp ≡ inr 0)

-- A poll of the wait that holds the lock changes nothing but the waker's slot. It tells the size
-- of the first message of the queue, above 0; or the pipe is broken and no message is whole, and it
-- fails with `BrokenPipe`; or the pipe is whole and no message is, and it sleeps, with its waker
-- registered; or the first message is empty, and it polls the lock's future once too often.
pub wait_input-Told : (p : KcpPeer) → Told p (wait_input true p)
unfolding wait_input wait_round wait_size peek_size
wait_input-Told p = told p.is_broken_pipe (peek_size p.kcp) refl refl
  where
    told :
        (broken : Bool) (o : Error ⊎ ℕ)
        → p.is_broken_pipe ≡ broken
        → peek_size p.kcp ≡ o
        → Told p (wait_round p (wait_size broken o))
    told broken (inr size) f h = elim (Bool-cases (ltb 0 size)) [
      | inl some_bytes ↦
          rw some_bytes (refl, ltb→lt 0 size some_bytes, h, peek_queue-size p.kcp.rcv_queue size h)
      | inr empty ↦ rw empty (refl, h ∙ ap inr (ground (arith, empty)))
    ]
    told true (inl e) f h = (refl, refl, f, (e, h))
    told false (inl e) f h = elim (peek_queue-failure p.kcp.rcv_queue e h) [
      | inl none_there ↦ rw none_there (refl, f, (e, h))
      | inr fragments ↦ rw fragments (refl, f, (e, h))
    ]
