-- ===== src/Tests/Clock.antt =====
-- The theorems on the clock at concrete inputs.
use kcp_server.Base.{true, ◌<◌, ◌≡◌, refl, arith}
use kcp_server.Control.{Kcp, timediff}
use kcp_server.Timer.{check, time_left, shortest, next_resend, advance_clock}
use kcp_server.Timer.Schedule.{Quiet, Scheduled, check-Quiet, advance_clock-Scheduled}
use kcp_server.Tests.{fresh, running}
use kcp_server.Peer.{KcpPeer, new_peer}

check-running : 0 < check running 40
unfolding fresh check time_left shortest next_resend timediff
check-running = omega arith

check-Quiet_example : Quiet running 40 (check running 40)
check-Quiet_example = check-Quiet running 40 check-running

advance_clock-Scheduled_example :
    let (k', due) = advance_clock running 120 in
    (k'.current ≡ 120) × Scheduled 120 running.ts_flush running.interval (k'.ts_flush, due)
unfolding fresh
advance_clock-Scheduled_example =
    advance_clock-Scheduled running 120 (omega arith) (omega arith) (omega arith) (omega arith) refl

abbrev peer : KcpPeer
unfolding new_peer
peer = new_peer fresh

-- The first update of a new peer, and the state that it leaves.
abbrev refreshed : Kcp
refreshed = record (fresh) { current = 40; updated = true; ts_flush = 140; cwnd = 1; incr = 1376 }
