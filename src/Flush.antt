-- ===== src/Flush.antt =====
-- Kcp::flush and flush_ack of src/kcp/kcp_module/kcp.rs: what a control object sends.
pub mod Window
pub mod Frames
pub mod Datagrams
pub mod Mtu
pub mod Numbers
pub mod Whole
pub mod Plan
mod Writing
mod Headers
mod Pushes
pub mod Planned
use kcp_server.Base.{
  ℕ, ◌+◌, ◌-◌, ◌*◌, ◌/◌, Bool, true, false, not, Option, none, some, List, [], ◌∷◌, ◌++◌, length,
  is_empty, min, ltb, leb, ◌==◌, if◌then◌else◌, ltb_ℤ, leb_ℤ, pos, negsuc, bit_and, bit_or, as_u16,
  add_u16, add_u32, sub_u32, mul_u32, u32_max,
}
use kcp_server.Segment.{
  Bytes, KcpSegment, new_with_data, encode, cmd_push, cmd_ack, cmd_wask, cmd_wins, overhead,
}
use kcp_server.Control.{
  Kcp, UdpSend, send_buf, timediff, ask_send, ask_tell, probe_init, probe_limit, thresh_min,
}
use kcp_server.Receive.{wnd_unused}
use kcp_server.Outcome.{Outcome, ok, err, panic, ◌>>=◌}
use kcp_server.Error.{Error}

-- The buffer goes out first where `need` more bytes would pass the MTU.
unfoldable pub make_room : UdpSend → ℕ → Kcp → Outcome Kcp Kcp
make_room udp need k = if ltb k.mtu (length k.buf + need) then send_buf udp k else ok k

-- `segment.encode(&mut self.buf)`.
unfoldable pub encoded : Kcp → Option Bytes → Outcome Kcp Kcp
encoded k none = panic
encoded k (some b) = ok (record k { buf = b })

unfoldable pub append_segment : KcpSegment → Kcp → Outcome Kcp Kcp
unfolding encoded
append_segment s k = encoded k (encode s k.buf)

-- The header that `flush` and `flush_ack` start from.
unfoldable pub ack_segment : Kcp → KcpSegment
unfolding wnd_unused
ack_segment k = record (new_with_data []) {
  conv = k.conv;
  cmd = cmd_ack;
  wnd = wnd_unused k;
  una = k.rcv_nxt;
}

-- The loop over `acklist`; the segment that it changes is used again after it.
unfoldable pub flush_acks :
    UdpSend → List (ℕ × ℕ) → KcpSegment → Kcp → Outcome Kcp (KcpSegment × Kcp)
flush_acks udp [] segment k = ok (segment, k)
flush_acks udp ((sn, ts) ∷ acks) segment k = make_room udp overhead k >>= λ k1.
    let segment' = record segment { sn = sn; ts = ts } in
    append_segment segment' k1 >>= λ k2. flush_acks udp acks segment' k2

-- `_flush_ack`.
unfoldable pub flush_acklist : UdpSend → KcpSegment → Kcp → Outcome Kcp (KcpSegment × Kcp)
flush_acklist udp segment k = flush_acks udp k.acklist segment k >>= λ (segment', k').
    ok (segment', record k' { acklist = [] })

unfoldable pub probe_wnd_size : Kcp → Kcp
unfolding timediff
probe_wnd_size k =
    if k.rmt_wnd == 0
    then (if k.probe_wait == 0
        then record k { probe_wait = probe_init; ts_probe = add_u32 k.current probe_init }
        else if leb_ℤ (pos 0) (timediff k.current k.ts_probe)
        then (let w0 = (if ltb k.probe_wait probe_init then probe_init else k.probe_wait) in
            let w1 = add_u32 w0 (w0 / 2) in
            let w2 = (if ltb probe_limit w1 then probe_limit else w1) in
            record k {
              probe_wait = w2;
              ts_probe = add_u32 k.current w2;
              probe = bit_or k.probe ask_send;
            })
        else k)
    else record k { ts_probe = 0; probe_wait = 0 }

-- One of the two commands of `flush_probe_commands`, sent where its bit of `probe` is set.
unfoldable pub flush_probe : UdpSend → ℕ → ℕ → KcpSegment → Kcp → Outcome Kcp (KcpSegment × Kcp)
flush_probe udp ask cmd segment k =
    if bit_and k.probe ask == 0
    then ok (segment, k)
    else (let segment' = record segment { cmd = cmd } in
        make_room udp overhead k >>= λ k1. append_segment segment' k1 >>= λ k2. ok (segment', k2))

unfoldable pub flush_probe_commands : UdpSend → KcpSegment → Kcp → Outcome Kcp (KcpSegment × Kcp)
flush_probe_commands udp segment k =
    flush_probe udp ask_send cmd_wask segment k >>= λ (segment1, k1).
    flush_probe udp ask_tell cmd_wins segment1 k1 >>= λ (segment2, k2).
    ok (segment2, record k2 { probe = 0 })

-- The public `flush_ack`.
unfoldable pub flush_ack : UdpSend → Kcp → Outcome Kcp Kcp
flush_ack udp k =
    if not k.updated
    then err Error.need_update k
    else flush_acklist udp (ack_segment k) k >>= λ (segment, k'). ok k'

-- A queued segment as it enters the send buffer.
unfoldable pub outgoing : ℕ → Kcp → KcpSegment → KcpSegment
outgoing wnd k s = record s {
  conv = k.conv;
  cmd = cmd_push;
  wnd = wnd;
  ts = k.current;
  sn = k.snd_nxt;
  una = k.rcv_nxt;
  resendts = k.current;
  rto = k.rx_rto;
  fastack = 0;
  xmit = 0;
}

-- The loop that moves segments from `snd_queue` (given beside the state) to `snd_buf`.
unfoldable pub fill_window : ℕ → ℕ → List KcpSegment → Kcp → Kcp
unfolding timediff outgoing
fill_window wnd cwnd [] k = k
fill_window wnd cwnd (s ∷ q) k =
    let rest = fill_window wnd cwnd q (record k {
      snd_queue = q;
      snd_nxt = add_u32 k.snd_nxt 1;
      snd_buf = k.snd_buf ++ outgoing wnd k s ∷ [];
    }) in
    if ltb_ℤ (timediff k.snd_nxt (add_u32 k.snd_una cwnd)) (pos 0) then rest else k

-- The window that `flush` sends within.
unfoldable pub send_window : Kcp → ℕ
send_window k = let cwnd = min k.snd_wnd k.rmt_wnd in if not k.nocwnd then min k.cwnd cwnd else cwnd

-- What the loop over `snd_buf` carries: the state, `lost` and `change`.
pub record Flushing : Type 0 where
  pub kcp : Kcp
  pub lost : Bool
  pub change : ℕ

-- Why a segment is sent, if it is.
pub data Reason : Type 0 where
  idle first timeout skipped : Reason

unfoldable pub resend_reason : ℕ → Kcp → KcpSegment → Reason
unfolding timediff
resend_reason resent k s =
    if s.xmit == 0
    then Reason.first
    else if leb_ℤ (pos 0) (timediff k.current s.resendts)
    then Reason.timeout
    else if leb resent s.fastack
    then Reason.skipped
    else Reason.idle

-- The segment's timers and counters for each reason.
unfoldable pub reschedule : Reason → ℕ → Kcp → KcpSegment → KcpSegment
reschedule Reason.idle rtomin k s = s
reschedule Reason.first rtomin k s = record s {
  xmit = add_u32 s.xmit 1;
  rto = k.rx_rto;
  resendts = add_u32 (add_u32 k.current k.rx_rto) rtomin;
}
reschedule Reason.timeout rtomin k s =
    let rto = add_u32 s.rto (if not k.nodelay then k.rx_rto else k.rx_rto / 2) in
    record s { xmit = add_u32 s.xmit 1; rto = rto; resendts = add_u32 k.current rto }
reschedule Reason.skipped rtomin k s = record s {
  xmit = add_u32 s.xmit 1;
  fastack = 0;
  resendts = add_u32 k.current s.rto;
}

-- The control's counters for each reason.
unfoldable pub note_reason : Reason → Flushing → Flushing
note_reason Reason.idle f = f
note_reason Reason.first f = f
note_reason Reason.timeout f = record f {
  kcp = record (f.kcp) { xmit = add_u32 f.kcp.xmit 1 };
  lost = true;
}
note_reason Reason.skipped f = record f { change = f.change + 1 }

unfoldable pub stamp : ℕ → Kcp → KcpSegment → KcpSegment
stamp wnd k s = record s { ts = k.current; wnd = wnd; una = k.rcv_nxt }

-- The body of `if need_send`.
unfoldable pub transmit : UdpSend → KcpSegment → Kcp → Outcome Kcp Kcp
transmit udp s k = make_room udp (overhead + length s.payload) k >>= λ k1.
    append_segment s k1 >>= λ k2.
    ok (if leb k2.dead_link s.xmit then record k2 { state = negsuc 0 } else k2)

-- The visit of a segment that is sent, between those visited and those to come; it gives the
-- segment as it now stands in `snd_buf`.
unfoldable pub send_visit :
    UdpSend
    → ℕ
    → Reason
    → ℕ
    → List KcpSegment
    → KcpSegment
    → List KcpSegment
    → Flushing
    → Outcome Kcp (KcpSegment × Flushing)
send_visit udp wnd reason rtomin done s todo f =
    let s' = stamp wnd f.kcp (reschedule reason rtomin f.kcp s) in
    let f' = note_reason reason f in
    transmit udp s' (record (f'.kcp) { snd_buf = done ++ s' ∷ todo }) >>= λ k.
    ok (s', record f' { kcp = k })

unfoldable pub visit :
    UdpSend
    → ℕ
    → Reason
    → ℕ
    → List KcpSegment
    → KcpSegment
    → List KcpSegment
    → Flushing
    → Outcome Kcp (KcpSegment × Flushing)
unfolding send_visit
visit udp wnd Reason.idle rtomin done s todo f = ok (s, f)
visit udp wnd reason rtomin done s todo f = send_visit udp wnd reason rtomin done s todo f

-- The loop over `snd_buf`: `done` was visited.
unfoldable pub flush_segments :
    UdpSend → ℕ → ℕ → ℕ → List KcpSegment → List KcpSegment → Flushing → Outcome Kcp Flushing
flush_segments udp wnd resent rtomin done [] f = ok f
flush_segments udp wnd resent rtomin done (s ∷ todo) f =
    visit udp wnd (resend_reason resent f.kcp s) rtomin done s todo f >>= λ (s', f').
    flush_segments udp wnd resent rtomin (done ++ s' ∷ []) todo f'

-- The window and threshold after a fast resend.
unfoldable pub after_change : ℕ → ℕ → Kcp → Kcp
after_change resent change k =
    if ltb 0 change
    then (let half = as_u16 (sub_u32 k.snd_nxt k.snd_una) / 2 in
        let thresh = (if ltb half thresh_min then thresh_min else half) in
        let cwnd = add_u16 thresh (as_u16 resent) in
        record k { ssthresh = thresh; cwnd = cwnd; incr = mul_u32 cwnd k.mss })
    else k

-- The window and threshold after a timeout.
unfoldable pub after_loss : ℕ → Bool → Kcp → Kcp
after_loss cwnd lost k =
    if lost
    then record k {
      ssthresh = (if ltb (cwnd / 2) thresh_min then thresh_min else cwnd / 2);
      cwnd = 1;
      incr = k.mss;
    }
    else k

unfoldable pub at_least_one : Kcp → Kcp
at_least_one k = if ltb k.cwnd 1 then record k { cwnd = 1; incr = k.mss } else k

unfoldable pub flush_rest : UdpSend → Kcp → Outcome Kcp Kcp
flush_rest udp k = if not (is_empty k.buf) then send_buf udp k else ok k

-- `flush` behind its guard.
unfoldable pub flush_all : UdpSend → Kcp → Outcome Kcp Kcp
flush_all udp k = flush_acklist udp (ack_segment k) k >>= λ (segment1, k1).
    flush_probe_commands udp segment1 (probe_wnd_size k1) >>= λ (segment, k2).
    let cwnd = send_window k2 in
    let k3 = fill_window segment.wnd cwnd k2.snd_queue k2 in
    let resent = (if ltb 0 k3.fastresend then k3.fastresend else u32_max) in
    let rtomin = (if not k3.nodelay then k3.rx_rto / 8 else 0) in
    flush_segments udp segment.wnd resent rtomin [] k3.snd_buf
      (record { kcp = k3; lost = false; change = 0 })
    >>= λ f. flush_rest udp f.kcp >>= λ k4.
        ok (at_least_one (after_loss cwnd f.lost (after_change resent f.change k4)))

unfoldable pub flush : UdpSend → Kcp → Outcome Kcp Kcp
flush udp k = if not k.updated then ok k else flush_all udp k
