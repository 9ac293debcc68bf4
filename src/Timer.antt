-- ===== src/Timer.antt =====
-- The clock of Kcp in src/kcp/kcp_module/kcp.rs: flush_async, update and check.
pub mod Schedule
use kcp_server.Base.{
  ℕ, ◌+◌, Bool, true, false, not, ◌&&◌, ◌||◌, Option, none, some, List, [], ◌∷◌, min, ltb,
  if◌then◌else◌, ltb_ℤ, leb_ℤ, ℤ, pos, negsuc, pos_part, add_u32, u32_max,
}
use kcp_server.Segment.{KcpSegment}
use kcp_server.Control.{Kcp, UdpSend, timediff}
use kcp_server.Outcome.{Outcome, ok}
use kcp_server.Flush.{flush}

-- The first call of `update` or `flush_async`.
unfoldable pub first_update : Kcp → Kcp
first_update k = if not k.updated then record k { updated = true; ts_flush = k.current } else k

unfoldable pub flush_async : UdpSend → Kcp → Outcome Kcp Kcp
unfolding first_update flush
flush_async udp k = flush udp (first_update (record k { current = add_u32 k.current 10 }))

-- The i32 range `-10000..10000`.
unfoldable pub in_slack : ℤ → Bool
in_slack d = leb_ℤ (negsuc 9999) d && ltb_ℤ d (pos 10000)

-- The next flush time of `update`, where it flushes.
unfoldable pub next_flush : ℕ → ℕ → ℕ → ℕ
unfolding timediff
next_flush current ts_flush interval =
    let ts = add_u32 ts_flush interval in
    if leb_ℤ (pos 0) (timediff current ts) then add_u32 current interval else ts

-- The flush time that `update` leaves, and whether it flushes now.
unfoldable pub schedule : ℕ → ℕ → ℕ → ℕ × Bool
unfolding in_slack next_flush timediff
schedule current ts_flush interval =
    let slap = timediff current ts_flush in
    let ts = (if in_slack slap then ts_flush else current) in
    let slap2 = (if in_slack slap then slap else pos 0) in
    if leb_ℤ (pos 0) slap2 then (next_flush current ts interval, true) else (ts, false)

-- `update` up to the flush: the state, and whether to flush.
unfoldable pub advance_clock : Kcp → ℕ → Kcp × Bool
unfolding first_update schedule
advance_clock k current =
    let k1 = first_update (record k { current = current }) in
    let (ts, due) = schedule k1.current k1.ts_flush k1.interval in
    (record k1 { ts_flush = ts }, due)

unfoldable pub update : UdpSend → Kcp → ℕ → Outcome Kcp Kcp
unfolding advance_clock
update udp k current =
    let (k1, due) = advance_clock k current in if due then flush udp k1 else ok k1

-- The loop of `check`; `none` is its early return.
unfoldable pub next_resend : ℕ → List KcpSegment → ℕ → Option ℕ
unfolding timediff
next_resend current [] tm_packet = some tm_packet
next_resend current (s ∷ b) tm_packet =
    let diff = timediff s.resendts current in
    let rest =
      next_resend current b (if ltb (pos_part diff) tm_packet then pos_part diff else tm_packet) in
    if leb_ℤ diff (pos 0) then none else rest

-- The answer of `check` from the loop's.
unfoldable pub shortest : Option ℕ → ℕ → ℕ → ℕ
shortest none tm_flush interval = 0
shortest (some tm_packet) tm_flush interval = min (min tm_packet tm_flush) interval

-- `check` from the flush time on.
unfoldable pub time_left : Kcp → ℕ → ℕ → ℕ
unfolding timediff next_resend shortest
time_left k current ts_flush =
    if leb_ℤ (pos 0) (timediff current ts_flush)
    then 0
    else shortest (next_resend current k.snd_buf u32_max) (pos_part (timediff ts_flush current))
        k.interval

unfoldable pub check : Kcp → ℕ → ℕ
unfolding time_left
check k current =
    let d = timediff current k.ts_flush in
    if not k.updated
    then 0
    else time_left k current
        (if leb_ℤ (pos 10000) d || ltb_ℤ d (negsuc 9999) then current else k.ts_flush)
