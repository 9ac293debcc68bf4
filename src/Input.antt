-- ===== src/Input.antt =====
-- Kcp::input of src/kcp/kcp_module/kcp.rs: reading the segments of a datagram.
pub mod Loop
pub mod Reads
pub mod Parses
pub mod Keeps
pub mod Total
pub mod Wire
pub mod Extends
use kcp_server.Base.{
  ℕ, zero, suc, ◌+◌, ◌*◌, ◌/◌, Bool, true, false, ◌&&◌, ◌||◌, not, Option, none, some, List, [],
  ◌∷◌, ◌++◌, length, take, drop, ltb, leb, ◌==◌, if◌then◌else◌, ltb_ℤ, leb_ℤ, pos, pos_part, bit_or,
  add_u16, add_u32, mul_u32,
}
use kcp_server.Error.{Error}
use kcp_server.Segment.{
  Bytes, KcpSegment, cmd_push, cmd_ack, cmd_wask, cmd_wins, overhead, get_u32_le, read_header,
}
use kcp_server.Cipher.{decode}
use kcp_server.Control.{Kcp, timediff, ask_tell}
use kcp_server.Outcome.{Outcome, ok, err, panic, ◌>>=◌}
use kcp_server.Receive.{parse_data}
use kcp_server.Ack.{update_ack, shrink_buf, parse_ack, parse_una, parse_fastack, ack_push}

-- What the loop of `input` carries: the state, `flag` and `max_ack`, and the cursor as the bytes
-- ahead and its position.
pub record Reading : Type 0 where
  pub kcp : Kcp
  pub flag : Bool
  pub max_ack : ℕ
  pub ahead : Bytes
  pub position : ℕ

unfoldable pub accept_conv : Kcp → ℕ → Outcome Kcp Kcp
accept_conv k conv =
    if conv == k.conv
    then ok k
    else if k.input_conv
    then ok (record k { conv = conv; input_conv = false })
    else err (Error.conv_inconsistent k.conv conv) k

unfoldable pub known_cmd : ℕ → Bool
known_cmd cmd = cmd == cmd_push || cmd == cmd_ack || cmd == cmd_wask || cmd == cmd_wins

unfoldable pub input_ack : ℕ → ℕ → Reading → Reading
input_ack ts sn r =
    let k = r.kcp in
    let rtt = timediff k.current ts in
    let k1 = (if leb_ℤ (pos 0) rtt then update_ack k (pos_part rtt) else k) in
    let newest = not r.flag || ltb_ℤ (pos 0) (timediff sn r.max_ack) in
    record r {
      kcp = shrink_buf (parse_ack k1 sn);
      flag = true;
      max_ack = (if newest then sn else r.max_ack);
    }

-- The segment that a push carries.
unfoldable pub input_push : KcpSegment → Kcp → Kcp
input_push s k =
    if ltb_ℤ (timediff s.sn (add_u32 k.rcv_nxt k.rcv_wnd)) (pos 0)
    then (let k1 = ack_push k s.sn s.ts in
        if leb_ℤ (pos 0) (timediff s.sn k1.rcv_nxt) then parse_data k1 s else k1)
    else k

-- The commands; the header has passed its checks.
unfoldable pub dispatch : KcpSegment → Reading → Reading
dispatch s r =
    if s.cmd == cmd_ack
    then input_ack s.ts s.sn r
    else if s.cmd == cmd_push
    then record r { kcp = input_push s r.kcp }
    else if s.cmd == cmd_wask
    then record r { kcp = record (r.kcp) { probe = bit_or r.kcp.probe ask_tell } }
    else r

-- What each command follows: the remote window, and the cumulative acknowledgement.
unfoldable pub handle_segment : KcpSegment → Reading → Reading
handle_segment s r =
    dispatch s
      (record r { kcp = shrink_buf (parse_una (record (r.kcp) { rmt_wnd = s.wnd }) s.una) })

-- The rest of a round once its header is read, under an accepted conversation: the checks, the
-- command, and the skip of the payload. A failed read panics.
unfoldable pub take_segment : Kcp → Reading → Option (KcpSegment × ℕ × Bytes) → Outcome Kcp Reading
take_segment k r none = panic
take_segment k r (some (s, len, rest)) =
    if ltb (length rest) len
    then err (Error.invalid_segment_data_size len (length rest)) k
    else if known_cmd s.cmd
    then (let r' = handle_segment (record s { payload = take len rest }) (record r { kcp = k }) in
        ok (record r' { ahead = drop len rest; position = r'.position + overhead + len }))
    else err (Error.unsupported_cmd s.cmd) k

-- A round from its conversation on.
unfoldable pub read_segment : Reading → Option (ℕ × Bytes) → Outcome Kcp Reading
unfolding accept_conv take_segment
read_segment r none = panic
read_segment r (some (conv, b)) =
    accept_conv r.kcp conv >>= λ k. take_segment k r (read_header conv b)

-- One round of the loop.
unfoldable pub input_step : Reading → Outcome Kcp Reading
unfolding read_segment
input_step r = read_segment r (get_u32_le r.ahead)

-- The loop, on fuel. Out of fuel counts as a panic.
unfoldable pub input_loop : ℕ → Reading → Outcome Kcp Reading
input_loop zero r = panic
input_loop (suc fuel) r = elim (ltb (length r.ahead) overhead) [
  | true ↦ ok r
  | false ↦ input_step r >>= λ r'. input_loop fuel r'
]

-- The slow part of the growth; a division by zero panics.
unfoldable pub grow_slowly : ℕ → Kcp → Outcome Kcp Kcp
grow_slowly mss k =
    let incr0 = (if ltb k.incr mss then mss else k.incr) in
    let incr1 = add_u32 incr0 (add_u32 (mul_u32 mss mss / incr0) (mss / 16)) in
    if incr0 == 0
    then panic
    else ok (record k {
      incr = incr1;
      cwnd = (if leb (mul_u32 (add_u16 k.cwnd 1) mss) incr1 then add_u16 k.cwnd 1 else k.cwnd);
    })

-- The congestion window stays within the remote one.
unfoldable pub cap_cwnd : ℕ → Kcp → Kcp
cap_cwnd mss k =
    if ltb k.rmt_wnd k.cwnd then record k { cwnd = k.rmt_wnd; incr = mul_u32 k.rmt_wnd mss } else k

-- The congestion window grows where something was acknowledged.
unfoldable pub grow_cwnd : ℕ → Kcp → Outcome Kcp Kcp
grow_cwnd old_una k =
    if ltb old_una k.snd_una && ltb k.cwnd k.rmt_wnd
    then ((if ltb k.cwnd k.ssthresh
          then ok (record k { cwnd = add_u16 k.cwnd 1; incr = add_u32 k.incr k.mss })
          else grow_slowly k.mss k)
        >>= λ k1. ok (cap_cwnd k.mss k1))
    else ok k

-- `input` behind the cipher: the bytes are decoded.
unfoldable pub input_plain : Kcp → Bytes → Outcome Kcp (ℕ × Kcp)
input_plain k buf =
    if ltb (length buf) overhead
    then err (Error.invalid_segment_size (length buf)) k
    else input_loop (suc (length buf))
        (record { kcp = k; flag = false; max_ack = 0; ahead = buf; position = 0 })
      >>= λ r.
          let k1 = (if r.flag then parse_fastack r.kcp r.max_ack else r.kcp) in
          grow_cwnd k.snd_una k1 >>= λ k2. ok (r.position, k2)

-- The slice `buf[4..]` panics on a shorter buffer.
unfoldable pub input : Kcp → Bytes → Bool → Outcome Kcp (ℕ × Kcp)
input k buf decoding =
    if decoding
    then (if ltb (length buf) 4
        then panic
        else input_plain k (take 4 buf ++ decode k.output.key (drop 4 buf)))
    else input_plain k buf
