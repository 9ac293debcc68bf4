-- ===== src/Transmit.antt =====
-- Kcp::send of src/kcp/kcp_module/kcp.rs: cutting a message into the send queue.
pub mod Fragments
pub mod Message
pub mod Stream
use kcp_server.Base.{
  ℕ, zero, suc, ◌+◌, ◌-◌, ◌/◌, ◌%◌, Bool, ◌&&◌, not, List, [], ◌∷◌, ◌++◌, length, is_empty, take,
  drop, min, ltb, leb, ◌==◌, if◌then◌else◌, as_u8,
}
use kcp_server.Error.{Error}
use kcp_server.Segment.{Bytes, KcpSegment, new_with_data}
use kcp_server.Control.{Kcp, wnd_rcv}
use kcp_server.Outcome.{Outcome, ok, err, panic}

-- `usize::div_ceil`.
abbrev pub div_ceil : ℕ → ℕ → ℕ
div_ceil a b = if a % b == 0 then a / b else a / b + 1

unfoldable pub fragment_count : ℕ → ℕ → ℕ
fragment_count mss len = if leb len mss then 1 else div_ceil len mss

-- The loop `for i in 0..count`, on the rounds left: with `n` to come, `count - i - 1` is `n`.
-- It gives `sent_size` and the queue.
unfoldable pub push_fragments : Bool → ℕ → ℕ → Bytes → ℕ → List KcpSegment → ℕ × List KcpSegment
push_fragments stream mss zero buf sent_size q = (sent_size, q)
push_fragments stream mss (suc n) buf sent_size q =
    let size = min mss (length buf) in
    let frg = (if stream then 0 else as_u8 n) in
    push_fragments stream mss n (drop size buf) (sent_size + size)
      (q ++ record (new_with_data (take size buf)) { frg = frg } ∷ [])

-- `send` from the count on, with the bytes that are left.
unfoldable pub send_rest : ℕ → Bytes → Kcp → Outcome Kcp (ℕ × Kcp)
unfolding fragment_count push_fragments
send_rest sent_size buf k =
    let count = fragment_count k.mss (length buf) in
    if leb wnd_rcv count
    then err Error.user_buf_too_big k
    else if count == 0
    then panic
    else (let (size, q) = push_fragments k.stream k.mss count buf sent_size k.snd_queue in
        ok (size, record k { snd_queue = q }))

-- Stream mode fills the last queued segment first: the bytes taken, those left, and the queue.
unfoldable pub extend_back : ℕ → Bytes → List KcpSegment → ℕ × Bytes × List KcpSegment
extend_back mss buf [] = (0, buf, [])
extend_back mss buf (old ∷ []) =
    let l = length old.payload in
    let extend = min (length buf) (mss - l) in
    if ltb l mss
    then (
      extend,
      drop extend buf,
      record old { payload = old.payload ++ take extend buf; frg = 0 } ∷ [],
    )
    else (0, buf, old ∷ [])
extend_back mss buf (s ∷ t ∷ q) =
    let (extend, rest, q') = extend_back mss buf (t ∷ q) in (extend, rest, s ∷ q')

unfoldable pub send : Kcp → Bytes → Outcome Kcp (ℕ × Kcp)
unfolding extend_back send_rest
send k buf =
    if k.mss == 0
    then panic
    else if k.stream && not (is_empty k.snd_queue)
    then (let (extend, rest, q) = extend_back k.mss buf k.snd_queue in
        let k1 = record k { snd_queue = q } in
        if is_empty rest then ok (extend, k1) else send_rest extend rest k1)
    else send_rest 0 buf k
