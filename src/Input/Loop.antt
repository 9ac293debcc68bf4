-- ===== src/Input/Loop.antt =====
-- `input` on a datagram: it handles the segments that the datagram was encoded from, in order.
use kcp_server.Base.{
  ℕ, zero, suc, ◌+◌, ◌*◌, ◌≢◌, ◌≤◌, ◌<◌, ◌≡◌, refl, ◌∙◌, ap, true, false, some, List, [], ◌∷◌, ◌++◌,
  append_assoc, length, length-append, take-append, drop-append, arith, ltb, ◌==◌, if◌then◌else◌,
  All, le→ltb_false, lt→ltb, Bool-cases, leb_ℤ, pos, inl, inr,
}
use native.Mathlib.Nat.{zero-add}
use kcp_server.Segment.{Bytes, KcpSegment, overhead, segment_bytes, encoded_len, get_u32_le}
use kcp_server.Segment.RoundTrip.{
  Fits, on_wire, after_conv, read_header-put, segment_bytes-split, get-put_u32_le,
  length-segment_bytes,
}
use kcp_server.Control.{Kcp, timediff}
use kcp_server.Ack.{parse_fastack, update_ack, parse_ack, shrink_buf, parse_una, ack_push}
use kcp_server.Receive.{parse_data}
use kcp_server.Outcome.{Outcome, ok, ◌>>=◌}
use kcp_server.Input.{
  Reading, known_cmd, handle_segment, dispatch, input_step, input_loop, input_plain, input_ack,
  input_push, grow_cwnd,
}

-- A segment that this conversation's peer may send.
pub record IsValid (conv : ℕ) (s : KcpSegment) : Type 0 where
  pub fits : Fits s
  pub same_conv : s.conv ≡ conv
  pub command : known_cmd s.cmd ≡ true

-- The bytes of a datagram of segments.
abbrev pub datagram : List KcpSegment → Bytes
datagram [] = []
datagram (s ∷ q) = segment_bytes s ++ datagram q

-- One round, on the segment that stands ahead: the reading behind it.
unfoldable pub consumed : KcpSegment → Bytes → Reading → Reading
consumed s rest r =
    let r' = handle_segment (on_wire s) r in
    record r' { ahead = rest; position = r'.position + overhead + length s.payload }

input_step-consumed :
    (s : KcpSegment) (rest : Bytes) (r : Reading)
    → IsValid r.kcp.conv s
    → r.ahead ≡ segment_bytes s ++ rest
    → input_step r ≡ ok (consumed s rest r)
unfolding input_step consumed on_wire
input_step-consumed s rest r v e =
    let conv : get_u32_le r.ahead ≡ some (s.conv, after_conv s rest) =
      rw (e, segment_bytes-split s rest)
        (get-put_u32_le s.conv (after_conv s rest) v.fits.conv_fits) in
    let same : (s.conv == r.kcp.conv) ≡ true = ground (arith, v.same_conv) in
    let room : ltb (length (s.payload ++ rest)) (length s.payload) ≡ false =
      le→ltb_false _ _ (omega (arith, length-append s.payload rest)) in
    rw (conv, input_step, same, read_header-put s rest v.fits, room, v.command)
      (rw (take-append s.payload rest, drop-append s.payload rest))

conv-update_ack : (k : Kcp) (rtt : ℕ) → (update_ack k rtt).conv ≡ k.conv
unfolding update_ack
conv-update_ack k rtt = ground arith

conv-parse_ack : (k : Kcp) (sn : ℕ) → (parse_ack k sn).conv ≡ k.conv
unfolding parse_ack
conv-parse_ack k sn = ground arith

conv-parse_data : (k : Kcp) (s : KcpSegment) → (parse_data k s).conv ≡ k.conv
unfolding parse_data
conv-parse_data k s = ground arith

conv-input_push : (s : KcpSegment) (k : Kcp) → (input_push s k).conv ≡ k.conv
unfolding input_push ack_push
conv-input_push s k = ground (arith, conv-parse_data (ack_push k s.sn s.ts) s)

conv-input_ack : (ts sn : ℕ) (r : Reading) → (input_ack ts sn r).kcp.conv ≡ r.kcp.conv
unfolding input_ack shrink_buf
conv-input_ack ts sn r = elim (Bool-cases (leb_ℤ (pos 0) (timediff r.kcp.current ts))) [
  | inl e ↦ rw e (conv-parse_ack _ sn ∙ conv-update_ack r.kcp _)
  | inr e ↦ rw e (conv-parse_ack r.kcp sn)
]

-- The reading that the command of a segment finds.
abbrev pub entered : KcpSegment → Reading → Reading
entered s r = record r { kcp = shrink_buf (parse_una (record (r.kcp) { rmt_wnd = s.wnd }) s.una) }

-- Handling a segment leaves the conversation and the cursor's count alone.
conv-handle_segment : (s : KcpSegment) (r : Reading) → (handle_segment s r).kcp.conv ≡ r.kcp.conv
unfolding handle_segment dispatch shrink_buf parse_una
conv-handle_segment s r =
    ground (arith, conv-input_ack s.ts s.sn (entered s r), conv-input_push s (entered s r).kcp)

pub position-handle_segment :
    (s : KcpSegment) (r : Reading) → (handle_segment s r).position ≡ r.position
unfolding handle_segment dispatch input_ack
position-handle_segment s r = ground arith

-- How `input` starts to read.
abbrev pub start : Kcp → Bytes → Reading
start k buf = record { kcp = k; flag = false; max_ack = 0; ahead = buf; position = 0 }

-- The segments one after another, with the bytes behind each.
unfoldable pub handle_all : List KcpSegment → Bytes → Reading → Reading
handle_all [] tail r = r
handle_all (s ∷ q) tail r = handle_all q tail (consumed s (datagram q ++ tail) r)

ahead-handle_all :
    (q : List KcpSegment) (tail : Bytes) (r : Reading)
    → r.ahead ≡ datagram q ++ tail
    → (handle_all q tail r).ahead ≡ tail
unfolding handle_all consumed
ahead-handle_all [] tail r e = e
ahead-handle_all (s ∷ q) tail r e = ahead-handle_all q tail (consumed s (datagram q ++ tail) r) refl

position-handle_all :
    (q : List KcpSegment) (tail : Bytes) (r : Reading)
    → (handle_all q tail r).position ≡ r.position + length (datagram q)
unfolding handle_all encoded_len
position-handle_all [] tail r = omega arith
position-handle_all (s ∷ q) tail r = omega (
  arith,
  position-handle_all q tail (consumed s (datagram q ++ tail) r),
  position-consumed,
  length-append (segment_bytes s) (datagram q),
  length-segment_bytes s,
)
  where
    position-consumed :
        (consumed s (datagram q ++ tail) r).position ≡ r.position + (24 + length s.payload)
    position-consumed = unfold consumed in omega (arith, position-handle_segment (on_wire s) r)

conv-consumed :
    (s : KcpSegment) (rest : Bytes) (r : Reading) → (consumed s rest r).kcp.conv ≡ r.kcp.conv
unfolding consumed
conv-consumed s rest r = conv-handle_segment (on_wire s) r

-- The loop reads a datagram to its end, on fuel for one round a segment and one more.
input_loop-handle_all :
    (q : List KcpSegment) (tail : Bytes) (r : Reading) (fuel : ℕ)
    → All (IsValid r.kcp.conv) q
    → length tail < overhead
    → length q < fuel
    → r.ahead ≡ datagram q ++ tail
    → input_loop fuel r ≡ ok (handle_all q tail r)
unfolding input_loop handle_all encoded_len
input_loop-handle_all q tail r zero v t f e = absurd (omega arith)
input_loop-handle_all [] tail r (suc fuel) v t f e =
    let short : ltb (length r.ahead) overhead ≡ true = rw e (lt→ltb _ _ t) in rw (short, input_loop)
input_loop-handle_all (s ∷ q) tail r (suc fuel) v t f e =
    let whole : r.ahead ≡ segment_bytes s ++ (datagram q ++ tail) =
      e ∙ append_assoc (segment_bytes s) (datagram q) tail in
    let long : ltb (length r.ahead) overhead ≡ false = le→ltb_false _ _ (
      omega (
        arith,
        ap length whole,
        length-append (segment_bytes s) (datagram q ++ tail),
        length-segment_bytes s,
      )) in
    rw (long, input_loop, input_step-consumed s (datagram q ++ tail) r v.0 whole)
      (input_loop-handle_all q tail (consumed s (datagram q ++ tail) r) fuel
        (rw (conv-consumed s (datagram q ++ tail) r) v.1) t (omega arith) (unfold consumed in refl))

pub length-datagram : (q : List KcpSegment) → overhead * length q ≤ length (datagram q)
unfolding encoded_len
length-datagram [] = omega arith
length-datagram (s ∷ q) =
    omega (
      arith,
      length-append (segment_bytes s) (datagram q),
      length-segment_bytes s,
      length-datagram q,
    )

-- What `input` does once the loop is over.
abbrev pub concluded : Kcp → Reading → Outcome Kcp (ℕ × Kcp)
concluded k r =
    grow_cwnd k.snd_una (if r.flag then parse_fastack r.kcp r.max_ack else r.kcp) >>= λ k'.
    ok (r.position, k')

-- A datagram of whole segments of this conversation, which may end in less than a header: `input`
-- handles each of its segments, once and in order, up to the end of the last, and then counts the
-- fast acknowledgements and lets the congestion window grow.
pub input_plain-datagram :
    (k : Kcp) (q : List KcpSegment) (tail : Bytes)
    → All (IsValid k.conv) q
    → q ≢ []
    → length tail < overhead
    → let r = handle_all q tail (start k (datagram q ++ tail)) in
      (input_plain k (datagram q ++ tail) ≡ concluded k r) × (r.position ≡ length (datagram q))
unfolding input_plain encoded_len
input_plain-datagram k [] tail v ne t = absurd (ne refl)
input_plain-datagram k (s ∷ q) tail v ne t = (
  rw (
    long,
    input_loop-handle_all (s ∷ q) tail (start k (datagram (s ∷ q) ++ tail)) _ v t fuel refl,
  ),
  position-handle_all (s ∷ q) tail (start k (datagram (s ∷ q) ++ tail)) ∙ zero-add _,
)
  where
    size : length (datagram (s ∷ q) ++ tail) ≡ length (datagram (s ∷ q)) + length tail
    size = length-append (datagram (s ∷ q)) tail

    long : ltb (length (datagram (s ∷ q) ++ tail)) overhead ≡ false
    long = le→ltb_false _ _ (omega (arith, size, length-datagram (s ∷ q)))

    fuel : length (s ∷ q) < suc (length (datagram (s ∷ q) ++ tail))
    fuel = omega (arith, size, length-datagram (s ∷ q))
