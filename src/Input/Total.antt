-- ===== src/Input/Total.antt =====
-- `input` on any bytes: it does not panic, and its loop ends within its fuel.
use kcp_server.Base.{
  ℕ, ◌≤◌, ◌<◌, ◌≡◌, refl, ◌∙◌, Bool, false, length, arith, Bool-cases, leb_ℤ, pos, inl, inr, ◌⊎◌,
}
use kcp_server.Segment.{Bytes, KcpSegment}
use kcp_server.Control.{Kcp, timediff}
use kcp_server.Ack.{parse_fastack, update_ack, parse_ack, shrink_buf, parse_una, ack_push}
use kcp_server.Receive.{parse_data}
use kcp_server.Outcome.{Ends}
use kcp_server.Input.{
  Reading, handle_segment, dispatch, input, input_ack, input_push, grow_cwnd, grow_slowly, cap_cwnd,
}
use kcp_server.Input.Keeps.{IsKept, input-Kept}
use kcp_server.Input.Loop.{entered}

mss-update_ack : (k : Kcp) (rtt : ℕ) → (update_ack k rtt).mss ≡ k.mss
unfolding update_ack
mss-update_ack k rtt = ground arith

mss-parse_ack : (k : Kcp) (sn : ℕ) → (parse_ack k sn).mss ≡ k.mss
unfolding parse_ack
mss-parse_ack k sn = ground arith

pub mss-parse_fastack : (k : Kcp) (sn : ℕ) → (parse_fastack k sn).mss ≡ k.mss
unfolding parse_fastack
mss-parse_fastack k sn = ground arith

mss-parse_data : (k : Kcp) (s : KcpSegment) → (parse_data k s).mss ≡ k.mss
unfolding parse_data
mss-parse_data k s = ground arith

mss-input_push : (s : KcpSegment) (k : Kcp) → (input_push s k).mss ≡ k.mss
unfolding input_push ack_push
mss-input_push s k = ground (arith, mss-parse_data (ack_push k s.sn s.ts) s)

mss-input_ack : (ts sn : ℕ) (r : Reading) → (input_ack ts sn r).kcp.mss ≡ r.kcp.mss
unfolding input_ack shrink_buf
mss-input_ack ts sn r = elim (Bool-cases (leb_ℤ (pos 0) (timediff r.kcp.current ts))) [
  | inl e ↦ rw e (mss-parse_ack _ sn ∙ mss-update_ack r.kcp _)
  | inr e ↦ rw e (mss-parse_ack r.kcp sn)
]

pub mss-handle_segment : (s : KcpSegment) (r : Reading) → (handle_segment s r).kcp.mss ≡ r.kcp.mss
unfolding handle_segment dispatch shrink_buf parse_una
mss-handle_segment s r =
    ground (arith, mss-input_ack s.ts s.sn (entered s r), mss-input_push s (entered s r).kcp)

pub mss-grow_cwnd :
    (mss old : ℕ) (k : Kcp)
    → k.mss ≡ mss
    → 0 < mss
    → Ends (λ k'. k'.mss ≡ mss) (λ k'. k'.mss ≡ mss) (grow_cwnd old k)
unfolding grow_cwnd grow_slowly cap_cwnd
mss-grow_cwnd mss old k e h = ground (arith, e, h)

mss-IsKept : (mss : ℕ) → 0 < mss → IsKept (λ k. k.mss ≡ mss)
mss-IsKept mss h = record {
  handled = λ s r e. mss-handle_segment s r ∙ e;
  accepted = λ k conv w e. e;
  counted_fast = λ k sn e. mss-parse_fastack k sn ∙ e;
  grows = λ old k e. mss-grow_cwnd mss old k e h;
}

-- `input` answers any bytes, where the segment size is above 0 and where a datagram to be decoded
-- has four bytes at least: it does not panic, its loop ends, it consumes no more bytes than it is
-- given, and it leaves the segment size alone, on errors too.
pub input-Ends :
    (k : Kcp) (buf : Bytes) (decoding : Bool)
    → 0 < k.mss
    → (decoding ≡ false) ⊎ (4 ≤ length buf)
    → Ends
        (λ (x : ℕ × Kcp). (x.0 ≤ length buf) × (x.1.mss ≡ k.mss))
        (λ k'. k'.mss ≡ k.mss)
        (input k buf decoding)
input-Ends k buf decoding h =
    input-Kept (λ k'. k'.mss ≡ k.mss) (mss-IsKept k.mss h) k buf decoding refl
