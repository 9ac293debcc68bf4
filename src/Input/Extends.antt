-- ===== src/Input/Extends.antt =====
-- What `input` does to the queue that `recv` reads: it adds segments at its end.
use kcp_server.Base.{
  ℕ, ◌≤◌, ◌<◌, ◌≡◌, refl, ◌∙◌, sym, ap, ◌⊎◌, inl, inr, Bool, false, ◌&&◌, ◌||◌, List, [], ◌∷◌, ◌++◌,
  append_assoc, append-nil, length, arith, ltb, ◌==◌, Bool-cases, leb_ℤ, ltb_ℤ, pos, add_u32,
}
use kcp_server.Segment.{Bytes, KcpSegment, cmd_ack, cmd_push, cmd_wask}
use kcp_server.Control.{Kcp, timediff}
use kcp_server.Outcome.{Outcome, ok, err, panic, Ends, Ends-mono}
use kcp_server.Ack.{parse_fastack, update_ack, parse_ack, shrink_buf, parse_una, ack_push}
use kcp_server.Receive.{move_ready, move_available, insert_segment, parse_data}
use kcp_server.Input.{
  Reading, handle_segment, dispatch, input, input_ack, input_push, grow_cwnd, grow_slowly, cap_cwnd,
}
use kcp_server.Input.Keeps.{IsKept, input-Kept}
use kcp_server.Input.Loop.{entered}
use kcp_server.Input.Total.{mss-handle_segment, mss-parse_fastack, mss-grow_cwnd}

-- The queue is this one with segments added at its end.
abbrev pub Extends : List KcpSegment → List KcpSegment → Type 0
Extends q q' = (more : List KcpSegment) × (q' ≡ q ++ more)

pub Extends-refl : (q : List KcpSegment) → Extends q q
Extends-refl q = ([], sym (append-nil q))

pub Extends-trans : (q q' q'' : List KcpSegment) → Extends q q' → Extends q' q'' → Extends q q''
Extends-trans q q' q'' (more, e) (more', e') =
    (more ++ more', e' ∙ (ap (λ x. x ++ more') e ∙ append_assoc q more more'))

Extends-same : (q q' : List KcpSegment) → q' ≡ q → Extends q q'
Extends-same q q' e = ([], e ∙ sym (append-nil q))

move_ready-Extends :
    (wnd nxt : ℕ) (b q : List KcpSegment) → let (n, b', q') = move_ready wnd nxt b q in Extends q q'
unfolding move_ready
move_ready-Extends wnd nxt [] q = Extends-refl q
move_ready-Extends wnd nxt (s ∷ b) q = elim (Bool-cases (s.sn == nxt && ltb (length q) wnd)) [
  | inl on ↦ rw on (
      Extends-trans q (q ++ s ∷ []) _ (s ∷ [], refl)
        (move_ready-Extends wnd (add_u32 nxt 1) b (q ++ s ∷ [])))
  | inr off ↦ rw off (Extends-refl q)
]

parse_data-Extends : (k : Kcp) (s : KcpSegment) → Extends k.rcv_queue (parse_data k s).rcv_queue
unfolding parse_data move_available
parse_data-Extends k s =
    elim (Bool-cases (
      leb_ℤ (pos 0) (timediff s.sn (add_u32 k.rcv_nxt k.rcv_wnd))
      || ltb_ℤ (timediff s.sn k.rcv_nxt) (pos 0))) [
        | inl outside ↦ rw outside (Extends-refl k.rcv_queue)
        | inr inside ↦
            rw inside
              (move_ready-Extends k.rcv_wnd k.rcv_nxt (insert_segment s k.rcv_buf) k.rcv_queue)
      ]

queue-update_ack : (k : Kcp) (rtt : ℕ) → (update_ack k rtt).rcv_queue ≡ k.rcv_queue
unfolding update_ack
queue-update_ack k rtt = ground arith

queue-parse_ack : (k : Kcp) (sn : ℕ) → (parse_ack k sn).rcv_queue ≡ k.rcv_queue
unfolding parse_ack
queue-parse_ack k sn = ground arith

queue-parse_fastack : (k : Kcp) (sn : ℕ) → (parse_fastack k sn).rcv_queue ≡ k.rcv_queue
unfolding parse_fastack
queue-parse_fastack k sn = ground arith

queue-input_ack : (ts sn : ℕ) (r : Reading) → (input_ack ts sn r).kcp.rcv_queue ≡ r.kcp.rcv_queue
unfolding input_ack shrink_buf
queue-input_ack ts sn r = elim (Bool-cases (leb_ℤ (pos 0) (timediff r.kcp.current ts))) [
  | inl e ↦ rw e (queue-parse_ack _ sn ∙ queue-update_ack r.kcp _)
  | inr e ↦ rw e (queue-parse_ack r.kcp sn)
]

input_push-Extends : (s : KcpSegment) (k : Kcp) → Extends k.rcv_queue (input_push s k).rcv_queue
unfolding input_push ack_push
input_push-Extends s k =
    elim (Bool-cases (ltb_ℤ (timediff s.sn (add_u32 k.rcv_nxt k.rcv_wnd)) (pos 0))) [
      | inl inside ↦ elim (Bool-cases (leb_ℤ (pos 0) (timediff s.sn k.rcv_nxt))) [
        | inl new ↦ rw (inside, new) (parse_data-Extends (ack_push k s.sn s.ts) s)
        | inr old ↦ rw (inside, old) (Extends-refl k.rcv_queue)
      ]
      | inr outside ↦ rw outside (Extends-refl k.rcv_queue)
    ]

dispatch-Extends :
    (s : KcpSegment) (r : Reading) → Extends r.kcp.rcv_queue (dispatch s r).kcp.rcv_queue
unfolding dispatch
dispatch-Extends s r = elim (Bool-cases (s.cmd == cmd_ack)) [
  | inl acks ↦ rw acks (Extends-same _ _ (queue-input_ack s.ts s.sn r))
  | inr e ↦ elim (Bool-cases (s.cmd == cmd_push)) [
    | inl pushes ↦ rw (e, pushes) (input_push-Extends s r.kcp)
    | inr e' ↦ elim (Bool-cases (s.cmd == cmd_wask)) [
      | inl asks ↦ rw (e, e', asks) (Extends-refl r.kcp.rcv_queue)
      | inr e'' ↦ rw (e, e', e'') (Extends-refl r.kcp.rcv_queue)
    ]
  ]
]

handle_segment-Extends :
    (s : KcpSegment) (r : Reading) → Extends r.kcp.rcv_queue (handle_segment s r).kcp.rcv_queue
unfolding handle_segment shrink_buf parse_una
handle_segment-Extends s r = dispatch-Extends s (entered s r)

queue-grow_cwnd :
    (q : List KcpSegment) (old : ℕ) (k : Kcp)
    → k.rcv_queue ≡ q
    → 0 < k.mss
    → Ends (λ k'. k'.rcv_queue ≡ q) (λ k'. k'.rcv_queue ≡ q) (grow_cwnd old k)
unfolding grow_cwnd grow_slowly cap_cwnd
queue-grow_cwnd q old k e h = ground (arith, e, h)

-- A working control block whose queue extends this one.
abbrev pub Grown : ℕ → List KcpSegment → Kcp → Type 0
Grown mss q k = (k.mss ≡ mss) × Extends q k.rcv_queue

grow_cwnd-Grown :
    (mss : ℕ) (q : List KcpSegment) (old : ℕ) (k : Kcp)
    → 0 < mss
    → Grown mss q k
    → Ends (Grown mss q) (Grown mss q) (grow_cwnd old k)
grow_cwnd-Grown mss q old k h (e, x) =
    both (grow_cwnd old k) (mss-grow_cwnd mss old k e h)
      (queue-grow_cwnd k.rcv_queue old k refl (omega (arith, e, h)))
  where
    same : (k' : Kcp) → k'.mss ≡ mss → k'.rcv_queue ≡ k.rcv_queue → Grown mss q k'
    same k' a b = (a, (x.0, b ∙ x.1))

    both :
        (o : Outcome Kcp Kcp)
        → Ends (λ k'. k'.mss ≡ mss) (λ k'. k'.mss ≡ mss) o
        → Ends (λ k'. k'.rcv_queue ≡ k.rcv_queue) (λ k'. k'.rcv_queue ≡ k.rcv_queue) o
        → Ends (Grown mss q) (Grown mss q) o
    both (ok k') a b = same k' a b
    both (err e k') a b = same k' a b
    both panic a b = a

Grown-IsKept : (mss : ℕ) (q : List KcpSegment) → 0 < mss → IsKept (Grown mss q)
Grown-IsKept mss q h = record {
  handled = λ s r (e, x). (
    mss-handle_segment s r ∙ e,
    Extends-trans q r.kcp.rcv_queue _ x (handle_segment-Extends s r),
  );
  accepted = λ k conv w x. x;
  counted_fast = λ k sn (e, x). (
    mss-parse_fastack k sn ∙ e,
    Extends-trans q k.rcv_queue _ x (Extends-same _ _ (queue-parse_fastack k sn)),
  );
  grows = λ old k x. grow_cwnd-Grown mss q old k h x;
}

-- `input` takes nothing from the queue and changes nothing that stands there, on any bytes and on
-- errors too: it only adds segments at the end.
pub input-Grown :
    (mss : ℕ) (q : List KcpSegment) (k : Kcp) (buf : Bytes) (decoding : Bool)
    → 0 < mss
    → (decoding ≡ false) ⊎ (4 ≤ length buf)
    → Grown mss q k
    → Ends (λ (x : ℕ × Kcp). Grown mss q x.1) (Grown mss q) (input k buf decoding)
input-Grown mss q k buf decoding h long x =
    Ends-mono _ _ (Grown mss q) (input k buf decoding) (λ o y. y.1)
      (input-Kept (Grown mss q) (Grown-IsKept mss q h) k buf decoding x long)
