-- ===== src/Reader/Stream.antt =====
-- The reader as a stream of bytes: what the calls of poll_read give, one after another, is what
-- stands in the cache and in the control block.
use kcp_server.Base.{
  ℕ, ◌≤◌, ◌≡◌, refl, ◌∙◌, sym, ap, inl, inr, List, [], ◌∷◌, ◌++◌, append_assoc, length,
  length-append, length-drop, take, drop, take-append_of, arith, ltb, Bool-cases, ◌&&◌, ◌==◌,
  add_u32, leb,
}
use kcp_server.Segment.{Bytes, KcpSegment}
use kcp_server.Control.{Kcp}
use kcp_server.Outcome.{Outcome, ok, err, panic}
use kcp_server.Receive.{move_ready, move_available, fast_recover, recv}
use kcp_server.Receive.Messages.{
  payloads, payloads-append, first_message, after_message, first-after_message, refilled, Received,
  recv-Received,
}

move_ready-append :
    (wnd nxt : ℕ) (b q : List KcpSegment)
    → let (n, b', q') = move_ready wnd nxt b q in q' ++ b' ≡ q ++ b
unfolding move_ready
move_ready-append wnd nxt [] q = refl
move_ready-append wnd nxt (s ∷ b) q = elim (Bool-cases (s.sn == nxt && ltb (length q) wnd)) [
  | inl on ↦
      rw (on) (move_ready-append wnd (add_u32 nxt 1) b (q ++ s ∷ []) ∙ append_assoc q (s ∷ []) b)
  | inr off ↦ rw off
]

-- The bytes that the control block holds for its reader, in order.
abbrev pub waiting : Kcp → Bytes
waiting k = payloads (k.rcv_queue ++ k.rcv_buf)

refilled-append :
    (k : Kcp)
    → (refilled k).rcv_queue ++ (refilled k).rcv_buf ≡ after_message k.rcv_queue ++ k.rcv_buf
unfolding fast_recover move_available
refilled-append k =
    elim (Bool-cases
      (ltb (length moved.rcv_queue) moved.rcv_wnd && leb k.rcv_wnd (length k.rcv_queue))) [
        | inl on ↦ rw on all
        | inr off ↦ rw off all
      ]
  where
    moved : Kcp
    moved = move_available (record k { rcv_queue = after_message k.rcv_queue })

    all : moved.rcv_queue ++ moved.rcv_buf ≡ after_message k.rcv_queue ++ k.rcv_buf
    all = move_ready-append k.rcv_wnd k.rcv_nxt k.rcv_buf (after_message k.rcv_queue)

-- The first message, and what waits behind it.
pub waiting-refilled :
    (k : Kcp) → waiting k ≡ payloads (first_message k.rcv_queue) ++ waiting (refilled k)
waiting-refilled k =
    ap (λ q. payloads (q ++ k.rcv_buf)) (sym (first-after_message k.rcv_queue))
    ∙ (ap payloads (append_assoc (first_message k.rcv_queue) (after_message k.rcv_queue) k.rcv_buf)
        ∙ (payloads-append (first_message k.rcv_queue) (after_message k.rcv_queue ++ k.rcv_buf)
            ∙ ap (λ q. payloads (first_message k.rcv_queue) ++ payloads q)
                (sym (refilled-append k))))

-- What `recv` does to the bytes that wait.
abbrev pub Took : Kcp → Bytes → Outcome Kcp (ℕ × Bytes × Kcp) → Type 0
Took k buf (ok (n, out, k')) =
    (n ≤ length buf) × (length out ≡ length buf) × (waiting k ≡ take n out ++ waiting k')
Took k buf (err e k') = k' ≡ k
Took k buf panic = ⊥

pub recv-Took : (k : Kcp) (buf : Bytes) → Took k buf (recv k buf)
recv-Took k buf = took (recv k buf) (recv-Received k buf)
  where
    first : Bytes
    first = payloads (first_message k.rcv_queue)

    whole :
        {n : ℕ} {out : Bytes} {k' : Kcp}
        → n ≡ length first
        → out ≡ first ++ drop n buf
        → k' ≡ refilled k
        → waiting k ≡ take n out ++ waiting k'
    whole {n} {out} {k'} size e e' =
        waiting-refilled k
        ∙ rw (ap waiting e', ap (take n) e, take-append_of n first (drop n buf) (sym size)) refl

    took : (o : Outcome Kcp (ℕ × Bytes × Kcp)) → Received k buf o → Took k buf o
    took (ok (n, out, k')) (size, room, e, e') = (
      room,
      omega (
        arith,
        ap length e,
        length-append (payloads (first_message k.rcv_queue)) (drop n buf),
        length-drop n buf,
        size,
      ),
      whole size e e',
    )
    took (err e k') r = r.0
    took panic r = r
