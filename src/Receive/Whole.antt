-- ===== src/Receive/Whole.antt =====
-- When `recv` of src/kcp/kcp_module/kcp.rs answers with a message, and with which error it refuses.
use kcp_server.Base.{
  ℕ, ◌+◌, ◌≤◌, ◌<◌, ◌≡◌, refl, ap, ◌⊎◌, inl, inr, ◌≢◌, false, List, [], ◌∷◌, ◌++◌, length, drop,
  is_empty, as_u8, ltb, ◌==◌, Bool-cases, arith, ltb→lt, ltb_false→le,
}
use kcp_server.Error.{Error}
use kcp_server.Segment.{Bytes, KcpSegment}
use kcp_server.Control.{Kcp}
use kcp_server.Outcome.{Outcome, ok, err, panic}
use kcp_server.Receive.{recv, peek_size, peek_queue}
use kcp_server.Receive.Messages.{payloads, first_message, refilled, Received, recv-Received}

-- As many segments stand in the queue as the first one's fragment number says, one byte wide.
abbrev pub IsComplete : List KcpSegment → Type 0
IsComplete [] = ⊥
IsComplete (s ∷ q) = (s.frg ≡ 0) ⊎ (as_u8 (s.frg + 1) ≤ length (s ∷ q))

-- Fragments of the first message are missing.
abbrev pub IsPartial : List KcpSegment → Type 0
IsPartial [] = ⊥
IsPartial (s ∷ q) = (s.frg ≢ 0) × (length (s ∷ q) < as_u8 (s.frg + 1))

-- Why `recv` refuses.
abbrev pub Refused : List KcpSegment → Bytes → Error → Type 0
Refused q buf e =
    ((q ≡ []) × (e ≡ Error.recv_queue_empty))
    ⊎ ((IsPartial q × (e ≡ Error.expecting_fragment))
        ⊎ (IsComplete q
            × (length buf < length (payloads (first_message q)))
            × (e ≡ Error.user_buf_too_small (length (payloads (first_message q))))))

-- What a call of `recv` comes to.
abbrev pub Fetched : Kcp → Bytes → Outcome Kcp (ℕ × Bytes × Kcp) → Type 0
Fetched k buf (ok (n, out, k')) =
    IsComplete k.rcv_queue
    × (n ≡ length (payloads (first_message k.rcv_queue)))
    × (n ≤ length buf)
    × (out ≡ payloads (first_message k.rcv_queue) ++ drop n buf)
    × (k' ≡ refilled k)
Fetched k buf (err e k') = (k' ≡ k) × Refused k.rcv_queue buf e
Fetched k buf panic = ⊥

-- The guards of `peek_size`.
peek_queue-guards :
    (q : List KcpSegment)
    → ((q ≡ []) × (peek_queue q ≡ inl Error.recv_queue_empty))
      ⊎ ((IsPartial q × (peek_queue q ≡ inl Error.expecting_fragment))
          ⊎ (IsComplete q × ((size : ℕ) × (peek_queue q ≡ inr size))))
unfolding peek_queue
peek_queue-guards [] = inl (refl, refl)
peek_queue-guards (s ∷ q) = elim (Bool-cases (s.frg == 0)) [
  | inl last ↦ rw last (inr (inr (inl (ground (arith, last)), (length s.payload, refl))))
  | inr more ↦ elim (Bool-cases (ltb (length (s ∷ q)) (as_u8 (s.frg + 1)))) [
    | inl short ↦
        rw (more, short) (inr (inl ((((λ e. ground (arith, more, e)), ltb→lt _ _ short)), refl)))
    | inr whole ↦ rw (more, whole) (inr (inr (inr (ltb_false→le _ _ whole), (_, refl))))
  ]
]

partial-some : (q : List KcpSegment) → IsPartial q → is_empty q ≡ false
partial-some [] h = absurd h
partial-some (s ∷ q) h = refl

-- `recv` takes the first message from the queue, in order, into the front of the caller's buffer and
-- leaves the rest of that buffer, and it does so only where as many segments stand in the queue as
-- the first one's fragment number says (one more than it, as a byte). On an empty queue, on fewer
-- segments than that, and on a buffer that is too small, it returns the error that says so, and
-- changes nothing. It does not panic.
pub recv-Fetched : (k : Kcp) (buf : Bytes) → Fetched k buf (recv k buf)
unfolding recv peek_size
recv-Fetched k buf = elim (peek_queue-guards k.rcv_queue) [
  | inl (empty, p) ↦ rw (ap is_empty empty) (refl, inl (empty, refl))
  | inr (inl (partial, p)) ↦
      rw (partial-some k.rcv_queue partial, p) (refl, inr (inl (partial, refl)))
  | inr (inr (complete, (size, p))) ↦ there complete size p (recv k buf) (recv-Received k buf)
]
  where
    there :
        IsComplete k.rcv_queue
        → (size : ℕ) → peek_queue k.rcv_queue ≡ inr size
        → (o : Outcome Kcp (ℕ × Bytes × Kcp)) → Received k buf o
        → Fetched k buf o
    there complete size p (ok (n, out, k')) r = (complete, r.0, r.1, r.2, r.3)
    there complete size p (err e k') (same, inl f) = absurd (cc (p, f))
    there complete size p (err e k') (same, inr (f, small, why)) =
        (same, inr (inr (complete, small, why)))
    there complete size p panic r = r
