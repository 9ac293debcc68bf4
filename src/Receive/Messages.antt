-- ===== src/Receive/Messages.antt =====
-- What `recv` gives its caller: one whole message, or an error and no change.
use kcp_server.Base.{
  ℕ, ◌+◌, ◌≤◌, ◌<◌, ◌≡◌, refl, ◌∙◌, sym, ap, ◌⊎◌, inl, inr, true, some, List, [], ◌∷◌, ◌++◌,
  append_assoc, append-nil, length, length-append, drop, arith, ltb, leb, ◌==◌, if◌then◌else◌,
  is_empty, Bool-cases, ltb→lt, as_u8,
}
use kcp_server.Error.{Error}
use kcp_server.Segment.{Bytes, KcpSegment}
use kcp_server.Control.{Kcp}
use kcp_server.Outcome.{Outcome, ok, err, panic}
use kcp_server.Receive.{
  message_size, peek_queue, peek_size, merge, move_available, fast_recover, recv_message, recv,
}

-- The bytes of a row of segments.
abbrev pub payloads : List KcpSegment → Bytes
payloads [] = []
payloads (s ∷ q) = s.payload ++ payloads q

pub payloads-append : (p q : List KcpSegment) → payloads (p ++ q) ≡ payloads p ++ payloads q
payloads-append [] q = refl
payloads-append (s ∷ p) q =
    ap (◌++◌ s.payload) (payloads-append p q)
    ∙ sym (append_assoc s.payload (payloads p) (payloads q))

-- The segments of a queue up to the first that ends a message, and those behind it.
unfoldable pub first_message : List KcpSegment → List KcpSegment
first_message [] = []
first_message (s ∷ q) = s ∷ (if s.frg == 0 then [] else first_message q)

unfoldable pub after_message : List KcpSegment → List KcpSegment
after_message [] = []
after_message (s ∷ q) = if s.frg == 0 then q else after_message q

pub first-after_message : (q : List KcpSegment) → first_message q ++ after_message q ≡ q
unfolding first_message after_message
first-after_message [] = refl
first-after_message (s ∷ q) = ground (arith, first-after_message q)

message_size-length :
    (q : List KcpSegment) (n : ℕ) → message_size q n ≡ n + length (payloads (first_message q))
unfolding message_size first_message
message_size-length [] n = omega arith
message_size-length (s ∷ q) n = ground (
  arith,
  message_size-length q (n + length s.payload),
  length-append s.payload [],
  length-append s.payload (payloads (first_message q)),
)

-- The loop of `recv` writes the first message, where there is room for it.
merge_lem :
    (cap : ℕ) (acc : Bytes) (q : List KcpSegment)
    → length acc + length (payloads (first_message q)) ≤ cap
    → merge cap acc q ≡ (some (acc ++ payloads (first_message q)), after_message q)
unfolding merge first_message after_message
merge_lem cap acc [] h = rw append-nil
merge_lem cap acc (s ∷ q) h = ground (
  arith,
  length-append acc s.payload,
  length-append s.payload [],
  length-append s.payload (payloads (first_message q)),
  append-nil s.payload,
  append_assoc acc s.payload (payloads (first_message q)),
  merge_lem cap (acc ++ s.payload) q,
)

-- `peek_size` tells the length of the first message.
pub peek_queue-size :
    (q : List KcpSegment) (size : ℕ)
    → peek_queue q ≡ inr size
    → size ≡ length (payloads (first_message q))
unfolding peek_queue message_size first_message
peek_queue-size [] size h = cc
peek_queue-size (s ∷ q) size h = ground (
  arith,
  length-append s.payload [],
  length-append s.payload (payloads (first_message q)),
  message_size-length q (0 + length s.payload),
)

pub peek_queue-failure :
    (q : List KcpSegment) (e : Error)
    → peek_queue q ≡ inl e
    → (e ≡ Error.recv_queue_empty) ⊎ (e ≡ Error.expecting_fragment)
unfolding peek_queue
peek_queue-failure [] e h = inl (cc (h))
peek_queue-failure (s ∷ q) e h = elim (Bool-cases (s.frg == 0)) [
  | inl last ↦ absurd (cc (rw last at h))
  | inr more ↦ elim (Bool-cases (ltb (length (s ∷ q)) (as_u8 (s.frg + 1)))) [
    | inl short ↦ inr (cc (rw (more, short) at h))
    | inr whole ↦ absurd (cc (rw (more, whole) at h))
  ]
]

-- The state after a message was taken: the queue filled again from the buffer, and where a full
-- window opens, a note to tell the peer.
abbrev pub refilled : Kcp → Kcp
refilled k =
    fast_recover (leb k.rcv_wnd (length k.rcv_queue))
      (move_available (record k { rcv_queue = after_message k.rcv_queue }))

pub peek_queue-ready :
    (s : KcpSegment) (q : List KcpSegment)
    → as_u8 (s.frg + 1) ≤ length (s ∷ q)
    → peek_queue (s ∷ q) ≡ inr (length (payloads (first_message (s ∷ q))))
unfolding peek_queue message_size first_message
peek_queue-ready s q h = ground (
  arith,
  length-append s.payload [],
  length-append s.payload (payloads (first_message q)),
  message_size-length q (0 + length s.payload),
)

-- What a call of `recv` comes to. It is never a panic.
abbrev pub Received : Kcp → Bytes → Outcome Kcp (ℕ × Bytes × Kcp) → Type 0
Received k buf (ok (n, out, k')) =
    (n ≡ length (payloads (first_message k.rcv_queue)))
    × (n ≤ length buf)
    × (out ≡ payloads (first_message k.rcv_queue) ++ drop n buf)
    × (k' ≡ refilled k)
Received k buf (err e k') =
    (k' ≡ k)
    × ((peek_size k ≡ inl e)
        ⊎ ((peek_size k ≡ inr (length (payloads (first_message k.rcv_queue))))
            × (length buf < length (payloads (first_message k.rcv_queue)))
            × (e ≡ Error.user_buf_too_small (length (payloads (first_message k.rcv_queue))))))
Received k buf panic = ⊥

recv_message-Received :
    (k : Kcp) (buf : Bytes) (size : ℕ)
    → size ≡ length (payloads (first_message k.rcv_queue))
    → size ≤ length buf
    → Received k buf (recv_message k buf size)
unfolding recv_message
recv_message-Received k buf size e h =
    rw (merge_lem (length buf) [] k.rcv_queue (omega arith), recv_message)
      (rw whole (refl, omega arith, refl, refl))
  where
    whole : (length (payloads (first_message k.rcv_queue)) == size) ≡ true
    whole = ground arith

-- `recv` takes the first message from the queue, whole and in order, into the front of the caller's
-- buffer and leaves the rest of that buffer; otherwise it returns the error of `peek_size`, or the
-- size that the buffer lacks, and changes nothing. Neither its assertion nor its write fails.
pub recv-Received : (k : Kcp) (buf : Bytes) → Received k buf (recv k buf)
unfolding recv peek_queue
recv-Received k buf = elim (Bool-cases (is_empty k.rcv_queue)) [
  | inl e ↦ rw (e, recv) (refl, inl (empty k.rcv_queue e))
  | inr e ↦ rw (e, recv) (peeked (peek_size k) refl)
]
  where
    empty : (q : List KcpSegment) → is_empty q ≡ true → peek_queue q ≡ inl Error.recv_queue_empty
    empty [] e = refl
    empty (s ∷ q) e = cc

    peeked :
        (p : Error ⊎ ℕ)
        → peek_size k ≡ p
        → Received k buf (elim p [
          | inl e ↦ err e k
          | inr peeksize ↦
              if ltb (length buf) peeksize
              then err (Error.user_buf_too_small peeksize) k
              else recv_message k buf peeksize
        ])
    peeked (inl e) h = (refl, inl h)
    peeked (inr size) h = elim (Bool-cases (ltb (length buf) size)) [
      | inl small ↦ rw small (
        refl,
        inr (
          h ∙ ap inr length_eq,
          omega (arith, ltb→lt (length buf) size small, length_eq),
          ap Error.user_buf_too_small length_eq,
        ),
      )
      | inr fits ↦ rw fits (recv_message-Received k buf size length_eq (ground arith))
    ]
      where
        length_eq : size ≡ length (payloads (first_message k.rcv_queue))
        length_eq = peek_queue-size k.rcv_queue size h
