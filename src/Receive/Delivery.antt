-- ===== src/Receive/Delivery.antt =====
-- A receiver over any history of arrivals and reads.
use kcp_server.Base.{
  ℕ, zero, suc, ◌+◌, ◌<◌, ◌≡◌, ◌^◌, ◌∙◌, sym, ap, inl, inr, Bool, List, [], ◌∷◌, ◌++◌, append_assoc,
  length, take, take-append, arith, as_u32, sub_u32, Bool-cases, ◌&&◌, ltb,
}
use native.Mathlib.Nat.{zero-add}
use kcp_server.Segment.{Bytes, KcpSegment}
use kcp_server.Control.{Kcp}
use kcp_server.Outcome.{Outcome, ok, err, panic}
use kcp_server.Receive.{parse_data, recv, move_available, fast_recover}
use kcp_server.Receive.Buffer.{Numbered, segments}
use kcp_server.Receive.Order.{
  IsReceiver, Recent, Advances, move_available-Advances, parse_data-Accepts,
}
use kcp_server.Receive.Messages.{
  payloads, payloads-append, first_message, after_message, first-after_message, refilled, Received,
  recv-Received,
}

-- A control object, all the bytes that its `recv` gave, and how many segments it has moved on.
pub record Session : Type 0 where
  pub kcp : Kcp
  pub received : Bytes
  pub progress : ℕ

pub data Event : Type 0 where
  arrives : ℕ → Event
  reads : Bytes → Event

-- The count that a wrapped `rcv_nxt` stands for, a little above the last one.
abbrev pub unwrap : ℕ → ℕ → ℕ
unwrap progress nxt = progress + sub_u32 nxt (as_u32 progress)

unfoldable pub after_read : Session → Outcome Kcp (ℕ × Bytes × Kcp) → Session
after_read s (ok (n, out, k)) = record {
  kcp = k;
  received = s.received ++ take n out;
  progress = unwrap s.progress k.rcv_nxt;
}
after_read s (err e k) = record s { kcp = k }
after_read s panic = s

unfoldable pub step : (ℕ → KcpSegment) → Session → Event → Session
unfolding after_read
step f s (arrives n) =
    let k = parse_data s.kcp (f n) in record s { kcp = k; progress = unwrap s.progress k.rcv_nxt }
step f s (reads buf) = after_read s (recv s.kcp buf)

unfoldable pub run : (ℕ → KcpSegment) → Session → List Event → Session
run f s [] = s
run f s (e ∷ es) = run f (step f s e) es

-- No segment arrives so late, or so early, that its number has come round.
abbrev pub Timely : (ℕ → KcpSegment) → Session → List Event → Type 0
Timely f s [] = Unit {0}
Timely f s (arrives n ∷ es) = Recent n s.progress × Timely f (step f s (arrives n)) es
Timely f s (reads buf ∷ es) = Timely f (step f s (reads buf)) es

-- What was read, and what waits to be read, are the bytes of the first segments.
pub record InOrder (f : ℕ → KcpSegment) (s : Session) : Type 0 where
  pub receiver : IsReceiver f s.progress s.kcp
  pub bytes : s.received ++ payloads s.kcp.rcv_queue ≡ payloads (segments f 0 s.progress)

segments-append :
    (f : ℕ → KcpSegment) (r a b : ℕ) → segments f r (a + b) ≡ segments f r a ++ segments f (r + a) b
segments-append f r zero b =
    let e : 0 + b ≡ b = omega arith in let z : r + 0 ≡ r = omega arith in rw (e, z)
segments-append f r (suc a) b =
    let e : suc a + b ≡ suc (a + b) = omega arith in
    let z : r + suc a ≡ suc r + a = omega arith in
    rw (e, z) (ap (◌∷◌ (f r)) (segments-append f (suc r) a b))

pub unwrap_lem : (r count : ℕ) → count < 2 ^ 16 → unwrap r (as_u32 (r + count)) ≡ r + count
unwrap_lem r count h = omega arith

module _ (f : ℕ → KcpSegment) (num : Numbered f) where
  -- An advance from `k` keeps the order, where `k`'s queue is what is left of it.
  pub advance-InOrder :
      (r : ℕ) (got : Bytes) (k k' : Kcp)
      → got ++ payloads k.rcv_queue ≡ payloads (segments f 0 r)
      → Advances f r k k'
      → InOrder f (record { kcp = k'; received = got; progress = unwrap r k'.rcv_nxt })
  advance-InOrder r got k k' e a =
      let now : unwrap r k'.rcv_nxt ≡ r + a.count =
        rw a.receiver.tracks.next (unwrap_lem r a.count a.bounded) in
      let joined =
        sym (ap payloads (segments-append f 0 r a.count) ∙ payloads-append (segments f 0 r) _) in
      record {
        receiver = rw now a.receiver;
        bytes =
            rw (now, a.appended, payloads-append k.rcv_queue (segments f r a.count))
              (sym (append_assoc got (payloads k.rcv_queue) _)
                ∙ (ap (λ x. x ++ payloads (segments f r a.count)) e ∙ rw zero-add at joined));
      }

  pub arrives-InOrder :
      (s : Session) (n : ℕ) → InOrder f s → Recent n s.progress → InOrder f (step f s (arrives n))
  unfolding step
  arrives-InOrder s n v c =
      advance-InOrder s.progress s.received s.kcp (parse_data s.kcp (f n)) v.bytes
        (parse_data-Accepts f num s.progress n s.kcp v.receiver c).advance

  fast_recover-Advances :
      (r : ℕ) (recover : Bool) (k k' : Kcp)
      → Advances f r k k'
      → Advances f r k (fast_recover recover k')
  unfolding fast_recover
  fast_recover-Advances r recover k k' a =
      elim (Bool-cases (ltb (length k'.rcv_queue) k'.rcv_wnd && recover)) [
        | inl e ↦ rw e (record {
          count = a.count;
          bounded = a.bounded;
          receiver = record {
            tracks = record {
              next = a.receiver.tracks.next;
              window = a.receiver.tracks.window;
              buffered = a.receiver.tracks.buffered;
            };
            settled = a.receiver.settled;
          };
          appended = a.appended;
          kept = a.kept;
        })
        | inr e ↦ rw e a
      ]

  -- The queue without its first message, filled again.
  pub refilled-Advances :
      (r : ℕ) (k : Kcp)
      → IsReceiver f r k
      → Advances f r (record k { rcv_queue = after_message k.rcv_queue }) (refilled k)
  refilled-Advances r k v =
      let rest = record k { rcv_queue = after_message k.rcv_queue } in
      fast_recover-Advances r _ rest (move_available rest) (
        move_available-Advances f num r rest
          (record { next = v.tracks.next; window = v.tracks.window; buffered = v.tracks.buffered }))

  pub message_bytes :
      (got : Bytes) (q : List KcpSegment)
      → (got ++ payloads (first_message q)) ++ payloads (after_message q) ≡ got ++ payloads q
  message_bytes got q =
      append_assoc got (payloads (first_message q)) (payloads (after_message q))
      ∙ ap (◌++◌ got) (
          sym (payloads-append (first_message q) (after_message q))
          ∙ ap payloads (first-after_message q))

  pub after_read-InOrder :
      (s : Session) (buf : Bytes) (o : Outcome Kcp (ℕ × Bytes × Kcp))
      → InOrder f s
      → Received s.kcp buf o
      → InOrder f (after_read s o)
  unfolding after_read
  after_read-InOrder s buf (ok (n, out, k')) v (size, fits, bytes, state) =
      rw (state, bytes, size, take-append (payloads (first_message s.kcp.rcv_queue)))
        (advance-InOrder s.progress (s.received ++ payloads (first_message s.kcp.rcv_queue))
          (record (s.kcp) { rcv_queue = after_message s.kcp.rcv_queue }) (refilled s.kcp)
          (message_bytes s.received s.kcp.rcv_queue ∙ v.bytes)
          (refilled-Advances s.progress s.kcp v.receiver))
  after_read-InOrder s buf (err e k') v (same, why) = rw same v
  after_read-InOrder s buf panic v h = absurd h

  -- Whatever order the segments of a numbered sequence arrive in, however often, and whatever gets
  -- lost, as long as none is so old or so early that its number has come round: if the bytes that
  -- `recv` gave, followed by those that wait in the queue, are those of the first segments of the
  -- sequence, each once and in order, and the receiver's invariant holds, then so it is behind any
  -- sequence of arrivals and reads.
  pub run-InOrder :
      (es : List Event) (s : Session) → InOrder f s → Timely f s es → InOrder f (run f s es)
  unfolding run step
  run-InOrder [] s v t = v
  run-InOrder (arrives n ∷ es) s v (c, t) =
      run-InOrder es (step f s (arrives n)) (arrives-InOrder s n v c) t
  run-InOrder (reads buf ∷ es) s v t =
      run-InOrder es (step f s (reads buf))
        (after_read-InOrder s buf (recv s.kcp buf) v (recv-Received s.kcp buf)) t
