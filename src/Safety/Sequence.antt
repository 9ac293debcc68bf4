-- ===== src/Safety/Sequence.antt =====
-- A receiver of what the other end has numbered: what the receiving half of Kcp in
-- src/kcp/kcp_module/kcp.rs has given and moved on of it, while it grows.
use kcp_server.Base.{
  ℕ, suc, ◌+◌, ◌≤◌, ◌≡◌, ◌^◌, refl, sym, ap, ◌∙◌, inl, inr, List, ◌++◌, append_assoc, length,
  length-append, drop, subst, arith,
}
use kcp_server.Segment.{Bytes, KcpSegment}
use kcp_server.Control.{Kcp}
use kcp_server.Receive.{parse_data}
use kcp_server.Receive.Buffer.{segments}
use kcp_server.Receive.Order.{Recent, Advances, parse_data-Accepts}
use kcp_server.Receive.Messages.{payloads, first_message, after_message, refilled}
use kcp_server.Receive.Delivery.{
  InOrder, unwrap, unwrap_lem, advance-InOrder, refilled-Advances, message_bytes,
}
use kcp_server.Receive.Plain.{
  plain, plains, bare, parse_data-bare, refilled-bare, after_message-plains, payloads-plains,
}
use kcp_server.Flush.Frames.{Log, Logged, Longer, log_bytes}
use kcp_server.Safety.Numbering.{
  sequence, sequence-Numbered, plain-inside, segments-grows, Buffered-grows, moved-inside,
  payloads-segments, log_bytes-take,
}

-- The receiver `k` has given the bytes `got`, and has moved on the first segments of the log.
pub record Receives (L : Log) (got : Bytes) (k : Kcp) : Type 0 where
  pub progress : ℕ
  pub reached : progress ≤ length L.numbered
  pub order :
      InOrder (sequence L.numbered) (record { kcp = bare k; received = got; progress = progress })

-- What was given and what waits to be read are a first part of the log's bytes.
pub Receives-first :
    (L : Log) (got : Bytes) (k : Kcp)
    → Receives L got k
    → (rest : Bytes) × (got ++ (payloads k.rcv_queue ++ rest) ≡ log_bytes L.numbered)
Receives-first L got k v =
    let l = L.numbered in
    let n = v.progress in
    (
      log_bytes (drop n l),
      sym (append_assoc got (payloads k.rcv_queue) (log_bytes (drop n l)))
          ∙ (ap (λ b. b ++ log_bytes (drop n l))
                (ap (λ b. got ++ b) (sym (payloads-plains k.rcv_queue))
                  ∙ (v.order.bytes ∙ payloads-segments l 0 n (omega (arith, v.reached))))
              ∙ sym (log_bytes-take l n)),
    )

InOrder-grows :
    (l m : List (ℕ × Bytes)) (got : Bytes) (k : Kcp) (n : ℕ)
    → n ≤ length l
    → InOrder (sequence l) (record { kcp = bare k; received = got; progress = n })
    → InOrder (sequence (l ++ m)) (record { kcp = bare k; received = got; progress = n })
InOrder-grows l m got k n h v = record {
  receiver = record {
    tracks = record {
      next = v.receiver.tracks.next;
      window = v.receiver.tracks.window;
      buffered = Buffered-grows l m n (n + k.rcv_wnd) k.rcv_buf v.receiver.tracks.buffered;
    };
    settled = elim v.receiver.settled [
      | inl full ↦ inl full
      | inr gap ↦ inr (Buffered-grows l m (suc n) (n + k.rcv_wnd) k.rcv_buf gap)
    ];
  };
  bytes = v.bytes ∙ ap payloads (segments-grows l m 0 n (omega (arith, h)));
}

-- The log may grow.
pub Receives-Longer :
    (L L' : Log) (got : Bytes) (k : Kcp) → Longer L L' → Receives L got k → Receives L' got k
Receives-Longer L L' got k (m, e) v = record {
  progress = v.progress;
  reached = omega (arith, v.reached, ap length e, length-append L.numbered m);
  order = rw e (InOrder-grows L.numbered m got k v.progress v.reached v.order);
}

-- An advance of the receiver, as `bare` sees it.
advance-Receives :
    (L : Log) (r : ℕ) (got : Bytes) (k k' : Kcp)
    → r ≤ length L.numbered
    → got ++ payloads (plains k.rcv_queue) ≡ payloads (segments (sequence L.numbered) 0 r)
    → Advances (sequence L.numbered) r (bare k) (bare k')
    → Receives L got k'
advance-Receives L r got k k' h e a =
    let f = sequence L.numbered in
    let now : unwrap r k'.rcv_nxt ≡ r + a.count =
      rw a.receiver.tracks.next (unwrap_lem r a.count a.bounded) in
    record {
      progress = r + a.count;
      reached = moved-inside L.numbered r a.count k.rcv_queue k'.rcv_queue a.appended h;
      order =
          subst (λ n. InOrder f (record { kcp = bare k'; received = got; progress = n })) now
            (advance-InOrder f (sequence-Numbered L.numbered) r got (bare k) (bare k') e a);
    }

-- So few numbers are given out that none comes round.
abbrev pub Few : Log → Type 0
Few L = length L.numbered + 2 ^ 16 ≤ 2 ^ 31

-- A segment of the log arrives.
pub parse_data-Receives :
    (L : Log) (got : Bytes) (k : Kcp) (s : KcpSegment)
    → Few L
    → Logged L s.sn s.frg s.payload
    → Receives L got k
    → Receives L got (parse_data k s)
parse_data-Receives L got k s few (n, e, m) v =
    let f = sequence L.numbered in
    let same : plain s ≡ f n = rw (e, m) refl in
    let inside = plain-inside L.numbered n s same in
    let recent : Recent n v.progress = record {
      not_early = omega (arith, few, inside);
      not_late = omega (arith, few, v.reached);
    } in
    advance-Receives L v.progress got k (parse_data k s) v.reached v.order.bytes (
      subst (Advances f v.progress (bare k))
        (ap (parse_data (bare k)) (sym same) ∙ parse_data-bare k s)
        (parse_data-Accepts f (sequence-Numbered L.numbered) v.progress n (bare k) v.order.receiver
          recent).advance)

-- `recv` takes the first message.
pub refilled-Receives :
    (L : Log) (got : Bytes) (k : Kcp)
    → Receives L got k
    → Receives L (got ++ payloads (first_message k.rcv_queue)) (refilled k)
refilled-Receives L got k v =
    let f = sequence L.numbered in
    let num = sequence-Numbered L.numbered in
    let first = payloads (first_message k.rcv_queue) in
    let rest : Kcp = record k { rcv_queue = after_message k.rcv_queue } in
    advance-Receives L v.progress (got ++ first) rest (refilled k) v.reached
      (ap (λ b. (got ++ first) ++ b) (payloads-plains (after_message k.rcv_queue))
        ∙ (message_bytes f num got k.rcv_queue
            ∙ (ap (λ b. got ++ b) (sym (payloads-plains k.rcv_queue)) ∙ v.order.bytes)))
      (subst (Advances f v.progress (bare rest)) (refilled-bare k) (
        subst (λ q. Advances f v.progress (record (bare k) { rcv_queue = q }) (refilled (bare k)))
          (after_message-plains k.rcv_queue)
          (refilled-Advances f num v.progress (bare k) v.order.receiver)))

-- What it hangs on of the state.
abbrev pub receiving : Kcp → ℕ × ℕ × List KcpSegment × List KcpSegment
receiving k = (k.rcv_nxt, k.rcv_wnd, k.rcv_buf, k.rcv_queue)

abbrev pub SameReceiver : Kcp → Kcp → Type 0
SameReceiver k k' = receiving k' ≡ receiving k

pub Receives-SameReceiver :
    (L : Log) (got : Bytes) (k k' : Kcp) → SameReceiver k k' → Receives L got k → Receives L got k'
Receives-SameReceiver L got k k' e v = record {
  progress = v.progress;
  reached = v.reached;
  order = record {
    receiver = record {
      tracks = record {
        next = ap (λ x. x.0) e ∙ v.order.receiver.tracks.next;
        window = rw (ap (λ x. x.1) e) v.order.receiver.tracks.window;
        buffered = rw (ap (λ x. x.1) e, ap (λ x. x.2) e) v.order.receiver.tracks.buffered;
      };
      settled = rw (ap (λ x. x.1) e, ap (λ x. x.2) e, ap (λ x. x.3) e) v.order.receiver.settled;
    };
    bytes = rw (ap (λ x. x.3) e) v.order.bytes;
  };
}
