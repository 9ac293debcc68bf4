-- ===== src/Reader/Session.antt =====
-- A reader over any history of arriving segments and polls: the whole way from the segments of a
-- numbered sequence to the bytes that the user reads.
use kcp_server.Base.{
  ℕ, ◌≡◌, refl, sym, ap, ◌∙◌, inl, inr, List, [], ◌∷◌, ◌++◌, append_assoc, length, take, drop,
  take-append, arith,
}
use native.Mathlib.Nat.{add-zero}
use mathlib.Core.List.{append_cancel_right}
use kcp_server.Segment.{Bytes, KcpSegment}
use kcp_server.Control.{Kcp}
use kcp_server.Outcome.{ok}
use kcp_server.Receive.{parse_data}
use kcp_server.Receive.Buffer.{Numbered}
use kcp_server.Receive.Order.{Recent}
use kcp_server.Receive.Messages.{payloads, first_message, refilled}
use kcp_server.Receive.Delivery.{
  Session, step, unwrap, unwrap_lem, after_read, InOrder, arrives-InOrder, after_read-InOrder,
}
use kcp_server.Peer.{KcpPeer, set_broken_pipe}
use kcp_server.Poll.{Poll, done, failed, pending, panicked}
use kcp_server.Reader.{KcpReader, Call, poll_read}
use kcp_server.Reader.Stream.{waiting, waiting-refilled}
use kcp_server.Reader.Rounds.{IsSound, unread, Gave}
use kcp_server.Reader.Conservation.{poll_read-Gave}
use kcp_server.Reader.Refills.{Refilled, poll_read-Refilled}

-- A reader of a peer, all the bytes that its polls gave, and how many segments the control block has
-- moved on.
pub record ReadSession : Type 0 where
  pub reader : KcpReader
  pub peer : KcpPeer
  pub received : Bytes
  pub progress : ℕ

-- A segment arrives, the UDP layer closes, or the reader is polled with a buffer, while the lock is
-- granted a number of times.
pub data Turn : Type 0 where
  arrives : ℕ → Turn
  breaks : Turn
  polls : ℕ → Bytes → Turn

abbrev pub call_of : ReadSession → Bytes → Call
call_of s buf = record { reader = s.reader; peer = s.peer; buf = buf }

-- The bytes that a poll gave.
abbrev given : Poll ℕ → Call → Bytes
given (done n) c = take n c.buf
given a c = []

unfoldable pub after_poll : ReadSession → Poll ℕ × Call → ReadSession
after_poll s (a, c) = record {
  reader = c.reader;
  peer = c.peer;
  received = s.received ++ given a c;
  progress = unwrap s.progress c.peer.kcp.rcv_nxt;
}

unfoldable pub turn : (ℕ → KcpSegment) → ReadSession → Turn → ReadSession
unfolding parse_data poll_read set_broken_pipe after_poll
turn f s (Turn.arrives n) =
    let k = parse_data s.peer.kcp (f n) in
    record s { peer = record (s.peer) { kcp = k }; progress = unwrap s.progress k.rcv_nxt }
turn f s Turn.breaks = record s { peer = set_broken_pipe s.peer }
turn f s (Turn.polls grants buf) = after_poll s (poll_read grants (call_of s buf))

unfoldable pub take_turns : (ℕ → KcpSegment) → ReadSession → List Turn → ReadSession
unfolding turn
take_turns f s [] = s
take_turns f s (t ∷ ts) = take_turns f (turn f s t) ts

-- No segment arrives so late, or so early, that its number has come round.
abbrev pub Timely : (ℕ → KcpSegment) → ReadSession → List Turn → Type 0
Timely f s [] = Unit {0}
Timely f s (Turn.arrives n ∷ ts) = Recent n s.progress × Timely f (turn f s (Turn.arrives n)) ts
Timely f s (Turn.breaks ∷ ts) = Timely f (turn f s Turn.breaks) ts
Timely f s (Turn.polls grants buf ∷ ts) = Timely f (turn f s (Turn.polls grants buf)) ts

-- The bytes that have left the control block are those given and those in the cache.
abbrev pub view : ReadSession → Session
view s = record {
  kcp = s.peer.kcp;
  received = s.received ++ unread s.reader;
  progress = s.progress;
}

pub record IsFaithful (f : ℕ → KcpSegment) (s : ReadSession) : Type 0 where
  pub sound : IsSound s.reader
  pub in_order : InOrder f (view s)

InOrder-same :
    (f : ℕ → KcpSegment) (k k' : Kcp) (got got' : Bytes) (r r' : ℕ)
    → k' ≡ k
    → got' ≡ got
    → r' ≡ r
    → InOrder f (record { kcp = k; received = got; progress = r })
    → InOrder f (record { kcp = k'; received = got'; progress = r' })
InOrder-same f k k' got got' r r' a b c v = rw (a, b, c) v

module _ (f : ℕ → KcpSegment) (num : Numbered f) where
  same_progress :
      (k : Kcp) (got : Bytes) (r : ℕ)
      → InOrder f (record { kcp = k; received = got; progress = r })
      → unwrap r k.rcv_nxt ≡ r
  same_progress k got r v =
      let now = unwrap_lem r 0 (omega arith) in rw v.receiver.tracks.next (rw (add-zero) at now)

  -- A message has left the queue for the cache.
  refilled-InOrder :
      (k : Kcp) (got : Bytes) (r : ℕ)
      → InOrder f (record { kcp = k; received = got; progress = r })
      → InOrder f (record {
        kcp = refilled k;
        received = got ++ payloads (first_message k.rcv_queue);
        progress = unwrap r (refilled k).rcv_nxt;
      })
  unfolding after_read
  refilled-InOrder k got r v =
      let first = payloads (first_message k.rcv_queue) in
      rw (take-append first) at (
        after_read-InOrder f num (record { kcp = k; received = got; progress = r }) first
          (ok (length first, first ++ drop (length first) first, refilled k)) v
          (refl, omega arith, refl, refl))

  -- A poll passes bytes from the cache to the user, or from the queue to both.
  passed-InOrder :
      (k k' : Kcp) (got u g u' : Bytes) (r : ℕ)
      → Refilled k k'
      → u ++ waiting k ≡ g ++ (u' ++ waiting k')
      → InOrder f (record { kcp = k; received = got ++ u; progress = r })
      → InOrder f (record { kcp = k'; received = (got ++ g) ++ u'; progress = unwrap r k'.rcv_nxt })
  passed-InOrder k k' got u g u' r (inl e) b v =
      InOrder-same f k k' (got ++ u) ((got ++ g) ++ u') r (unwrap r k'.rcv_nxt) e
        (append_assoc got g u' ∙ ap (◌++◌ got) (sym all))
        (ap (λ k. unwrap r k.rcv_nxt) e ∙ same_progress k (got ++ u) r v) v
    where
      all : u ≡ g ++ u'
      all =
          append_cancel_right u (g ++ u') (waiting k)
            (b ∙ (ap (λ x. g ++ (u' ++ waiting x)) e ∙ sym (append_assoc g u' (waiting k))))
  passed-InOrder k k' got u g u' r (inr e) b v =
      InOrder-same f (refilled k) k' ((got ++ u) ++ first) ((got ++ g) ++ u')
        (unwrap r (refilled k).rcv_nxt) (unwrap r k'.rcv_nxt) e
        (append_assoc got g u' ∙ (ap (◌++◌ got) (sym all) ∙ sym (append_assoc got u first)))
        (ap (λ k. unwrap r k.rcv_nxt) e) (refilled-InOrder k (got ++ u) r v)
    where
      first : Bytes
      first = payloads (first_message k.rcv_queue)

      all : u ++ first ≡ g ++ u'
      all = append_cancel_right (u ++ first) (g ++ u') (waiting (refilled k)) (
          append_assoc u first (waiting (refilled k))
          ∙ (ap (◌++◌ u) (sym (waiting-refilled k))
              ∙ (b
                  ∙ (ap (λ x. g ++ (u' ++ waiting x)) e
                      ∙ sym (append_assoc g u' (waiting (refilled k)))))))

  after_poll-IsFaithful :
      (s : ReadSession) (buf : Bytes) (a : Poll ℕ) (c : Call)
      → IsFaithful f s
      → Gave (call_of s buf) a c
      → Refilled s.peer.kcp c.peer.kcp
      → IsFaithful f (after_poll s (a, c))
  unfolding after_poll
  after_poll-IsFaithful s buf (done n) c v (w, room, size, b) o = record {
    sound = w;
    in_order =
        passed-InOrder s.peer.kcp c.peer.kcp s.received (unread s.reader) (take n c.buf)
          (unread c.reader) s.progress o b v.in_order;
  }
  after_poll-IsFaithful s buf (failed e) c v (w, same, b) o = record {
    sound = w;
    in_order =
        passed-InOrder s.peer.kcp c.peer.kcp s.received (unread s.reader) [] (unread c.reader)
          s.progress o (sym b) v.in_order;
  }
  after_poll-IsFaithful s buf pending c v (w, same, b) o = record {
    sound = w;
    in_order =
        passed-InOrder s.peer.kcp c.peer.kcp s.received (unread s.reader) [] (unread c.reader)
          s.progress o (sym b) v.in_order;
  }
  after_poll-IsFaithful s buf panicked c v g o = absurd g

  turn-IsFaithful :
      (s : ReadSession) (t : Turn) (ts : List Turn)
      → IsFaithful f s
      → Timely f s (t ∷ ts)
      → IsFaithful f (turn f s t)
  unfolding turn step set_broken_pipe
  turn-IsFaithful s (Turn.arrives n) ts v (recent, timely) = record {
    sound = v.sound;
    in_order = arrives-InOrder f num (view s) n v.in_order recent;
  }
  turn-IsFaithful s Turn.breaks ts v timely = record { sound = v.sound; in_order = v.in_order }
  turn-IsFaithful s (Turn.polls grants buf) ts v timely =
      let c = call_of s buf in
      after_poll-IsFaithful s buf (poll_read grants c).0 (poll_read grants c).1 v
        (poll_read-Gave grants c v.sound) (poll_read-Refilled grants c)

  Timely-tail :
      (s : ReadSession) (t : Turn) (ts : List Turn) → Timely f s (t ∷ ts) → Timely f (turn f s t) ts
  Timely-tail s (Turn.arrives n) ts timely = timely.1
  Timely-tail s Turn.breaks ts timely = timely
  Timely-tail s (Turn.polls grants buf) ts timely = timely

  -- Whatever order the segments of a numbered sequence arrive in, however often, and whatever gets
  -- lost, as long as none is so old or so early that its number has come round, and however the
  -- reader is polled between them, with buffers of any size, whenever the lock is granted and the
  -- UDP layer closes: if the bytes that the reader gave, then those in its cache, then those in the
  -- queue are those of the first segments of the sequence, each once and in order, and the
  -- invariants of the reader and the receiver hold, then so it is behind any row of these turns.
  pub take_turns-IsFaithful :
      (ts : List Turn) (s : ReadSession)
      → IsFaithful f s
      → Timely f s ts
      → IsFaithful f (take_turns f s ts)
  unfolding take_turns
  take_turns-IsFaithful [] s v timely = v
  take_turns-IsFaithful (t ∷ ts) s v timely =
      take_turns-IsFaithful ts (turn f s t) (turn-IsFaithful s t ts v timely)
        (Timely-tail s t ts timely)
