-- ===== src/Peer/Waiting/Messages.antt =====
-- What KcpPeer::recv of src/kcp/kcp_server/kcp_peer.rs gives its caller, whatever arrives between
-- the end of its wait and its read.
use kcp_server.Base.{
  ℕ, ◌+◌, ◌<◌, ◌≤◌, ◌≡◌, refl, sym, ap, ◌∙◌, subst, Bool, true, false, ◌⊎◌, inl, inr, List, [], ◌∷◌,
  ◌++◌, length, length-append, drop, ◌==◌, arith, Bool-cases, All, as_u8, Option, none, some,
  le→ltb_false,
}
use kcp_server.Segment.{Bytes, KcpSegment}
use kcp_server.Control.{Kcp}
use kcp_server.Outcome.{Outcome, ok, err, panic, Ends}
use kcp_server.Input.{input}
use kcp_server.Input.Extends.{Extends, Extends-refl, Grown, input-Grown}
use kcp_server.Receive.{peek_queue, peek_size, recv}
use kcp_server.Receive.Messages.{
  payloads, first_message, peek_queue-size, peek_queue-ready, refilled, Received, recv-Received,
}
use kcp_server.Peer.{KcpPeer, peer_input, after_input, recv_buf, after_recv}
use kcp_server.Peer.Waiting.Answers.{Told, wait_input-Told}
use kcp_server.Peer.Waiting.{ready, wait_input, recv_waited}

-- The last fragment of a message stands in the queue.
abbrev pub EndsIn : List KcpSegment → Type 0
EndsIn [] = ⊥
EndsIn (s ∷ q) = (s.frg ≡ 0) ⊎ EndsIn q

first_message-append :
    (q more : List KcpSegment) → EndsIn q → first_message (q ++ more) ≡ first_message q
unfolding first_message
first_message-append [] more h = absurd h
first_message-append (s ∷ q) more (inl e) = rw e refl
first_message-append (s ∷ q) more (inr h) = elim (Bool-cases (s.frg == 0)) [
  | inl e ↦ rw e refl
  | inr e ↦ rw e (ap (◌∷◌ s) (first_message-append q more h))
]

-- A queue that tells a message's size still tells it when it has grown.
peek_queue-append :
    (q more : List KcpSegment) (size : ℕ)
    → EndsIn q
    → peek_queue q ≡ inr size
    → peek_queue (q ++ more) ≡ inr size
unfolding peek_queue
peek_queue-append [] more size h e = cc
peek_queue-append (s ∷ q) more size h e =
    peek_queue-ready s (q ++ more) enough
    ∙ ap (λ m. inr (length (payloads m))) (first_message-append (s ∷ q) more h)
    ∙ ap inr (sym (peek_queue-size (s ∷ q) size e))
  where
    enough : as_u8 (s.frg + 1) ≤ length (s ∷ (q ++ more))
    enough = ground (arith, e, length-append q more)

-- Datagrams that come in, one after the other; an error ends only its own call. `none` is a panic.
abbrev pub peer_left : Outcome KcpPeer (ℕ × KcpPeer) → Option KcpPeer
peer_left (ok (n, p)) = some p
peer_left (err e p) = some p
peer_left panic = none

abbrev pub then_peer : Option KcpPeer → (KcpPeer → Option KcpPeer) → Option KcpPeer
then_peer none next = none
then_peer (some p) next = next p

unfoldable pub input_all : List Bytes → Bool → KcpPeer → Option KcpPeer
input_all [] decoding p = some p
input_all (d ∷ ds) decoding p =
    then_peer (peer_left (peer_input p d decoding)) (λ p'. input_all ds decoding p')

-- The peer, where it came to its end without a panic, has a property.
abbrev pub Reaches : (KcpPeer → Type 0) → Option KcpPeer → Type 0
Reaches P none = ⊥
Reaches P (some p) = P p

peer_input-Grown :
    (mss : ℕ) (q : List KcpSegment) (d : Bytes) (decoding : Bool) (p : KcpPeer)
    → 0 < mss
    → (decoding ≡ false) ⊎ (4 ≤ length d)
    → Grown mss q p.kcp
    → Ends
        (λ (x : ℕ × KcpPeer). Grown mss q x.1.kcp)
        (λ p'. Grown mss q p'.kcp)
        (peer_input p d decoding)
unfolding peer_input after_input
peer_input-Grown mss q d decoding p h long g =
    after (input p.kcp d decoding) (input-Grown mss q p.kcp d decoding h long g)
  where
    after :
        (o : Outcome Kcp (ℕ × Kcp))
        → Ends (λ (x : ℕ × Kcp). Grown mss q x.1) (Grown mss q) o
        → Ends
            (λ (x : ℕ × KcpPeer). Grown mss q x.1.kcp)
            (λ p'. Grown mss q p'.kcp)
            (after_input p o)
    after (ok (n, k)) x = x
    after (err e k) x = x
    after panic x = x

input_all-Grown :
    (mss : ℕ) (q : List KcpSegment) (ds : List Bytes) (decoding : Bool) (p : KcpPeer)
    → 0 < mss
    → (decoding ≡ false) ⊎ All (λ d. 4 ≤ length d) ds
    → Grown mss q p.kcp
    → Reaches (λ p'. Grown mss q p'.kcp) (input_all ds decoding p)
unfolding input_all
input_all-Grown mss q [] decoding p h long g = g
input_all-Grown mss q (d ∷ ds) decoding p h long g =
    next (peer_input p d decoding) (peer_input-Grown mss q d decoding p h (first long) g)
      (λ p'. input_all-Grown mss q ds decoding p' h (rest long))
  where
    first :
        (decoding ≡ false) ⊎ All (λ d. 4 ≤ length d) (d ∷ ds) → (decoding ≡ false) ⊎ (4 ≤ length d)
    first (inl e) = inl e
    first (inr l) = inr l.0

    rest :
        (decoding ≡ false) ⊎ All (λ d. 4 ≤ length d) (d ∷ ds)
        → (decoding ≡ false) ⊎ All (λ d. 4 ≤ length d) ds
    rest (inl e) = inl e
    rest (inr l) = inr l.1

    next :
        (o : Outcome KcpPeer (ℕ × KcpPeer))
        → Ends (λ (x : ℕ × KcpPeer). Grown mss q x.1.kcp) (λ p'. Grown mss q p'.kcp) o
        → ((p' : KcpPeer)
            → Grown mss q p'.kcp
            → Reaches (λ p''. Grown mss q p''.kcp) (input_all ds decoding p'))
        → Reaches
            (λ p'. Grown mss q p'.kcp)
            (then_peer (peer_left o) (λ p'. input_all ds decoding p'))
    next (ok (n, p')) x f = f p' x
    next (err e p') x f = f p' x
    next panic x f = x

-- The first message of a queue that has grown, read whole.
recv_waited-Grown :
    (q : List KcpSegment) (size : ℕ) (p : KcpPeer) (buf : Bytes)
    → EndsIn q
    → peek_queue q ≡ inr size
    → size ≤ length buf
    → Extends q p.kcp.rcv_queue
    → recv_waited size p buf
      ≡ ok (size, payloads (first_message q) ++ drop size buf, record p { kcp = refilled p.kcp })
unfolding recv_waited recv_buf after_recv peek_size
recv_waited-Grown q size p buf h e room (more, x) =
    rw (le→ltb_false (length buf) size room) (read (recv p.kcp buf) (recv-Received p.kcp buf))
  where
    told : peek_queue p.kcp.rcv_queue ≡ inr size
    told = ap peek_queue x ∙ peek_queue-append q more size h e

    same : first_message p.kcp.rcv_queue ≡ first_message q
    same = ap first_message x ∙ first_message-append q more h

    long : size ≡ length (payloads (first_message p.kcp.rcv_queue))
    long = peek_queue-size p.kcp.rcv_queue size told

    read :
        (o : Outcome Kcp (ℕ × Bytes × Kcp))
        → Received p.kcp buf o
        → after_recv p o
          ≡ ok
              (size, payloads (first_message q) ++ drop size buf, record p { kcp = refilled p.kcp })
    read (ok (n, out, k)) (a, b, c, d) =
        let counted : n ≡ size = a ∙ sym long in rw (c, d, same, counted) refl
    read (err failure k) (a, inl b) = absurd (cc (b, told))
    read (err failure k) (a, inr (b, c, d)) = absurd (omega (arith, c, long, room))
    read panic r = absurd r

-- After a wait that told a size, however many datagrams come in before the read, well-formed or
-- not, none of them panics, and the read gives the message that was first at the end of the wait,
-- whole, and not a byte of any other, where the buffer has room for that size. The segment size is
-- above 0, the message's last fragment has come in, and each datagram to be decoded has four bytes.
pub recv_waited-whole :
    (p : KcpPeer) (size : ℕ) (ds : List Bytes) (decoding : Bool) (buf : Bytes)
    → 0 < p.kcp.mss
    → (decoding ≡ false) ⊎ All (λ d. 4 ≤ length d) ds
    → EndsIn p.kcp.rcv_queue
    → wait_input true p ≡ (ready size, p)
    → size ≤ length buf
    → Reaches
        (λ p'.
          recv_waited size p' buf
          ≡ ok (
            size,
            payloads (first_message p.kcp.rcv_queue) ++ drop size buf,
            record p' { kcp = refilled p'.kcp },
          ))
        (input_all ds decoding p)
unfolding peek_queue peek_size
recv_waited-whole p size ds decoding buf h long ends e room = reaches (input_all ds decoding p) (
    input_all-Grown p.kcp.mss p.kcp.rcv_queue ds decoding p h long
      (refl, Extends-refl p.kcp.rcv_queue))
  where
    told : Told p (ready size, p)
    told = subst (Told p) e (wait_input-Told p)

    reaches :
        (o : Option KcpPeer)
        → Reaches (λ p'. Grown p.kcp.mss p.kcp.rcv_queue p'.kcp) o
        → Reaches
            (λ p'.
              recv_waited size p' buf
              ≡ ok (
                size,
                payloads (first_message p.kcp.rcv_queue) ++ drop size buf,
                record p' { kcp = refilled p'.kcp },
              ))
            o
    reaches none g = g
    reaches (some p') g = recv_waited-Grown p.kcp.rcv_queue size p' buf ends told.2 room g.1
