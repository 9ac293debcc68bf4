-- ===== src/Transmit/Message.antt =====
-- Message mode: what `send` queues, and that the peer's `recv` gives it back.
use mathlib.Core.List.{append_cancel_left, map-append}
use native.Mathlib.Nat.{zero-add}
use kcp_server.Base.{
  ℕ, zero, suc, ◌≤◌, ◌<◌, ◌≡◌, refl, ◌∙◌, sym, ap, inl, inr, false, ◌&&◌, not, is_empty, List, [],
  ◌∷◌, ◌++◌, map, length, length-append, drop, arith, leb, ◌==◌, Bool-cases, All,
}
use kcp_server.Error.{Error}
use kcp_server.Segment.{Bytes, KcpSegment}
use kcp_server.Control.{Kcp, wnd_rcv}
use kcp_server.Outcome.{Outcome, ok, err, panic}
use kcp_server.Receive.{peek_queue, peek_size, recv}
use kcp_server.Receive.Messages.{
  payloads, first_message, refilled, Received, recv-Received, peek_queue-ready,
}
use kcp_server.Transmit.{fragment_count, send_rest, send}
use kcp_server.Transmit.Fragments.{
  cut, Countdown, cut-Countdown, payloads-cut, cut-small, IsLeast, fragment_count-IsLeast,
  send_rest_lem,
}

-- What a message adds to the queue.
pub record Queued (mss : ℕ) (buf : Bytes) (old new : List KcpSegment) : Type 0 where
  pub fragments : List KcpSegment
  pub count : ℕ
  pub appended : new ≡ old ++ fragments
  pub bytes : payloads fragments ≡ buf
  pub numbered : Countdown count fragments
  pub small : All (λ s. length s.payload ≤ mss) fragments
  pub least : IsLeast mss (length buf) count

-- What a call of `send` comes to in message mode.
abbrev pub SentMessage : Kcp → Bytes → Outcome Kcp (ℕ × Kcp) → Type 0
SentMessage k buf (ok (n, k')) =
    (n ≡ length buf)
    × (fragment_count k.mss (length buf) < wnd_rcv)
    × Queued k.mss buf k.snd_queue k'.snd_queue
    × (k' ≡ record k { snd_queue = k'.snd_queue })
SentMessage k buf (err e k') =
    (e ≡ Error.user_buf_too_big) × (k' ≡ k) × (wnd_rcv ≤ fragment_count k.mss (length buf))
SentMessage k buf panic = ⊥

-- In message mode `send` takes the whole message: it appends the least number of fragments that
-- hold it, fewer than 128, each at most one segment long and numbered down to 0, and changes nothing
-- else. It refuses a message of 128 fragments or more, and then changes nothing at all. It does not
-- panic.
pub send-SentMessage :
    (k : Kcp) (buf : Bytes) → 0 < k.mss → k.stream ≡ false → SentMessage k buf (send k buf)
unfolding send
send-SentMessage k buf h mode =
    let positive : (k.mss == 0) ≡ false = ground arith in
    let no_extend : (k.stream && not (is_empty k.snd_queue)) ≡ false = rw mode refl in
    rw (positive, no_extend)
      (elim (Bool-cases (leb wnd_rcv count)) [
        | inl big ↦ rw (big, send_rest) (refl, refl, ground arith)
        | inr fits ↦
            rw (send_rest_lem 0 buf k h (ground arith), mode)
              (
                zero-add (length buf),
                ground (arith, fits),
                record {
                  fragments = cut false k.mss count buf;
                  count = count;
                  appended = refl;
                  bytes = payloads-cut false k.mss count buf least.1;
                  numbered = cut-Countdown k.mss count buf (ground arith);
                  small = cut-small false k.mss count buf;
                  least = least;
                },
                refl,
              )
      ])
  where
    count : ℕ
    count = fragment_count k.mss (length buf)

    least : IsLeast k.mss (length buf) count
    least = fragment_count-IsLeast k.mss (length buf) h

-- What of a segment the network must carry for its message.
abbrev pub contents : List KcpSegment → List (ℕ × Bytes)
contents = map (λ s. (s.frg, s.payload))

abbrev content_bytes : List (ℕ × Bytes) → Bytes
content_bytes [] = []
content_bytes ((frg, bytes) ∷ q) = bytes ++ content_bytes q

payloads-contents : (q : List KcpSegment) → payloads q ≡ content_bytes (contents q)
payloads-contents [] = refl
payloads-contents (s ∷ q) = ap (◌++◌ s.payload) (payloads-contents q)

abbrev Falls : ℕ → List (ℕ × Bytes) → Type 0
Falls zero [] = Unit {0}
Falls zero (c ∷ q) = ⊥
Falls (suc n) [] = ⊥
Falls (suc n) ((frg, bytes) ∷ q) = (frg ≡ n) × Falls n q

Countdown-Falls : (n : ℕ) (q : List KcpSegment) → Countdown n q → Falls n (contents q)
Countdown-Falls zero [] h = tt
Countdown-Falls zero (s ∷ q) h = h
Countdown-Falls (suc n) [] h = h
Countdown-Falls (suc n) (s ∷ q) (e, h) = (e, Countdown-Falls n q h)

Falls-Countdown : (n : ℕ) (q : List KcpSegment) → Falls n (contents q) → Countdown n q
Falls-Countdown zero [] h = tt
Falls-Countdown zero (s ∷ q) h = h
Falls-Countdown (suc n) [] h = h
Falls-Countdown (suc n) (s ∷ q) (e, h) = (e, Falls-Countdown n q h)

first_message-Countdown :
    (n : ℕ) (q rest : List KcpSegment) → Countdown (suc n) q → first_message (q ++ rest) ≡ q
unfolding first_message
first_message-Countdown n [] rest h = absurd h
first_message-Countdown zero (s ∷ []) rest (e, h) = rw e refl
first_message-Countdown zero (s ∷ t ∷ q) rest (e, h) = absurd h
first_message-Countdown (suc n) (s ∷ q) rest (e, h) =
    ground (arith, first_message-Countdown n q rest h)

length-Countdown : (n : ℕ) (q : List KcpSegment) → Countdown n q → length q ≡ n
length-Countdown zero [] h = refl
length-Countdown zero (s ∷ q) h = absurd h
length-Countdown (suc n) [] h = absurd h
length-Countdown (suc n) (s ∷ q) (e, h) = ap suc (length-Countdown n q h)

peek-Countdown :
    (n : ℕ) (q rest : List KcpSegment)
    → Countdown (suc n) q
    → peek_queue (q ++ rest) ≡ inr (length (payloads q))
peek-Countdown n [] rest h = absurd h
peek-Countdown n (s ∷ q) rest h =
    peek_queue-ready s (q ++ rest)
      (omega (arith, length-Countdown n q h.1, length-append q rest, h.0))
    ∙ ap (λ x. inr (length (payloads x))) (first_message-Countdown n (s ∷ q) rest h)

-- The outcome of `recv` on a queue that begins with a whole message.
recv-whole :
    (r : Kcp) (out : Bytes) (n : ℕ) (q rest : List KcpSegment)
    → r.rcv_queue ≡ q ++ rest
    → Countdown (suc n) q
    → length (payloads q) ≤ length out
    → (o : Outcome Kcp (ℕ × Bytes × Kcp)) → Received r out o
    → o ≡ ok (length (payloads q), payloads q ++ drop (length (payloads q)) out, refilled r)
unfolding peek_size
recv-whole r out n q rest e c h o v = by_case o v
  where
    message : first_message r.rcv_queue ≡ q
    message = rw e (first_message-Countdown n q rest c)

    peeked : peek_queue r.rcv_queue ≡ inr (length (payloads q))
    peeked = rw e (peek-Countdown n q rest c)

    by_case :
        (o : Outcome Kcp (ℕ × Bytes × Kcp))
        → Received r out o
        → o ≡ ok (length (payloads q), payloads q ++ drop (length (payloads q)) out, refilled r)
    by_case (ok (m, bytes, r')) (size, fits, body, state) = cc message
    by_case (err er r') (same, inl no_size) = cc peeked
    by_case (err er r') (same, inr (size, small, why)) =
        absurd (omega (arith, ap (λ x. length (payloads x)) message))
    by_case panic v = absurd v

-- The bytes that one side sends as a message are the bytes that the other side's `recv` gives, once
-- fragments with the same numbers and payloads stand at the front of its queue, and the caller's
-- buffer is large enough.
pub send-recv :
    (k k' r : Kcp) (buf out : Bytes) (size : ℕ) (arrived rest : List KcpSegment)
    → 0 < k.mss
    → k.stream ≡ false
    → send k buf ≡ ok (size, k')
    → contents k'.snd_queue ≡ contents k.snd_queue ++ contents arrived
    → r.rcv_queue ≡ arrived ++ rest
    → length buf ≤ length out
    → recv r out ≡ ok (length buf, buf ++ drop (length buf) out, refilled r)
send-recv k k' r buf out size arrived rest pos_mss mode sent carried queue room =
    read (rw sent at (send-SentMessage k buf pos_mss mode)).2
  where
    read :
        Queued k.mss buf k.snd_queue k'.snd_queue
        → recv r out ≡ ok (length buf, buf ++ drop (length buf) out, refilled r)
    read d = whole d.count d.least.0 (
        Falls-Countdown d.count arrived
          (rw (← same) (Countdown-Falls d.count d.fragments d.numbered)))
      where
        same : contents d.fragments ≡ contents arrived
        same =
            append_cancel_left (contents k.snd_queue) (contents d.fragments) (contents arrived) (
              sym (map-append _ k.snd_queue d.fragments) ∙ (ap contents (sym d.appended) ∙ carried))

        bytes : payloads arrived ≡ buf
        bytes =
            payloads-contents arrived
            ∙ (ap content_bytes (sym same) ∙ (sym (payloads-contents d.fragments) ∙ d.bytes))

        whole :
            (n : ℕ)
            → 0 < n
            → Countdown n arrived
            → recv r out ≡ ok (length buf, buf ++ drop (length buf) out, refilled r)
        whole zero h c = absurd (omega arith)
        whole (suc n) h c = rw (← bytes) (
            recv-whole r out n arrived rest queue c (rw bytes room) (recv r out)
              (recv-Received r out))
