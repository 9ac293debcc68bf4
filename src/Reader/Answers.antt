-- ===== src/Reader/Answers.antt =====
-- What poll_read answers: one grant of the lock is enough for a message, and without a message the
-- task's waker is registered.
use kcp_server.Base.{
  ℕ, zero, suc, ◌+◌, ◌-◌, ◌≤◌, ◌<◌, ◌≡◌, refl, ◌∙◌, sym, ap, ◌⊎◌, inl, inr, Bool, true, false,
  length, length-append, length-drop, drop, min, arith, ltb, Bool-cases, ltb→lt, ltb_false→le,
  le→ltb_false, lt→ltb,
}
use kcp_server.Error.{Error, IoError, ErrorKind}
use kcp_server.Segment.{Bytes}
use kcp_server.Control.{Kcp}
use kcp_server.Outcome.{Outcome, ok, err, panic}
use kcp_server.Receive.{recv, peek_size}
use kcp_server.Receive.Messages.{
  peek_queue-failure, payloads, first_message, Received, recv-Received, peek_queue-size,
}
use kcp_server.Poll.{Poll, done, failed, pending, panicked}
use kcp_server.Reader.Rounds.{IsSound}
use kcp_server.Reader.Conservation.{poll_read-Gave}
use kcp_server.Reader.Rounds.{Gave}
use kcp_server.Reader.{
  ReaderState, Call, begin_round, broken_or, grown, zeros, after_cached, cache_message,
  after_direct, sized_round, locked_round, follows, read_locked, poll_from, poll_recv, settle,
  poll_read,
}

-- A message that is there is given into any buffer that holds it.
recv-ready :
    (k : Kcp) (buf : Bytes) (size : ℕ)
    → peek_size k ≡ inr size
    → size ≤ length buf
    → (out : Bytes) × (k' : Kcp) × (recv k buf ≡ ok (size, out, k')) × (length out ≡ length buf)
unfolding peek_size
recv-ready k buf size e h = by_case (recv k buf) refl (recv-Received k buf)
  where
    first : Bytes
    first = payloads (first_message k.rcv_queue)

    same : size ≡ length first
    same = peek_queue-size k.rcv_queue size e

    by_case :
        (o : Outcome Kcp (ℕ × Bytes × Kcp))
        → recv k buf ≡ o
        → Received k buf o
        → (out : Bytes) × (k' : Kcp) × (recv k buf ≡ ok (size, out, k')) × (length out ≡ length buf)
    by_case (ok (n, out, k')) r (n_eq, room, out_eq, _) = (
      out,
      k',
      r ∙ ap (λ n. ok (n, out, k')) (n_eq ∙ sym same),
      omega (
        arith,
        ap length out_eq,
        length-append first (drop n buf),
        length-drop n buf,
        n_eq,
        room,
      ),
    )
    by_case (err x k') r (_, inl f) = absurd (ground (arith, e, f))
    by_case (err x k') r (_, inr (f, small, _)) = absurd (omega (arith, small, same, h))
    by_case panic r v = absurd v

-- The answer of a call that finds nothing in the cache, by the control block's `peek_size`.
abbrev pub Answered : Bool → ℕ → Error ⊎ ℕ → Poll ℕ → Call → Type 0
Answered broken room (inr size) a c = a ≡ done (min size room)
Answered true room (inl e) a c =
    a ≡ failed (IoError.message ErrorKind.broken_pipe_kind "kcp peer is broken pipe")
Answered false room (inl e) a c = (a ≡ pending) × (c.peer.registered ≡ true)

length-zeros : (n : ℕ) → length (zeros n) ≡ n
length-zeros zero = refl
length-zeros (suc n) = ap suc (length-zeros n)

le-length-grown_size : (cache : Bytes) (size : ℕ) → size ≤ length (grown cache size)
unfolding grown
le-length-grown_size cache size =
    ground
      (arith, length-append cache (zeros (size - length cache)), length-zeros (size - length cache))

-- A message too long for the caller goes into the cache, and the next round gives its front.
cache_message-gives :
    (size : ℕ) (c : Call) (f : Call → Poll ℕ × Call)
    → peek_size c.peer.kcp ≡ inr size
    → length c.buf < size
    → (follows (cache_message size c) (λ d. follows (begin_round d) f)).0
      ≡ done (min size (length c.buf))
unfolding cache_message begin_round
cache_message-gives zero c f e h = absurd (omega arith)
cache_message-gives (suc n) c f e h =
    let cache = grown c.reader.cache (suc n) in
    let large = le-length-grown_size c.reader.cache (suc n) in
    let (out, k', r, size) = recv-ready c.peer.kcp cache (suc n) e large in
    let more : ltb 0 (suc n) ≡ true = lt→ltb 0 (suc n) (omega arith) in
    let all : suc n - 0 ≡ suc n = omega arith in
    let fits : ltb (length out) (0 + min (suc n) (length c.buf)) ≡ false =
      le→ltb_false _ _ (omega (arith, size, large)) in
    rw (r, after_cached, more, all, fits) refl

-- The same of the whole loop, from the lock on.
locked-Answered :
    (f : Call → Poll ℕ × Call) (c : Call)
    → let o = follows (locked_round c) (λ d. follows (begin_round d) f) in
      Answered c.peer.is_broken_pipe (length c.buf) (peek_size c.peer.kcp) o.0 o.1
unfolding locked_round sized_round broken_or
locked-Answered f c = by_size (peek_size c.peer.kcp) c.peer.is_broken_pipe refl
  where
    by_size :
        (s : Error ⊎ ℕ) (broken : Bool)
        → peek_size c.peer.kcp ≡ s
        → let o = follows (sized_round c (broken_or broken s)) (λ d. follows (begin_round d) f) in
          Answered broken (length c.buf) s o.0 o.1
    by_size (inr size) broken e = elim (Bool-cases (ltb (length c.buf) size)) [
      | inl large ↦ rw large (cache_message-gives size c f e (ltb→lt _ _ large))
      | inr fits ↦
          let (out, k', r, _) = recv-ready c.peer.kcp c.buf size e (ltb_false→le _ _ fits) in
          rw (fits, r, after_direct) (ap done (omega (arith, ltb_false→le _ _ fits)))
    ]
    by_size (inl e) true h = refl
    by_size (inl e) false h = elim (peek_queue-failure c.peer.kcp.rcv_queue e h) [
      | inl empty ↦ rw empty (refl, refl)
      | inr partial ↦ rw partial (refl, refl)
    ]

-- The answer of a call on a reader at `Begin`, by whether the cache still holds bytes.
abbrev pub Replied : Bool → Call → Poll ℕ → Call → Type 0
Replied true c a d = a ≡ done (min (c.reader.cache_siz - c.reader.cache_pos) (length c.buf))
Replied false c a d = Answered c.peer.is_broken_pipe (length c.buf) (peek_size c.peer.kcp) a d

settle_answer : (a : Poll ℕ) (d : Call) → (settle (a, d)).0 ≡ a
unfolding settle
settle_answer (done n) d = refl
settle_answer (failed e) d = refl
settle_answer pending d = refl
settle_answer panicked d = refl

settle_peer : (a : Poll ℕ) (d : Call) → (settle (a, d)).1.peer ≡ d.peer
unfolding settle
settle_peer (done n) d = refl
settle_peer (failed e) d = refl
settle_peer pending d = refl
settle_peer panicked d = refl

Answered-settle :
    (broken : Bool) (room : ℕ) (s : Error ⊎ ℕ) (a : Poll ℕ) (d : Call)
    → Answered broken room s a d
    → Answered broken room s (settle (a, d)).0 (settle (a, d)).1
Answered-settle broken room (inr size) a d h = settle_answer a d ∙ h
Answered-settle true room (inl e) a d h = settle_answer a d ∙ h
Answered-settle false room (inl e) a d (h, w) =
    (settle_answer a d ∙ h, ap (λ p. p.registered) (settle_peer a d) ∙ w)

replied :
    (grants : ℕ) (c : Call)
    → IsSound c.reader
    → c.reader.state ≡ ReaderState.begin
    → let (a, d) = poll_read (suc grants) c in
      Replied (ltb c.reader.cache_pos c.reader.cache_siz) c a d
unfolding poll_read poll_recv poll_from read_locked begin_round
replied grants c v e = elim (Bool-cases (ltb r.cache_pos r.cache_siz)) [
  | inl more ↦
      let fits : ltb (length r.cache) (r.cache_pos + n) ≡ false =
        le→ltb_false _ _ (omega (arith, v.within, ltb→lt _ _ more)) in
      simp (e, more, fits, settle_answer) refl
  | inr spent ↦
      simp (e, spent)
        (Answered-settle c.peer.is_broken_pipe (length c.buf) (peek_size c.peer.kcp) _ _ (
          locked-Answered (read_locked grants)
            (record c { reader = record r { state = ReaderState.read_buff } })))
]
  where
    open c use {reader as r}

    n : ℕ
    n = min (r.cache_siz - r.cache_pos) (length c.buf)

-- A call of poll_read on a reader at `Begin` whose cache holds what it says, to which the lock is
-- granted once at least: it gives the cached bytes that were not given yet, or else those of the
-- next message, as many as the caller has room for. Where there is neither, the call fails with
-- BrokenPipe if the UDP layer is closed, and is pending with the task's waker registered if not.
-- The bytes given are the next of the stream, which is the cache and then the queue and the buffer,
-- and the stream holds the bytes behind them.
pub poll_read-Replied :
    (grants : ℕ) (c : Call)
    → IsSound c.reader
    → c.reader.state ≡ ReaderState.begin
    → let (a, d) = poll_read (suc grants) c in
      Replied (ltb c.reader.cache_pos c.reader.cache_siz) c a d × Gave c a d
poll_read-Replied grants c v e = (replied grants c v e, poll_read-Gave (suc grants) c v)
