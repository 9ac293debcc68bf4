-- ===== src/Reader/Refills.antt =====
-- A call of poll_read takes one message from the control block at most.
use kcp_server.Base.{
  ℕ, zero, suc, ◌+◌, ◌-◌, ◌≡◌, refl, sym, subst, ◌⊎◌, inl, inr, true, false, arith, ltb, min,
  length, Bool-cases, lt→ltb,
}
use kcp_server.Error.{Error}
use kcp_server.Segment.{Bytes}
use kcp_server.Control.{Kcp}
use kcp_server.Outcome.{Outcome, ok, err, panic}
use kcp_server.Receive.{recv, peek_size}
use kcp_server.Receive.Messages.{refilled, Received, recv-Received}
use kcp_server.Poll.{Poll, done, failed, pending, panicked}
use kcp_server.Reader.{
  ReaderState, Call, Round, returns, loops, begin_round, broken_or, grown, after_cached,
  cache_message, after_direct, sized_round, locked_round, follows, read_locked, poll_from,
  poll_recv, settle, poll_read,
}

-- No message was taken, or one was.
abbrev pub Refilled : Kcp → Kcp → Type 0
Refilled k k' = (k' ≡ k) ⊎ (k' ≡ refilled k)

-- The same of a round; one that took a message and goes on has it in its cache.
abbrev Once : Kcp → Round → Type 0
Once k (returns a c) = Refilled k c.peer.kcp
Once k (loops c) =
    (c.peer.kcp ≡ k)
    ⊎ ((c.peer.kcp ≡ refilled k) × (ltb c.reader.cache_pos c.reader.cache_siz ≡ true))

after_cached-Once :
    (k : Kcp) (c : Call) (buf : Bytes) (o : Outcome Kcp (ℕ × Bytes × Kcp))
    → Received k buf o
    → Once k (after_cached c o)
unfolding after_cached
after_cached-Once k c buf (ok (zero, cache, k')) r = inr r.3
after_cached-Once k c buf (ok (suc n, cache, k')) r = inr (r.3, lt→ltb 0 (suc n) (omega arith))
after_cached-Once k c buf (err e k') r = inl r.0
after_cached-Once k c buf panic r = absurd r

cache_message-Once : (size : ℕ) (c : Call) → Once c.peer.kcp (cache_message size c)
unfolding cache_message
cache_message-Once size c =
    let cache = grown c.reader.cache size in
    after_cached-Once c.peer.kcp (record c { reader = record (c.reader) { cache = cache } }) cache
      (recv c.peer.kcp cache) (recv-Received c.peer.kcp cache)

after_direct-Once :
    (k : Kcp) (c : Call) (o : Outcome Kcp (ℕ × Bytes × Kcp))
    → Received k c.buf o
    → Once k (after_direct c o)
unfolding after_direct
after_direct-Once k c (ok (n, out, k')) r = inr r.3
after_direct-Once k c (err Error.recv_queue_empty k') r = inl r.0
after_direct-Once k c (err (Error.user_buf_too_small size) k') r =
    let c' = record c { peer = record (c.peer) { kcp = k' } } in
    subst (λ x. Once x (cache_message size c')) r.0 (cache_message-Once size c')
after_direct-Once k c (err e k') r = inl r.0
after_direct-Once k c panic r = absurd r

sized_round-Once : (c : Call) (s : Error ⊎ ℕ) → Once c.peer.kcp (sized_round c s)
unfolding sized_round
sized_round-Once c (inr size) = elim (Bool-cases (ltb (length c.buf) size)) [
  | inl large ↦ rw large (cache_message-Once size c)
  | inr fits ↦
      rw fits
        (after_direct-Once c.peer.kcp c (recv c.peer.kcp c.buf) (recv-Received c.peer.kcp c.buf))
]
sized_round-Once c (inl Error.broken_pipe) = inl refl
sized_round-Once c (inl e) = inl refl

begin_follows :
    (k : Kcp) (c : Call) (f : Call → Poll ℕ × Call)
    → Once k (loops c)
    → ((d : Call) → d.peer.kcp ≡ k → Refilled k (f d).1.peer.kcp)
    → Refilled k (follows (begin_round c) f).1.peer.kcp
unfolding begin_round
begin_follows k c f o next = elim (Bool-cases (ltb c.reader.cache_pos c.reader.cache_siz)) [
  | inl more ↦
      elim (Bool-cases (
        ltb (length c.reader.cache)
          (c.reader.cache_pos + min (c.reader.cache_siz - c.reader.cache_pos) (length c.buf)))) [
            | inl over ↦ rw (more, over) (taken o)
            | inr fits ↦ rw (more, fits) (taken o)
          ]
  | inr spent ↦ rw spent (
      next (record c { reader = record (c.reader) { state = ReaderState.read_buff } })
        (untaken spent o))
]
  where
    taken : Once k (loops c) → Refilled k c.peer.kcp
    taken (inl e) = inl e
    taken (inr x) = inr x.0

    untaken : ltb c.reader.cache_pos c.reader.cache_siz ≡ false → Once k (loops c) → c.peer.kcp ≡ k
    untaken spent (inl e) = e
    untaken spent (inr x) = absurd (cc (spent, x.1))

read_locked-Refilled :
    (grants : ℕ) (c : Call) → Refilled c.peer.kcp (read_locked grants c).1.peer.kcp
unfolding read_locked locked_round
read_locked-Refilled zero c = inl refl
read_locked-Refilled (suc grants) c =
    turn (sized_round c (broken_or c.peer.is_broken_pipe (peek_size c.peer.kcp)))
      (sized_round-Once c _)
      λ d e.
        subst (λ k. Refilled k (read_locked grants d).1.peer.kcp) e (read_locked-Refilled grants d)
  where
    turn :
        (r : Round)
        → Once c.peer.kcp r
        → ((d : Call)
            → d.peer.kcp ≡ c.peer.kcp
            → Refilled c.peer.kcp (read_locked grants d).1.peer.kcp)
        → Refilled c.peer.kcp
            (follows r (λ c'. follows (begin_round c') (read_locked grants))).1.peer.kcp
    turn (returns a d) o next = o
    turn (loops d) o next = begin_follows c.peer.kcp d (read_locked grants) o next

settle_kcp : (a : Poll ℕ) (d : Call) → (settle (a, d)).1.peer ≡ d.peer
unfolding settle
settle_kcp (done n) d = refl
settle_kcp (failed e) d = refl
settle_kcp pending d = refl
settle_kcp panicked d = refl

poll_from-Refilled :
    (grants : ℕ) (c : Call) (s : ReaderState)
    → Refilled c.peer.kcp (poll_from grants c s).1.peer.kcp
unfolding poll_from
poll_from-Refilled grants c ReaderState.read_buff = read_locked-Refilled grants c
poll_from-Refilled grants c ReaderState.begin =
    begin_follows c.peer.kcp c (read_locked grants) (inl refl) λ d e.
      subst (λ k. Refilled k (read_locked grants d).1.peer.kcp) e (read_locked-Refilled grants d)

pub poll_read-Refilled :
    (grants : ℕ) (c : Call) → Refilled c.peer.kcp (poll_read grants c).1.peer.kcp
unfolding poll_read poll_recv
poll_read-Refilled grants c =
    let (a, d) = poll_from grants c c.reader.state in
    subst (λ p. Refilled c.peer.kcp p.kcp) (sym (settle_kcp a d))
      (poll_from-Refilled grants c c.reader.state)
