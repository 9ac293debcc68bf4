-- ===== src/Reader/Conservation.antt =====
-- Each call of poll_read takes its bytes from the front of the reader's stream, and loses none.
use kcp_server.Base.{ℕ, zero, suc, ◌≡◌, refl, sym, subst}
use kcp_server.Receive.{peek_size}
use kcp_server.Poll.{Poll, done, failed, pending, panicked}
use kcp_server.Reader.{
  ReaderState, Call, Round, returns, loops, begin_round, broken_or, locked_round, follows,
  read_locked, poll_from, poll_recv, settle, poll_read,
}
use kcp_server.Reader.Rounds.{
  IsSound, Same, Gave, Turned, Begun, Turned-from, begin_round-Begun, sized_round-Turned, at_begin,
}

locked_round-Turned :
    (c : Call)
    → IsSound c.reader
    → c.reader.state ≡ ReaderState.read_buff
    → Turned c (locked_round c)
unfolding locked_round
locked_round-Turned c v e =
    sized_round-Turned c (broken_or c.peer.is_broken_pipe (peek_size c.peer.kcp)) v (v.used_up e)

-- How a call ends, told of its start and not of a later point with the same stream.
Gave-from : (c c' d : Call) (a : Poll ℕ) → Same c c' → Gave c' a d → Gave c a d
Gave-from c c' d a (v, b, s) g = Turned-from c c' (returns a d) (sym s) (sym b) g

-- A round, and what follows it where it goes on.
follow :
    (c : Call) (r : Round) (f : Call → Poll ℕ × Call)
    → Turned c r
    → ((d : Call) → r ≡ loops d → Same c d → Gave c (f d).0 (f d).1)
    → Gave c (follows r f).0 (follows r f).1
follow c (returns a d) f g next = g
follow c (loops d) f same next = next d refl same

Begun-Turned : (c : Call) (r : Round) → Begun c r → Turned c r
Begun-Turned c (returns a d) g = g
Begun-Turned c (loops d) g = g.0

Begun-state :
    (c d : Call) (r : Round) → Begun c r → r ≡ loops d → d.reader.state ≡ ReaderState.read_buff
Begun-state c d r b e = (subst (Begun c) e b).1

-- From `Begin`, followed by what a call does once it waits for the lock.
begin_follow :
    (c : Call) (f : Call → Poll ℕ × Call)
    → IsSound c.reader
    → ((d : Call)
        → IsSound d.reader
        → d.reader.state ≡ ReaderState.read_buff
        → Gave d (f d).0 (f d).1)
    → Gave c (follows (begin_round c) f).0 (follows (begin_round c) f).1
begin_follow c f v next =
    let begun = begin_round-Begun c v in
    follow c (begin_round c) f (Begun-Turned c (begin_round c) begun) λ d e same.
      Gave-from c d (f d).1 (f d).0 same (next d same.0 (Begun-state c d (begin_round c) begun e))

read_locked-Gave :
    (grants : ℕ) (c : Call)
    → IsSound c.reader
    → c.reader.state ≡ ReaderState.read_buff
    → Gave c (read_locked grants c).0 (read_locked grants c).1
unfolding read_locked
read_locked-Gave zero c v e = (v, refl, refl)
read_locked-Gave (suc grants) c v e =
    follow c (locked_round c) _ (locked_round-Turned c v e) λ d looped same.
      Gave-from c d _ _ same (begin_follow d (read_locked grants) same.0 (read_locked-Gave grants))

poll_recv-Gave :
    (grants : ℕ) (c : Call)
    → IsSound c.reader
    → Gave c (poll_recv grants c).0 (poll_recv grants c).1
unfolding poll_recv
poll_recv-Gave grants c v = by_state c.reader.state refl
  where
    by_state :
        (s : ReaderState)
        → c.reader.state ≡ s
        → Gave c (poll_from grants c s).0 (poll_from grants c s).1
    by_state ReaderState.read_buff e = unfold poll_from in read_locked-Gave grants c v e
    by_state ReaderState.begin e =
        unfold poll_from in begin_follow c (read_locked grants) v (read_locked-Gave grants)

settle-Gave : (c d : Call) (a : Poll ℕ) → Gave c a d → Gave c (settle (a, d)).0 (settle (a, d)).1
unfolding settle
settle-Gave c d (done n) (v, room, size, s) = (at_begin d.reader v, room, size, s)
settle-Gave c d (failed e) (v, b, s) = (at_begin d.reader v, b, s)
settle-Gave c d pending g = g
settle-Gave c d panicked g = g

-- A call of poll_read whose lock is granted any number of times, on a reader whose cache holds what
-- it says: it does not panic; where it gives `n` bytes, these are the next `n` bytes of the stream,
-- at most as many as the caller has room for; else it gives none and the caller's buffer is as it
-- was; the stream, which is the cache and then the queue and the buffer of the control block, holds
-- the bytes behind these, and the reader's cache holds what it says again.
pub poll_read-Gave :
    (grants : ℕ) (c : Call)
    → IsSound c.reader
    → Gave c (poll_read grants c).0 (poll_read grants c).1
unfolding poll_read
poll_read-Gave grants c v =
    settle-Gave c (poll_recv grants c).1 (poll_recv grants c).0 (poll_recv-Gave grants c v)
