-- ===== src/Reader/Rounds.antt =====
-- A round of the reader's loop, on the stream of bytes that the reader is still to give.
use kcp_server.Base.{
  ℕ, zero, suc, ◌+◌, ◌-◌, ◌≤◌, ◌≡◌, refl, ◌∙◌, sym, ap, ◌⊎◌, inl, inr, [], ◌++◌, append_assoc,
  length, length-append, length-take, length-drop, take, drop, take-append_of, take_split,
  drop-drop, min, arith, ltb, Bool-cases, ltb→lt, ltb_false→le,
}
use kcp_server.Error.{Error}
use kcp_server.Segment.{Bytes}
use kcp_server.Control.{Kcp}
use kcp_server.Outcome.{Outcome, ok, err, panic}
use kcp_server.Receive.{recv}
use kcp_server.Poll.{Poll, done, failed, pending, panicked}
use kcp_server.Reader.Stream.{waiting, Took, recv-Took}
use kcp_server.Reader.{
  KcpReader, ReaderState, Call, Round, returns, loops, overwrite, cached, begin_round, grown, zeros,
  after_cached, cache_message, after_direct, sized_round,
}

-- The cached bytes that were not given yet.
abbrev pub unread : KcpReader → Bytes
unread r = cached r (r.cache_siz - r.cache_pos)

-- All that the reader is still to give, in order.
abbrev pub stream : Call → Bytes
stream c = unread c.reader ++ waiting c.peer.kcp

-- The cache holds what it says, and is used up where the reader is not at `Begin`.
pub record IsSound (r : KcpReader) : Type 0 where
  pub within : r.cache_siz ≤ length r.cache
  pub behind : r.cache_pos ≤ r.cache_siz
  pub used_up : r.state ≡ ReaderState.read_buff → r.cache_siz ≤ r.cache_pos

-- Between two calls, or two rounds: the same buffer, and the same bytes to give.
abbrev pub Same : Call → Call → Type 0
Same c c' = IsSound c'.reader × (c'.buf ≡ c.buf) × (stream c' ≡ stream c)

-- What a call comes to: `n` bytes from the front of the stream into the caller's buffer, or nothing
-- at all. It does not panic.
abbrev pub Gave : Call → Poll ℕ → Call → Type 0
Gave c (done n) c' =
    IsSound c'.reader
    × (n ≤ length c.buf)
    × (length c'.buf ≡ length c.buf)
    × (stream c ≡ take n c'.buf ++ stream c')
Gave c (failed e) c' = Same c c'
Gave c pending c' = Same c c'
Gave c panicked c' = ⊥

abbrev pub Turned : Call → Round → Type 0
Turned c (returns a c') = Gave c a c'
Turned c (loops c') = Same c c'

-- The same of the state `Begin`, which goes on to `ReadBuff`.
abbrev pub Begun : Call → Round → Type 0
Begun c (returns a c') = Gave c a c'
Begun c (loops c') = Same c c' × (c'.reader.state ≡ ReaderState.read_buff)

pub begin_round-Begun : (c : Call) → IsSound c.reader → Begun c (begin_round c)
unfolding begin_round
begin_round-Begun c v = elim (Bool-cases (ltb r.cache_pos r.cache_siz)) [
  | inl more ↦ elim (Bool-cases (ltb (length r.cache) (r.cache_pos + n))) [
    | inl over ↦ absurd (omega (arith, ltb→lt _ _ over, v.within, ltb→lt _ _ more))
    | inr fits ↦
        rw (more, fits)
          (
            record {
              within = v.within;
              behind = omega (arith, v.behind, ltb→lt _ _ more);
              used_up = λ e. omega (arith, v.used_up e, ltb→lt _ _ more);
            },
            omega arith,
            omega (
              arith,
              length-append given (drop (length given) c.buf),
              length-drop (length given) c.buf,
              given_length,
            ),
            whole,
          )
  ]
  | inr empty ↦ rw empty (
    (
      record { within = v.within; behind = v.behind; used_up = λ e. ltb_false→le _ _ empty },
      refl,
      refl,
    ),
    refl,
  )
]
  where
    open c use {reader as r, buf}

    n : ℕ
    n = min (r.cache_siz - r.cache_pos) (length c.buf)

    given : Bytes
    given = cached r n

    given_length : length given ≡ n
    given_length = omega (
      arith,
      length-take n (drop r.cache_pos r.cache),
      length-drop r.cache_pos r.cache,
      v.within,
      v.behind,
    )

    whole :
        stream c
        ≡ take n (overwrite given c.buf)
          ++ (take (r.cache_siz - (r.cache_pos + n)) (drop (r.cache_pos + n) r.cache)
              ++ waiting c.peer.kcp)
    whole =
        let left : r.cache_siz - r.cache_pos - n ≡ r.cache_siz - (r.cache_pos + n) = omega arith in
        let rest = take (r.cache_siz - (r.cache_pos + n)) (drop (r.cache_pos + n) r.cache) in
        ap (λ bytes. bytes ++ waiting c.peer.kcp)
          (take_split n (r.cache_siz - r.cache_pos) (drop r.cache_pos r.cache) (omega arith)
            ∙ rw (left, drop-drop r.cache_pos n r.cache) refl)
        ∙ (append_assoc given rest (waiting c.peer.kcp)
            ∙ ap (λ bytes. bytes ++ (rest ++ waiting c.peer.kcp))
                (sym (take-append_of n given (drop (length given) c.buf) given_length)))

-- A round from a state with the same stream and buffer.
pub Turned-from :
    (c c' : Call) (r : Round) → stream c ≡ stream c' → c.buf ≡ c'.buf → Turned c' r → Turned c r
Turned-from c c' (returns (done n) d) e b (v, room, size, s) =
    (v, omega (arith, room, ap length b), size ∙ ap length (sym b), e ∙ s)
Turned-from c c' (returns (failed x) d) e b (v, size, s) = (v, size ∙ sym b, s ∙ sym e)
Turned-from c c' (returns pending d) e b (v, size, s) = (v, size ∙ sym b, s ∙ sym e)
Turned-from c c' (returns panicked d) e b h = h
Turned-from c c' (loops d) e b (v, size, s) = (v, size ∙ sym b, s ∙ sym e)

pub unread_used_up : (r : KcpReader) → r.cache_siz ≤ r.cache_pos → unread r ≡ []
unread_used_up r h = let e : r.cache_siz - r.cache_pos ≡ 0 = omega arith in rw e

-- The stream is then what the control block holds.
pub stream_used_up :
    (r : KcpReader) (k : Kcp) → r.cache_siz ≤ r.cache_pos → unread r ++ waiting k ≡ waiting k
stream_used_up r k h = ap (λ bytes. bytes ++ waiting k) (unread_used_up r h)

after_cached-Turned :
    (c : Call) (o : Outcome Kcp (ℕ × Bytes × Kcp))
    → IsSound c.reader
    → c.reader.cache_siz ≤ c.reader.cache_pos
    → Took c.peer.kcp c.reader.cache o
    → Turned c (after_cached c o)
unfolding after_cached
after_cached-Turned c (ok (zero, cache, k)) v u (room, size, s) = (
  record { within = omega (arith, v.within, size); behind = v.behind; used_up = v.used_up },
  omega arith,
  refl,
  stream_used_up c.reader c.peer.kcp u
      ∙ (s ∙ sym (stream_used_up (record (c.reader) { cache = cache }) k u)),
)
after_cached-Turned c (ok (suc n, cache, k)) v u (room, size, s) = (
  record { within = omega (arith, room, size); behind = omega arith; used_up = λ e. cc },
  refl,
  (let all : suc n - 0 ≡ suc n = omega arith in
      rw all (sym s ∙ sym (stream_used_up c.reader c.peer.kcp u))),
)
after_cached-Turned c (err e k) v u same = (v, refl, ap (λ k. unread c.reader ++ waiting k) same)
after_cached-Turned c panic v u h = h

le-length-grown : (cache : Bytes) (size : ℕ) → length cache ≤ length (grown cache size)
unfolding grown
le-length-grown cache size = ground (arith, length-append cache (zeros (size - length cache)))

cache_message-Turned :
    (size : ℕ) (c : Call)
    → IsSound c.reader
    → c.reader.cache_siz ≤ c.reader.cache_pos
    → Turned c (cache_message size c)
unfolding cache_message
cache_message-Turned size c v u =
    Turned-from c c' (after_cached c' (recv c.peer.kcp cache))
      (stream_used_up c.reader c.peer.kcp u ∙ sym (stream_used_up c'.reader c.peer.kcp u)) refl
      (after_cached-Turned c' (recv c.peer.kcp cache)
        (record {
          within = omega (arith, v.within, le-length-grown c.reader.cache size);
          behind = v.behind;
          used_up = v.used_up;
        })
        u (recv-Took c.peer.kcp cache))
  where
    cache : Bytes
    cache = grown c.reader.cache size

    c' : Call
    c' = record c { reader = record (c.reader) { cache = cache } }

pub at_begin : (r : KcpReader) → IsSound r → IsSound (record r { state = ReaderState.begin })
at_begin r v = record { within = v.within; behind = v.behind; used_up = λ e. cc }

after_direct-Turned :
    (c : Call) (o : Outcome Kcp (ℕ × Bytes × Kcp))
    → IsSound c.reader
    → c.reader.cache_siz ≤ c.reader.cache_pos
    → Took c.peer.kcp c.buf o
    → Turned c (after_direct c o)
unfolding after_direct
after_direct-Turned c (ok (n, out, k)) v u (room, size, s) = (
  v,
  room,
  size,
  stream_used_up c.reader c.peer.kcp u
      ∙ (s ∙ ap (λ w. take n out ++ w) (sym (stream_used_up c.reader k u))),
)
after_direct-Turned c (err Error.recv_queue_empty k) v u same =
    (at_begin c.reader v, refl, ap (λ k. unread c.reader ++ waiting k) same)
after_direct-Turned c (err (Error.user_buf_too_small size) k) v u same =
    let c' = record c { peer = record (c.peer) { kcp = k } } in
    Turned-from c c' (cache_message size c') (ap (λ k. unread c.reader ++ waiting k) (sym same))
      refl (cache_message-Turned size c' v u)
after_direct-Turned c (err e k) v u same = (v, refl, ap (λ k. unread c.reader ++ waiting k) same)
after_direct-Turned c panic v u h = h

pub sized_round-Turned :
    (c : Call) (s : Error ⊎ ℕ)
    → IsSound c.reader
    → c.reader.cache_siz ≤ c.reader.cache_pos
    → Turned c (sized_round c s)
unfolding sized_round
sized_round-Turned c (inr size) v u = elim (Bool-cases (ltb (length c.buf) size)) [
  | inl large ↦ rw large (cache_message-Turned size c v u)
  | inr fits ↦ rw fits (after_direct-Turned c _ v u (recv-Took c.peer.kcp c.buf))
]
sized_round-Turned c (inl Error.broken_pipe) v u = (v, refl, refl)
sized_round-Turned c (inl e) v u = (at_begin c.reader v, refl, refl)
