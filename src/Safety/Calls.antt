-- ===== src/Safety/Calls.antt =====
-- Any row of calls on a control block: what its users may do with Kcp of
-- src/kcp/kcp_module/kcp.rs, errors and all.
use kcp_server.Base.{
  take, take-append_of, length, length-append, ◌-◌, suc, sym, ◌∙◌, append-nil, append_assoc, ap,
  ◌++◌, ℕ, ◌≡◌, refl, Bool, not, Option, none, some, List, [], ◌∷◌, All, Bool-cases, inl, inr,
  arith,
}
use kcp_server.Segment.{Bytes, KcpSegment}
use kcp_server.Control.{Kcp, UdpSend, new_stream, mtu_def}
use kcp_server.Outcome.{Ends-map, Outcome, ok, err, panic, Ends, >>=-Ends}
use kcp_server.Transmit.{send}
use kcp_server.Receive.{recv}
use kcp_server.Input.{input, known_cmd}
use kcp_server.Input.Keeps.{input-Kept}
use kcp_server.Flush.{flush, flush_ack, flush_acklist, ack_segment}
use kcp_server.Flush.Frames.{Log, Terms, Moved-refl, entries}
use kcp_server.Flush.Datagrams.{Tidy, Tidy-same}
use kcp_server.Flush.Mtu.{Bare, flush_acklist-Bare}
use kcp_server.Flush.Whole.{flush-Tidy}
use kcp_server.Flush.Numbers.{Renewed}
use kcp_server.Timer.{first_update, flush_async, advance_clock, update}
use kcp_server.Safety.Sending.{Handed, Supplied, supplied, send-Supplied}
use kcp_server.Safety.Receiving.{Tidy-IsKept}
use kcp_server.Safety.Reading.{recv-Tidy}
use kcp_server.Safety.Operations.{
  Operation, left, perform, follow, perform_all, LongEnough, Survives, Survives-map, Hands,
  HandsAll, Furthered, empty_log, gone, numbers, numbered_next, numbered_all,
}

-- A new control block is tidy, at the MTU that it starts with.
pub new_stream-Tidy :
    (C : Terms) (conv timestamp : ℕ) (stream : Bool)
    → C.admits conv
    → Tidy mtu_def C empty_log (new_stream conv timestamp stream C.key)
unfolding new_stream
new_stream-Tidy C conv timestamp stream admitted = record {
  same_mtu = refl;
  mss_bounds = (omega arith, omega arith);
  mtu_bounds = (omega arith, omega arith);
  buf_fits = omega arith;
  buf_whole = inl refl;
  sent_fit = tt;
  framed = (admitted, (λ e c. absurd (ground (arith, e))), ([], refl, tt), tt, refl);
  queue_fits = tt;
  buffer_fits = tt;
  logged = (refl, refl, refl);
}

module _ (mtu : ℕ) (C : Terms) (L : Log) where
  first_update-Tidy : (k : Kcp) → Tidy mtu C L k → Tidy mtu C L (first_update k)
  unfolding first_update
  first_update-Tidy k t = elim (Bool-cases (not k.updated)) [
    | inl e ↦ rw e (Tidy-same mtu C L k _ refl refl refl refl refl refl refl refl refl t)
    | inr e ↦ rw e t
  ]

  advance_clock-Tidy :
      (k : Kcp) (current : ℕ) → Tidy mtu C L k → Tidy mtu C L (advance_clock k current).0
  unfolding advance_clock
  advance_clock-Tidy k current t =
      Tidy-same mtu C L (first_update (record k { current = current })) _ refl refl refl refl refl
        refl refl refl refl
        (first_update-Tidy (record k { current = current })
          (Tidy-same mtu C L k (record k { current = current }) refl refl refl refl refl refl refl
            refl refl t))

  unchanged : (k : Kcp) → Tidy mtu C L k → Renewed mtu C L k
  unchanged k t = (L, Moved-refl L, refl, t)

length-entries : (q : List KcpSegment) → length (entries q) ≡ length q
length-entries [] = refl
length-entries (s ∷ q) = ap suc (length-entries q)

module _ (udp : UdpSend) (mtu : ℕ) (C : Terms) (L : Log) where
  abbrev R : Kcp → Type 0
  R = Renewed mtu C L

  flush_async-Renewed : (k : Kcp) → Tidy mtu C L k → Ends R R (flush_async udp k)
  unfolding flush_async
  flush_async-Renewed k t = flush-Tidy udp mtu C L _ (
      first_update-Tidy mtu C L _
        (Tidy-same mtu C L k _ refl refl refl refl refl refl refl refl refl t))

  update-Renewed : (k : Kcp) (current : ℕ) → Tidy mtu C L k → Ends R R (update udp k current)
  unfolding update
  update-Renewed k current t = elim (Bool-cases (advance_clock k current).1) [
    | inl due ↦ rw due (flush-Tidy udp mtu C L _ (advance_clock-Tidy mtu C L k current t))
    | inr early ↦ rw early (unchanged mtu C L _ (advance_clock-Tidy mtu C L k current t))
  ]

  flush_ack-Tidy : (k : Kcp) → Tidy mtu C L k → Ends (Tidy mtu C L) (Tidy mtu C L) (flush_ack udp k)
  unfolding flush_ack ack_segment known_cmd
  flush_ack-Tidy k t = elim (Bool-cases (not k.updated)) [
    | inl new ↦ rw new t
    | inr begun ↦ rw begun (
        >>=-Ends (Bare udp mtu C L) (Tidy mtu C L) (Tidy mtu C L)
          (flush_acklist udp (ack_segment k) k) _
          (flush_acklist-Bare udp mtu C L (ack_segment k) k refl
            (C.admits_cut _ t.framed.0, refl, λ e. omega (arith, e)) t)
          λ a b. b.2)
  ]

  -- What a call leaves, on success and on an error, once it is given.
  abbrev Leaves : (Bytes → Type 0) → List (ℕ × Bytes) → Kcp → Type 0
  Leaves P m k = (b : Bytes) × P b × Furthered mtu C L m b k

  left-Survives {ℓ} :
      {A : Type ℓ} (f : A → Kcp) (o : Outcome Kcp A) (P : Kcp → Type 0)
      → Ends (λ a. P (f a)) P o
      → Survives P (left f o)
  left-Survives f (ok a) P t = t
  left-Survives f (err e k) P t = t
  left-Survives f panic P t = t

  -- A call that gives nothing a number and nothing to be sent.
  quietly {ℓ} :
      {A : Type ℓ} (f : A → Kcp) (o : Outcome Kcp A)
      → Ends (λ a. Tidy mtu C L (f a)) (Tidy mtu C L) o
      → Survives (Leaves (λ b. b ≡ []) []) (left f o)
  quietly f o h =
      Survives-map (Tidy mtu C L) _ (left f o)
        (λ k t. ([], refl, (L, sym (append-nil L.numbered), sym (append-nil L.given), t)))
        (left-Survives f o (Tidy mtu C L) h)

  -- What moved from the waiting to the numbered left the queue.
  moved-gone :
      (k k' : Kcp) (m : List (ℕ × Bytes))
      → entries k.snd_queue ≡ m ++ entries k'.snd_queue
      → m ≡ gone k k'
  moved-gone k k' m e =
      let size = ap length e ∙ length-append m (entries k'.snd_queue) in
      sym (
        take-append_of _ m (entries k'.snd_queue)
          (omega (arith, size, length-entries k.snd_queue, length-entries k'.snd_queue)))
      ∙ ap (take (length k.snd_queue - length k'.snd_queue)) (sym e)

  -- A flush gives numbers to what it takes from the queue.
  flushed :
      (k : Kcp) (o : Outcome Kcp Kcp)
      → Tidy mtu C L k
      → Ends R R o
      → Survives (λ k'. Leaves (λ b. b ≡ []) (gone k k') k') (left (λ k'. k') o)
  flushed k o t h =
      Survives-map R _ (left (λ k'. k') o)
        (λ k' (L', (m, e, w), given, t'). (
          [],
          refl,
          (
            L',
            e
                ∙ ap (λ x. L.numbered ++ x)
                    (moved-gone k k' m (t.logged.2 ∙ (w ∙ ap (λ x. m ++ x) (sym t'.logged.2)))),
            given ∙ sym (append-nil L.given),
            t',
          ),
        ))
        (left-Survives (λ k'. k') o R h)

  Supplied-Leaves : (P : Bytes → Type 0) (k : Kcp) → Supplied mtu C L P k → Leaves P [] k
  Supplied-Leaves P k (b, p, t) =
      (b, p, (supplied mtu C L b k.snd_queue, sym (append-nil L.numbered), refl, t))

  -- A call leaves a tidy state, with what it adds to be sent behind the log.
  pub perform-Tidy :
      (op : Operation) (k : Kcp)
      → LongEnough op
      → Tidy mtu C L k
      → Survives (λ k'. Leaves (Hands op k) (numbers op k k') k') (perform udp op k)
  unfolding perform
  perform-Tidy (Operation.sends buf) k h t =
      Survives-map (Supplied mtu C L (Handed buf (send k buf))) _ (left _ (send k buf))
        (Supplied-Leaves (Handed buf (send k buf)))
        (left-Survives _ (send k buf) _ (send-Supplied mtu C L k buf t))
  perform-Tidy (Operation.receives buf) k h t = quietly _ (recv k buf) (recv-Tidy mtu C L k buf t)
  perform-Tidy (Operation.inputs buf decoding) k h t = quietly _ (input k buf decoding) (
      Ends-map _ _ _ (Tidy mtu C L) (input k buf decoding) (λ (n, k') u. u.1) (λ k' u. u)
        (input-Kept (Tidy mtu C L) (Tidy-IsKept mtu C L) k buf decoding t h))
  perform-Tidy Operation.flushes k h t = flushed k (flush udp k) t (flush-Tidy udp mtu C L k t)
  perform-Tidy Operation.flushes_ack k h t = quietly _ (flush_ack udp k) (flush_ack-Tidy k t)
  perform-Tidy Operation.flushes_async k h t =
      flushed k (flush_async udp k) t (flush_async-Renewed k t)
  perform-Tidy (Operation.updates current) k h t =
      flushed k (update udp k current) t (update-Renewed k current t)

module _ (udp : UdpSend) (mtu : ℕ) (C : Terms) where
  -- What a row of calls leaves.
  abbrev pub AllLeave : List Operation → Log → Kcp → Kcp → Type 0
  AllLeave ops L k k' =
      (b : Bytes) × HandsAll udp ops k b × Furthered mtu C L (numbered_all udp ops k) b k'

  Furthered-trans :
      (L L' : Log) (m m' : List (ℕ × Bytes)) (x y : Bytes) (k : Kcp)
      → L'.numbered ≡ L.numbered ++ m
      → L'.given ≡ L.given ++ x
      → Furthered mtu C L' m' y k
      → Furthered mtu C L (m ++ m') (x ++ y) k
  Furthered-trans L L' m m' x y k e given (L2, f, given2, t) = (
    L2,
    f ∙ (ap (λ p. p ++ m') e ∙ append_assoc L.numbered m m'),
    given2 ∙ (ap (λ p. p ++ y) given ∙ append_assoc L.given x y),
    t,
  )

  -- From a tidy state, any row of calls of `send`, `recv`, `input`, `flush`, `flush_ack`,
  -- `flush_async` and `update`, with any arguments and any answers of the UDP peer, ends without a
  -- panic, those that return an error included, where each datagram to be decoded has four bytes at
  -- least; and it leaves a tidy state, with the log of before, behind which stand, one number each and in
  -- order, the segments that the flushes took from the send queue, and which goes on by the bytes that
  -- the calls of `send` took: the whole buffer, or on an error a first part of it, perhaps none. So
  -- what was ever handed to the UDP peer are datagrams of well-formed segments on the terms `C`,
  -- none longer than the MTU; each push, sent again or not, carries what the log has under its
  -- number; and the numbered contents, with what still waits in the queue behind them, are the
  -- bytes that `send` took, in their order.
  pub perform_all-Tidy :
      (ops : List Operation) (L : Log) (k : Kcp)
      → All LongEnough ops
      → Tidy mtu C L k
      → Survives (AllLeave ops L k) (perform_all udp ops k)
  unfolding perform_all numbered_all
  perform_all-Tidy [] L k h t =
      ([], refl, (L, sym (append-nil L.numbered), sym (append-nil L.given), t))
  perform_all-Tidy (op ∷ ops) L k h t =
      next (perform udp op k) (perform-Tidy udp mtu C L op k h.0 t)
        (λ L' k'. perform_all-Tidy ops L' k' h.1)
    where
      next :
          (o : Option Kcp)
          → Survives (λ k'. (x : Bytes) × Hands op k x × Furthered mtu C L (numbers op k k') x k') o
          → ((L' : Log) (k' : Kcp)
              → Tidy mtu C L' k'
              → Survives (AllLeave ops L' k') (perform_all udp ops k'))
          → Survives
              (λ k2.
                (b : Bytes) × ((x : Bytes) × (y : Bytes) × (b ≡ x ++ y)
                  × Hands op k x
                  × Survives (λ k'. HandsAll udp ops k' y) o)
                × Furthered mtu C L
                    (numbered_next o (λ k'. numbers op k k' ++ numbered_all udp ops k'))
                    b
                    k2)
              (follow o (λ k'. perform_all udp ops k'))
      next none p rest = p
      next (some k') (x, p, (L', more, given, t')) rest =
          Survives-map (AllLeave ops L' k') _ (perform_all udp ops k')
            (λ k2 (y, q, f).
              (x ++ y, (x, y, refl, p, q), Furthered-trans L L' _ _ x y k2 more given f))
            (rest L' k' t')
