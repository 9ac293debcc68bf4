-- ===== src/Safety/Sending.antt =====
-- What `send` leaves of the invariant of `flush`.
use kcp_server.Base.{
  ℕ, zero, suc, ◌+◌, ◌-◌, ◌≤◌, ◌≡◌, ◌<◌, refl, sym, ap, ◌∙◌, subst, ◌++◌, append_assoc, append-nil,
  Bool, false, ◌&&◌, not, List, [], ◌∷◌, length, length-append, length-take, take, drop, is_empty,
  min, All, All-append, All-map, arith, ltb, leb, ◌==◌, Bool-cases, inl, inr, if◌then◌else◌,
}
use kcp_server.Segment.{Bytes, KcpSegment, overhead}
use kcp_server.Control.{Kcp, wnd_rcv}
use kcp_server.Outcome.{Outcome, ok, err, panic, Ends}
use kcp_server.Receive.Messages.{payloads, payloads-append}
use kcp_server.Transmit.Message.{SentMessage, send-SentMessage}
use kcp_server.Transmit.Stream.{SentStream, send-SentStream}
use kcp_server.Transmit.{send, send_rest, push_fragments, extend_back, fragment_count}
use kcp_server.Transmit.Fragments.{fragment_count-IsLeast}
use kcp_server.Flush.Frames.{Log, Terms, log_bytes, entries}
use kcp_server.Flush.Datagrams.{Waits, Tidy, FitsMtu}
use kcp_server.Flush.Numbers.{Waits-Longer, Framed-Longer}

module _ (mtu : ℕ) where
  push_fragments-All :
      (stream : Bool) (mss n : ℕ) (buf : Bytes) (sent : ℕ) (q : List KcpSegment)
      → overhead + mss ≤ mtu
      → All (FitsMtu mtu) q
      → All (FitsMtu mtu) (push_fragments stream mss n buf sent q).1
  unfolding push_fragments
  push_fragments-All stream mss zero buf sent q h v = v
  push_fragments-All stream mss (suc n) buf sent q h v =
      push_fragments-All stream mss n (drop size buf) (sent + size) _ h
        (All-append (FitsMtu mtu) q (_ ∷ []) v (omega (arith, h, length-take size buf), tt))
    where
      size : ℕ
      size = min mss (length buf)

  extend_back-All :
      (mss : ℕ) (buf : Bytes) (q : List KcpSegment)
      → overhead + mss ≤ mtu
      → All (FitsMtu mtu) q
      → All (FitsMtu mtu) (extend_back mss buf q).2
  unfolding extend_back
  extend_back-All mss buf [] h v = tt
  extend_back-All mss buf (s ∷ []) h v = elim (Bool-cases (ltb (length s.payload) mss)) [
    | inl room ↦
        let extend = min (length buf) (mss - length s.payload) in
        rw room
          (omega (arith, h, length-append s.payload (take extend buf), length-take extend buf), tt)
    | inr full ↦ rw full v
  ]
  extend_back-All mss buf (s ∷ t ∷ q) h v = (v.0, extend_back-All mss buf (t ∷ q) h v.1)

  -- What waits in the queue fits.
  abbrev Queues : Kcp → Type 0
  Queues k = All (FitsMtu mtu) k.snd_queue

  abbrev Sends : ℕ × Kcp → Type 0
  Sends (n, k) = Queues k

  send_rest-Queues :
      (sent : ℕ) (buf : Bytes) (k : Kcp)
      → 0 < k.mss
      → overhead + k.mss ≤ mtu
      → Queues k
      → Ends Sends Queues (send_rest sent buf k)
  unfolding send_rest
  send_rest-Queues sent buf k positive small t =
      let least = fragment_count-IsLeast k.mss (length buf) positive in
      let some_left : (fragment_count k.mss (length buf) == 0) ≡ false = ground (arith, least.0) in
      elim (Bool-cases (leb wnd_rcv (fragment_count k.mss (length buf)))) [
        | inl large ↦ rw large t
        | inr fits ↦
            rw (fits, some_left)
              (push_fragments-All k.stream k.mss (fragment_count k.mss (length buf)) buf sent
                k.snd_queue small t)
      ]

  send-Queues :
      (k : Kcp) (buf : Bytes)
      → 0 < k.mss
      → overhead + k.mss ≤ mtu
      → Queues k
      → Ends Sends Queues (send k buf)
  unfolding send
  send-Queues k buf h small t =
      let positive : (k.mss == 0) ≡ false = ground (arith, h) in
      elim (Bool-cases (k.stream && not (is_empty k.snd_queue))) [
        | inl extends ↦
            rw (positive, extends)
              (extended (extend_back k.mss buf k.snd_queue)
                (extend_back-All k.mss buf k.snd_queue small t))
        | inr skips ↦ rw (positive, skips) (send_rest-Queues 0 buf k h small t)
      ]
    where
      extended :
          (out : ℕ × Bytes × List KcpSegment)
          → All (FitsMtu mtu) out.2
          → Ends Sends Queues (
              if is_empty out.1
              then Outcome.ok (out.0, record k { snd_queue = out.2 })
              else send_rest out.0 out.1 (record k { snd_queue = out.2 }))
      extended (n, rest, q) v = elim (Bool-cases (is_empty rest)) [
        | inl all ↦ rw all v
        | inr more ↦ rw more (send_rest-Queues n rest (record k { snd_queue = q }) h small v)
      ]

-- What `send` makes of the queue, in either mode.
abbrev pub Took : Kcp → Bytes → Outcome Kcp (ℕ × Kcp) → Type 0
Took k buf (ok (n, k')) =
    (payloads k'.snd_queue ≡ payloads k.snd_queue ++ buf)
    × (k' ≡ record k { snd_queue = k'.snd_queue })
Took k buf (err e k') =
    ((n : ℕ) × (payloads k'.snd_queue ≡ payloads k.snd_queue ++ take n buf))
    × (k' ≡ record k { snd_queue = k'.snd_queue })
Took k buf panic = ⊥

Took-message :
    (k : Kcp) (buf : Bytes) (o : Outcome Kcp (ℕ × Kcp)) → SentMessage k buf o → Took k buf o
Took-message k buf (ok (n, k')) (all, few, queued, rest) = (
  ap payloads queued.appended
      ∙ (payloads-append k.snd_queue queued.fragments
          ∙ ap (λ b. payloads k.snd_queue ++ b) queued.bytes),
  rest,
)
Took-message k buf (err e k') (why, same, big) = (
  (0, ap (λ x. payloads x.snd_queue) same ∙ sym (append-nil (payloads k.snd_queue))),
  same ∙ ap (λ q. record k { snd_queue = q }) (ap (λ x. x.snd_queue) (sym same)),
)
Took-message k buf panic s = s

Took-stream :
    (k : Kcp) (buf : Bytes) (o : Outcome Kcp (ℕ × Kcp)) → SentStream k buf o → Took k buf o
Took-stream k buf (ok (n, k')) (all, bytes, pieces, rest) = (bytes, rest)
Took-stream k buf (err e k') (why, part, rest) = (part, rest)
Took-stream k buf panic s = s

pub send-Took : (k : Kcp) (buf : Bytes) → 0 < k.mss → Took k buf (send k buf)
send-Took k buf h = elim (Bool-cases k.stream) [
  | inl stream ↦ Took-stream k buf (send k buf) (send-SentStream k buf h stream)
  | inr message ↦ Took-message k buf (send k buf) (send-SentMessage k buf h message)
]

-- The bytes that a call of `send` adds to those to be sent: the whole buffer where it succeeds, and
-- a first part of it, perhaps none, where it fails.
abbrev pub Handed : Bytes → Outcome Kcp (ℕ × Kcp) → Bytes → Type 0
Handed buf (ok (n, k)) b = b ≡ buf
Handed buf (err e k) b = (n : ℕ) × (b ≡ take n buf)
Handed buf panic b = ⊥

module _ (mtu : ℕ) (C : Terms) (L : Log) where
  -- The log with more bytes to be sent.
  abbrev pub supplied : Bytes → List KcpSegment → Log
  supplied b q = record L { waiting = entries q; given = L.given ++ b }

  supplied-Tidy :
      (k k' : Kcp) (b : Bytes)
      → Tidy mtu C L k
      → All (FitsMtu mtu) k'.snd_queue
      → payloads k'.snd_queue ≡ payloads k.snd_queue ++ b
      → k' ≡ record k { snd_queue = k'.snd_queue }
      → Tidy mtu C (supplied b k'.snd_queue) k'
  supplied-Tidy k k' b t fits bytes rest =
      subst (Tidy mtu C (supplied b k'.snd_queue)) (sym rest) (record {
        same_mtu = t.same_mtu;
        mss_bounds = t.mss_bounds;
        mtu_bounds = t.mtu_bounds;
        buf_fits = t.buf_fits;
        buf_whole = t.buf_whole;
        sent_fit = t.sent_fit;
        framed =
            Framed-Longer mtu C L (supplied b k'.snd_queue) ([], sym (append-nil L.numbered)) k
              t.framed;
        queue_fits = fits;
        buffer_fits =
            All-map (Waits mtu C L) (Waits mtu C (supplied b k'.snd_queue))
              (Waits-Longer mtu C L (supplied b k'.snd_queue) ([], sym (append-nil L.numbered)))
              k.snd_buf t.buffer_fits;
        logged = (
          t.logged.0,
          ap (λ p. log_bytes L.numbered ++ p) bytes
              ∙ (sym (append_assoc (log_bytes L.numbered) (payloads k.snd_queue) b)
                  ∙ ap (λ p. p ++ b) t.logged.1),
          refl,
        );
      })

  -- The state that a call leaves, tidy with the bytes that the call added.
  abbrev pub Supplied : (Bytes → Type 0) → Kcp → Type 0
  Supplied P k = (b : Bytes) × P b × Tidy mtu C (supplied b k.snd_queue) k

  pub send-Supplied :
      (k : Kcp) (buf : Bytes)
      → Tidy mtu C L k
      → Ends
          (λ (n, k'). Supplied (Handed buf (send k buf)) k')
          (Supplied (Handed buf (send k buf)))
          (send k buf)
  send-Supplied k buf t =
      go (send k buf) (send-Took k buf t.mss_bounds.0)
        (send-Queues mtu k buf t.mss_bounds.0 t.mss_bounds.1 t.queue_fits)
    where
      go :
          (o : Outcome Kcp (ℕ × Kcp))
          → Took k buf o
          → Ends (Sends mtu) (Queues mtu) o
          → Ends (λ (n, k'). Supplied (Handed buf o) k') (Supplied (Handed buf o)) o
      go (ok (n, k')) s v = (buf, refl, supplied-Tidy k k' buf t v s.0 s.1)
      go (err e k') ((n, bytes), rest) v =
          (take n buf, (n, refl), supplied-Tidy k k' (take n buf) t v bytes rest)
      go panic s v = s
