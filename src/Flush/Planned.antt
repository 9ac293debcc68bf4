-- ===== src/Flush/Planned.antt =====
-- `flush` of src/kcp/kcp_module/kcp.rs sends what `Plan` lists.
use kcp_server.Base.{
  ◌/◌, u32_max, add_u32, ltb_ℤ, pos, ℕ, ◌≡◌, refl, sym, ap, ◌∙◌, subst, Bool, true, false, List, [],
  ◌∷◌, ◌++◌, append-nil, arith, ltb, Bool-cases, inl, inr, not, if◌then◌else◌,
}
use kcp_server.Segment.{Bytes, KcpSegment, cmd_wask, cmd_wins}
use kcp_server.Control.{timediff, KcpOutput, Kcp, UdpSend, ask_send, ask_tell}
use kcp_server.Input.Loop.{datagram}
use kcp_server.Flush.Frames.{Log, Terms}
use kcp_server.Flush.Datagrams.{Tidy}
use kcp_server.Flush.Numbers.{Renewed}
use kcp_server.Flush.Whole.{flush-Tidy}
use kcp_server.Outcome.{Ends, Outcome, ok, err, panic, ◌>>=◌}
use kcp_server.Flush.Plan.{
  acks_of, last_ack, probe_of, probes_of, pushed, probing, windowed, plan, wired, unmasked,
}
use kcp_server.Flush.{
  Flushing, flush_segments, flush_rest, flush_acklist, flush_probe_commands, flush_all, flush,
  after_change, after_loss, at_least_one, probe_wnd_size, fill_window, outgoing, send_window,
  ack_segment,
}
use kcp_server.Flush.Writing.{hollow, Writes, >>=-Writes, Writes-ok, whole, beside, Same}
use kcp_server.Flush.Headers.{
  acked, unasked, Acked, Probed, flush_acklist-Writes, flush_probe_commands-Writes,
}
use kcp_server.Flush.Pushes.{inside, Emptied, pushed-Same, flush_segments-Writes, flush_rest-Writes}

-- What `wired` hangs on.
abbrev front : Kcp → Bytes × KcpOutput
front k = (k.buf, k.output)

wired-front : (k k' : Kcp) → front k' ≡ front k → wired k' ≡ wired k
wired-front k k' e = ap (λ (b, o). unmasked o.key o.sent ++ b) e

-- The end of `flush` leaves it alone.
abbrev ended : ℕ → ℕ → ℕ → Bool → Kcp → Kcp
ended cwnd resent change lost k = at_least_one (after_loss cwnd lost (after_change resent change k))

ended-front :
    (cwnd resent change : ℕ) (lost : Bool) (k : Kcp)
    → front (ended cwnd resent change lost k) ≡ front k
unfolding at_least_one after_loss after_change
ended-front cwnd resent change lost k =
    one (after_loss cwnd lost (after_change resent change k))
    ∙ (loss lost (after_change resent change k) ∙ changed)
  where
    one : (x : Kcp) → front (at_least_one x) ≡ front x
    one x = ground arith

    loss : (b : Bool) (x : Kcp) → front (after_loss cwnd b x) ≡ front x
    loss true x = refl
    loss false x = refl

    changed : front (after_change resent change k) ≡ front k
    changed = ground arith

probe_wnd_size-front : (k : Kcp) → front (probe_wnd_size k) ≡ front k
unfolding probe_wnd_size
probe_wnd_size-front k = ground arith

probe_wnd_size-hollow : (k : Kcp) → hollow (probe_wnd_size k) ≡ probe_wnd_size (hollow k)
unfolding probe_wnd_size
probe_wnd_size-hollow k = ground arith

probe_wnd_size-Same : (k k' : Kcp) → Same k k' → Same (probe_wnd_size k) (probe_wnd_size k')
probe_wnd_size-Same k k' e =
    probe_wnd_size-hollow k' ∙ (ap probe_wnd_size e ∙ sym (probe_wnd_size-hollow k))

fill_window-front :
    (wnd cwnd : ℕ) (q : List KcpSegment) (k : Kcp) → front (fill_window wnd cwnd q k) ≡ front k
unfolding fill_window
fill_window-front wnd cwnd [] k = refl
fill_window-front wnd cwnd (s ∷ q) k =
    elim (Bool-cases (ltb_ℤ (timediff k.snd_nxt (add_u32 k.snd_una cwnd)) (pos 0))) [
      | inl more ↦ rw more (fill_window-front wnd cwnd q _)
      | inr full ↦ rw full refl
    ]

fill_window-hollow :
    (wnd cwnd : ℕ) (q : List KcpSegment) (k : Kcp)
    → hollow (fill_window wnd cwnd q k) ≡ fill_window wnd cwnd q (hollow k)
unfolding fill_window outgoing
fill_window-hollow wnd cwnd [] k = refl
fill_window-hollow wnd cwnd (s ∷ q) k =
    elim (Bool-cases (ltb_ℤ (timediff k.snd_nxt (add_u32 k.snd_una cwnd)) (pos 0))) [
      | inl more ↦ rw more (fill_window-hollow wnd cwnd q _)
      | inr full ↦ rw full refl
    ]

abbrev filled : ℕ → Kcp → Kcp
filled wnd k = fill_window wnd (send_window k) k.snd_queue k

filled-Same : (wnd : ℕ) (k k' : Kcp) → Same k k' → Same (filled wnd k) (filled wnd k')
unfolding send_window
filled-Same wnd k k' e =
    fill_window-hollow wnd (send_window k') k'.snd_queue k'
    ∙ (ap (filled wnd) e ∙ sym (fill_window-hollow wnd (send_window k) k.snd_queue k))

last_ack-wnd : (s : KcpSegment) (acks : List (ℕ × ℕ)) → (last_ack s acks).wnd ≡ s.wnd
last_ack-wnd s [] = refl
last_ack-wnd s ((sn, ts) ∷ acks) = last_ack-wnd (record s { sn = sn; ts = ts }) acks

pushed-filled :
    (wnd wnd' : ℕ) (k k' : Kcp)
    → wnd' ≡ wnd
    → Same k k'
    → pushed wnd' (filled wnd' k') ≡ pushed wnd (filled wnd k)
pushed-filled wnd wnd' k k' e same =
    pushed-Same wnd' (filled wnd' k) (filled wnd' k') (filled-Same wnd' k k' same)
    ∙ ap (λ w. pushed w (filled w k)) e

module _ (udp : UdpSend) where
  -- The part of `flush` behind the probes.
  abbrev pushing : ℕ → Kcp → Outcome Kcp Kcp
  pushing wnd k =
      let cwnd = send_window k in
      let k3 = filled wnd k in
      let resent = (if ltb 0 k3.fastresend then k3.fastresend else u32_max) in
      let rtomin = (if not k3.nodelay then k3.rx_rto / 8 else 0) in
      flush_segments udp wnd resent rtomin [] k3.snd_buf
        (record { kcp = k3; lost = false; change = 0 })
      >>= λ f. flush_rest udp f.kcp >>= λ k4. ok (ended cwnd resent f.change f.lost k4)

  pushing-Writes :
      (wnd : ℕ) (k : Kcp)
      → Writes whole Emptied (pushed wnd (filled wnd k)) (wired k) (pushing wnd k)
  pushing-Writes wnd k =
      let k3 = filled wnd k in
      let resent = (if ltb 0 k3.fastresend then k3.fastresend else u32_max) in
      let rtomin = (if not k3.nodelay then k3.rx_rto / 8 else 0) in
      let begun : Flushing = record { kcp = k3; lost = false; change = 0 } in
      let same = wired-front k k3 (fill_window-front wnd (send_window k) k.snd_queue k) in
      subst (λ q. Writes whole Emptied q (wired k) (pushing wnd k)) (append-nil (pushed wnd k3))
        (subst (λ w. Writes whole Emptied (pushed wnd k3 ++ []) w (pushing wnd k)) same
          (>>=-Writes inside whole (λ f. Unit) Emptied (pushed wnd k3) [] (wired k3)
            (flush_segments udp wnd resent rtomin [] k3.snd_buf begun) _
            (flush_segments-Writes udp wnd resent rtomin k3 [] k3.snd_buf begun refl)
            λ f u.
              let finish = ended (send_window k) resent f.change f.lost in
              let end = ended-front (send_window k) resent f.change f.lost in
              Writes-ok whole whole Emptied Emptied [] (wired f.kcp) (flush_rest udp f.kcp) finish
                (flush_rest-Writes udp f.kcp) (λ k4 e. ap (λ x. x.0) (end k4) ∙ e)
                (λ k4. wired-front k4 (finish k4) (end k4))))

  abbrev asking : KcpSegment → Kcp → Outcome Kcp Kcp
  asking s k = flush_probe_commands udp s k >>= λ (segment, k2). pushing segment.wnd k2

  -- The part of `flush` behind the acknowledgements.
  asking-Writes :
      (k : Kcp) (s : KcpSegment) (k1 : Kcp)
      → Acked (ack_segment k) k.acklist (acked k) (s, k1)
      → Writes whole Emptied
          (probes_of (probing k) (last_ack (ack_segment k) k.acklist)
            ++ pushed (ack_segment k).wnd (windowed k))
          (wired k1)
          (asking s (probe_wnd_size k1))
  asking-Writes k s k1 (header, same) =
      let k1' = probe_wnd_size k1 in
      let asked = probe_wnd_size-Same (acked k) k1 same in
      let probes : probes_of k1' s ≡ probes_of (probing k) (last_ack (ack_segment k) k.acklist) =
        λ i.
          probe_of ((asked i).probe) ask_send cmd_wask (header i)
          ++ probe_of ((asked i).probe) ask_tell cmd_wins (header i) in
      rw (← wired-front k1 k1' (probe_wnd_size-front k1), ← probes)
        (>>=-Writes beside whole (Probed s k1') Emptied (probes_of k1' s)
          (pushed (ack_segment k).wnd (windowed k)) (wired k1') (flush_probe_commands udp s k1') _
          (flush_probe_commands-Writes udp s k1')
          λ b q.
            subst (λ x. Writes whole Emptied x (wired b.1) (pushing b.0.wnd b.1))
              (pushed-filled (ack_segment k).wnd b.0.wnd (unasked (probing k)) b.1
                (q.0 ∙ (ap (λ s. s.wnd) header ∙ last_ack-wnd (ack_segment k) k.acklist))
                (q.1 ∙ ap unasked asked))
              (pushing-Writes b.0.wnd b.1))

  flush_all-Writes : (k : Kcp) → Writes whole Emptied (plan k) (wired k) (flush_all udp k)
  unfolding flush_all
  flush_all-Writes k =
      let header = ack_segment k in
      >>=-Writes beside whole (Acked header k.acklist (acked k)) Emptied (acks_of header k.acklist)
        _ (wired k) (flush_acklist udp header k) _ (flush_acklist-Writes udp header k)
        λ (s, k1) p. asking-Writes k s k1 p

-- What `flush` comes to: all of the plan behind what was written before, and an empty buffer; or on
-- an error of the UDP peer a first part of the plan.
abbrev pub Flushed : Kcp → Outcome Kcp Kcp → Type 0
Flushed k (ok k') = (k'.buf ≡ []) × (wired k' ≡ wired k ++ datagram (plan k))
Flushed k (err e k') =
    (sent : List KcpSegment) × (left : List KcpSegment) × (plan k ≡ sent ++ left)
    × (wired k' ≡ wired k ++ datagram sent)
Flushed k panic = ⊥

-- From a tidy state that was updated, whatever the UDP peer answers, `flush` does not panic; where
-- it succeeds, its buffer is empty and what was ever sent, without the key and the cuts into
-- datagrams, is what was sent or buffered before and then, byte for byte, the segments of the plan:
-- one acknowledgement for each entry of the list, the probes that are asked for, and each segment
-- of the window that `fill_window` then gives that was never sent, whose time is up or that was
-- skipped often enough.
-- Where the UDP peer's error ends it, what was sent and what is left in the buffer end with a first
-- part of the plan.
pub flush-Planned :
    (udp : UdpSend) (mtu : ℕ) (C : Terms) (L : Log) (k : Kcp)
    → Tidy mtu C L k
    → k.updated ≡ true
    → Flushed k (flush udp k)
unfolding flush
flush-Planned udp mtu C L k t begun = go (flush udp k) (flush-Tidy udp mtu C L k t) (
    subst (λ b. Writes whole Emptied (plan k) (wired k) (if not b then ok k else flush_all udp k))
      (sym begun) (flush_all-Writes udp k))
  where
    go :
        (o : Outcome Kcp Kcp)
        → Ends (Renewed mtu C L) (Renewed mtu C L) o
        → Writes whole Emptied (plan k) (wired k) o
        → Flushed k o
    go (ok k') h w = w
    go (err e k') h w = w
    go panic h w = h
