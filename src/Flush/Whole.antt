-- ===== src/Flush/Whole.antt =====
-- `Tidy` over the loop of `flush` on the send buffer, and over the whole of `flush`.
use kcp_server.Base.{
  ◌∙◌, as_u8, as_u32, ℕ, ◌⊎◌, ◌≤◌, ◌≡◌, refl, ap, Bool, true, false, List, [], ◌∷◌, ◌++◌, length,
  All, All-append, arith, ltb, Bool-cases, inl, inr, not, is_empty,
}
use kcp_server.Segment.{KcpSegment, overhead}
use kcp_server.Control.{Kcp, UdpSend, send_buf}
use kcp_server.Outcome.{ok, ◌>>=◌, Ends-map, Ends, >>=-Ends, Ends-mono}
use kcp_server.Input.{known_cmd}
use kcp_server.Flush.Frames.{Moved, Moved-refl, Log, Terms, Logged, Header}
use kcp_server.Flush.Datagrams.{Waits, with_buffer, Tidy, Tidy-same, send_buf-Tidy}
use kcp_server.Flush.Numbers.{Renewed, fill_window-Renewed}
use kcp_server.Flush.Mtu.{
  Bare, flush_acklist-Bare, flush_probe_commands-Bare, probe_wnd_size-Tidy, transmit-Tidy,
  reschedule-Waits, note_reason-Tidy,
}
use kcp_server.Flush.{
  Flushing, Reason, resend_reason, reschedule, note_reason, stamp, transmit, send_visit, visit,
  flush_segments, flush_rest, flush_all, flush, send_window, after_change, after_loss, at_least_one,
  ack_segment, probe_wnd_size, flush_acklist, flush_probe_commands,
}

module _ (udp : UdpSend) (mtu : ℕ) (C : Terms) (L : Log) where
  -- A visited segment that fits, beside a tidy state.
  abbrev Visited : KcpSegment × Flushing → Type 0
  Visited (s, f) = Waits mtu C L s × Tidy mtu C L f.kcp

  send_visit-Tidy :
      (wnd : ℕ) (r : Reason) (rtomin : ℕ) (done : List KcpSegment) (s : KcpSegment)
      (todo : List KcpSegment) (f : Flushing)
      → All (Waits mtu C L) done
      → Waits mtu C L s
      → All (Waits mtu C L) todo
      → Tidy mtu C L f.kcp
      → Ends Visited (Tidy mtu C L) (send_visit udp wnd r rtomin done s todo f)
  unfolding send_visit stamp known_cmd
  send_visit-Tidy wnd r rtomin done s todo f hd hs ht t =
      >>=-Ends (Tidy mtu C L) Visited (Tidy mtu C L) (transmit udp s' _) _
        (transmit-Tidy udp mtu C L s' _ fits.0
          (fits.1, ap known_cmd fits.2 ∙ refl, λ e. cut_log fits.3)
          (with_buffer mtu C L (note_reason r f).kcp (done ++ s' ∷ todo)
            (note_reason-Tidy udp mtu C L r f t)
            (All-append (Waits mtu C L) done (s' ∷ todo) hd (fits, ht))))
        λ k t'. (fits, t')
    where
      s' : KcpSegment
      s' = stamp wnd f.kcp (reschedule r rtomin f.kcp s)

      cut_log :
          Logged L s'.sn (as_u8 s'.frg) s'.payload
          → Logged L (as_u32 s'.sn) (as_u8 s'.frg) s'.payload
      cut_log (n, e, m) = (n, e, omega (arith, m))

      fits : Waits mtu C L s'
      fits = reschedule-Waits udp mtu C L r rtomin f.kcp s hs

  visit-Tidy :
      (wnd : ℕ) (r : Reason) (rtomin : ℕ) (done : List KcpSegment) (s : KcpSegment)
      (todo : List KcpSegment) (f : Flushing)
      → All (Waits mtu C L) done
      → Waits mtu C L s
      → All (Waits mtu C L) todo
      → Tidy mtu C L f.kcp
      → Ends Visited (Tidy mtu C L) (visit udp wnd r rtomin done s todo f)
  unfolding visit
  visit-Tidy wnd Reason.idle rtomin done s todo f hd hs ht t = (hs, t)
  visit-Tidy wnd Reason.first rtomin done s todo f hd hs ht t =
      send_visit-Tidy wnd Reason.first rtomin done s todo f hd hs ht t
  visit-Tidy wnd Reason.timeout rtomin done s todo f hd hs ht t =
      send_visit-Tidy wnd Reason.timeout rtomin done s todo f hd hs ht t
  visit-Tidy wnd Reason.skipped rtomin done s todo f hd hs ht t =
      send_visit-Tidy wnd Reason.skipped rtomin done s todo f hd hs ht t

  flush_segments-Tidy :
      (wnd resent rtomin : ℕ) (done todo : List KcpSegment) (f : Flushing)
      → All (Waits mtu C L) done
      → All (Waits mtu C L) todo
      → Tidy mtu C L f.kcp
      → Ends
          (λ f'. Tidy mtu C L f'.kcp)
          (Tidy mtu C L)
          (flush_segments udp wnd resent rtomin done todo f)
  unfolding flush_segments
  flush_segments-Tidy wnd resent rtomin done [] f hd ht t = t
  flush_segments-Tidy wnd resent rtomin done (s ∷ todo) f hd ht t =
      >>=-Ends Visited (λ f'. Tidy mtu C L f'.kcp) (Tidy mtu C L)
        (visit udp wnd (resend_reason resent f.kcp s) rtomin done s todo f) _
        (visit-Tidy wnd (resend_reason resent f.kcp s) rtomin done s todo f hd ht.0 ht.1 t)
        λ v p.
          flush_segments-Tidy wnd resent rtomin (done ++ v.0 ∷ []) todo v.1
            (All-append (Waits mtu C L) done (v.0 ∷ []) hd (p.0, tt)) ht.1 p.1

  flush_rest-Tidy :
      (k : Kcp) → Tidy mtu C L k → Ends (Tidy mtu C L) (Tidy mtu C L) (flush_rest udp k)
  unfolding flush_rest
  flush_rest-Tidy k t = elim (Bool-cases (not (is_empty k.buf))) [
    | inl full ↦ rw full (
        Ends-mono _ _ (Tidy mtu C L) (send_buf udp k) (λ k' p. p.0)
          (send_buf-Tidy udp mtu C L k t (whole full t.buf_whole)))
    | inr hollow ↦ rw hollow t
  ]
    where
      whole :
          not (is_empty k.buf) ≡ true
          → (k.buf ≡ []) ⊎ (overhead ≤ length k.buf)
          → overhead ≤ length k.buf
      whole full (inl e) = absurd (ground (arith, ap (λ b. not (is_empty b)) e))
      whole full (inr h) = h

  after_change-Tidy :
      (resent change : ℕ) (k : Kcp) → Tidy mtu C L k → Tidy mtu C L (after_change resent change k)
  unfolding after_change
  after_change-Tidy resent change k t = elim (Bool-cases (ltb 0 change)) [
    | inl e ↦ rw e (Tidy-same mtu C L k _ refl refl refl refl refl refl refl refl refl t)
    | inr e ↦ rw e t
  ]

  after_loss-Tidy :
      (cwnd : ℕ) (lost : Bool) (k : Kcp) → Tidy mtu C L k → Tidy mtu C L (after_loss cwnd lost k)
  unfolding after_loss
  after_loss-Tidy cwnd true k t =
      Tidy-same mtu C L k _ refl refl refl refl refl refl refl refl refl t
  after_loss-Tidy cwnd false k t = t

  at_least_one-Tidy : (k : Kcp) → Tidy mtu C L k → Tidy mtu C L (at_least_one k)
  unfolding at_least_one
  at_least_one-Tidy k t = elim (Bool-cases (ltb k.cwnd 1)) [
    | inl e ↦ rw e (Tidy-same mtu C L k _ refl refl refl refl refl refl refl refl refl t)
    | inr e ↦ rw e t
  ]

  -- The part of `flush` behind `fill_window`.
  flush_filled-Tidy :
      (wnd cwnd resent rtomin : ℕ) (k : Kcp)
      → Tidy mtu C L k
      → Ends (Tidy mtu C L) (Tidy mtu C L) (
          flush_segments udp wnd resent rtomin [] k.snd_buf
            (record { kcp = k; lost = false; change = 0 })
          >>= λ f. flush_rest udp f.kcp >>= λ k4.
              ok (at_least_one (after_loss cwnd f.lost (after_change resent f.change k4))))
  flush_filled-Tidy wnd cwnd resent rtomin k t =
      >>=-Ends (λ f. Tidy mtu C L f.kcp) (Tidy mtu C L) (Tidy mtu C L) _ _
        (flush_segments-Tidy wnd resent rtomin [] k.snd_buf _ tt t.buffer_fits t)
        λ f r.
          >>=-Ends (Tidy mtu C L) (Tidy mtu C L) (Tidy mtu C L) (flush_rest udp f.kcp) _
            (flush_rest-Tidy f.kcp r)
            λ k4 t4.
              at_least_one-Tidy _
                (after_loss-Tidy cwnd f.lost _ (after_change-Tidy resent f.change k4 t4))

-- With the log of before, or a renewed one.
pub same_log :
    (mtu : ℕ) (C : Terms) (L L' : Log)
    → Moved L L'
    → L'.given ≡ L.given
    → (k : Kcp) → Tidy mtu C L' k
    → Renewed mtu C L k
same_log mtu C L L' more given k t = (L', more, given, t)

module _ (udp : UdpSend) (mtu : ℕ) (C : Terms) (L : Log) where
  abbrev R : Kcp → Type 0
  R = Renewed mtu C L

  flush_all-Renewed : (k : Kcp) → Tidy mtu C L k → Ends R R (flush_all udp k)
  unfolding flush_all ack_segment known_cmd
  flush_all-Renewed k t =
      >>=-Ends (Bare udp mtu C L) R R (flush_acklist udp (ack_segment k) k) _
        (Ends-map _ _ _ R (flush_acklist udp (ack_segment k) k) (λ a p. p) keep
          (flush_acklist-Bare udp mtu C L (ack_segment k) k refl header t))
        λ a p.
          >>=-Ends (Bare udp mtu C L) R R (flush_probe_commands udp a.0 (probe_wnd_size a.1)) _
            (Ends-map _ _ _ R (flush_probe_commands udp a.0 (probe_wnd_size a.1)) (λ b q. q) keep
              (flush_probe_commands-Bare udp mtu C L a.0 (probe_wnd_size a.1) p.0 p.1
                (probe_wnd_size-Tidy udp mtu C L a.1 p.2)))
            λ b q.
              let (L', more, given, t3) =
                fill_window-Renewed mtu C L b.0.wnd (send_window b.1) b.1.snd_queue b.1 refl q.2 in
              Ends-map _ R _ R _ (same_log mtu C L L' more given) (same_log mtu C L L' more given)
                (flush_filled-Tidy udp mtu C L' b.0.wnd (send_window b.1) _ _ _ t3)
    where
      keep : (k' : Kcp) → Tidy mtu C L k' → R k'
      keep = same_log mtu C L L (Moved-refl L) refl

      header : Header C (ack_segment k)
      header = (C.admits_cut _ t.framed.0, refl, λ e. omega (arith, e))

  -- From a tidy state with an MTU of at least 50, `flush` never panics, and both where it succeeds
  -- and where the UDP peer's error ends it, it leaves a tidy state, with the log of
  -- before, on which the first of the queue's segments may have moved from those that wait to those that
  -- have numbers, in order and one number each: the log waits for what the queue then holds, and the next number
  -- is the count of those that have one. What the control ever handed to the UDP peer are datagrams of
  -- well-formed segments on the terms `C`, each push with what the log has under its number, none
  -- longer than the MTU, and so is the buffer.
  pub flush-Tidy :
      (k : Kcp) → Tidy mtu C L k → Ends (Renewed mtu C L) (Renewed mtu C L) (flush udp k)
  unfolding flush
  flush-Tidy k t = elim (Bool-cases (not k.updated)) [
    | inl e ↦ rw e (L, Moved-refl L, refl, t)
    | inr e ↦ rw e (flush_all-Renewed k t)
  ]
