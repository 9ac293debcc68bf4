-- ===== src/Flush/Mtu.antt =====
-- The invariant of `Datagrams` through a whole flush.
use kcp_server.Base.{
  true, ℕ, ◌+◌, ◌≡◌, ◌≢◌, refl, ap, List, [], ◌∷◌, length, arith, leb, ◌==◌, Bool-cases, inl, inr,
  bit_and,
}
use kcp_server.Segment.{cmd_push, KcpSegment, overhead}
use kcp_server.Control.{Kcp, UdpSend}
use kcp_server.Outcome.{Outcome, ◌>>=◌, Ends, >>=-Ends}
use kcp_server.Input.{known_cmd}
use kcp_server.Flush.Frames.{Log, Terms, Sendable, Header}
use kcp_server.Flush.Datagrams.{
  Waits, Tidy, FitsMtu, Tidy-same, HasRoom, make_room-HasRoom, append_segment-Tidy,
}
use kcp_server.Flush.{
  make_room, append_segment, flush_acks, flush_acklist, flush_probe, flush_probe_commands, transmit,
  probe_wnd_size, Flushing, Reason, reschedule, note_reason,
}

module _ (udp : UdpSend) (mtu : ℕ) (C : Terms) (L : Log) where
  -- A header with no payload that may be sent, beside a tidy state.
  abbrev pub Bare : KcpSegment × Kcp → Type 0
  Bare (s, k) = (s.payload ≡ []) × Header C s × Tidy mtu C L k

  -- A bare header goes out, and what follows it is tidy too.
  put-Bare :
      (s : KcpSegment) (k : Kcp)
      → s.payload ≡ []
      → Header C s
      → Tidy mtu C L k
      → (next : Kcp → Outcome Kcp (KcpSegment × Kcp))
      → ((k' : Kcp) → Tidy mtu C L k' → Ends Bare (Tidy mtu C L) (next k'))
      → Ends Bare (Tidy mtu C L) (make_room udp overhead k >>= λ k1. append_segment s k1 >>= next)
  put-Bare s k e ok t next keep =
      >>=-Ends (HasRoom udp mtu C L overhead) Bare (Tidy mtu C L) (make_room udp overhead k) _
        (make_room-HasRoom udp mtu C L overhead k t (omega (arith, t.mtu_bounds)))
        λ k1 room.
          >>=-Ends (Tidy mtu C L) Bare (Tidy mtu C L) (append_segment s k1) next
            (append_segment-Tidy udp mtu C L s k1 (ok.0, ok.1, λ e. absurd (ok.2 e))
              (room.0, omega (arith, room.1, ap length e)))
            keep

  flush_acks-Bare :
      (acks : List (ℕ × ℕ)) (s : KcpSegment) (k : Kcp)
      → s.payload ≡ []
      → Header C s
      → Tidy mtu C L k
      → Ends Bare (Tidy mtu C L) (flush_acks udp acks s k)
  unfolding flush_acks
  flush_acks-Bare [] s k e ok t = (e, ok, t)
  flush_acks-Bare ((sn, ts) ∷ acks) s k e ok t =
      put-Bare (record s { sn = sn; ts = ts }) k e ok t _
        (λ k' t'. flush_acks-Bare acks (record s { sn = sn; ts = ts }) k' e ok t')

  pub flush_acklist-Bare :
      (s : KcpSegment) (k : Kcp)
      → s.payload ≡ []
      → Header C s
      → Tidy mtu C L k
      → Ends Bare (Tidy mtu C L) (flush_acklist udp s k)
  unfolding flush_acklist
  flush_acklist-Bare s k e ok t =
      >>=-Ends Bare Bare (Tidy mtu C L) (flush_acks udp k.acklist s k) _
        (flush_acks-Bare k.acklist s k e ok t)
        λ a b. (b.0, b.1, Tidy-same mtu C L a.1 _ refl refl refl refl refl refl refl refl refl b.2)

  flush_probe-Bare :
      (ask cmd : ℕ) (s : KcpSegment) (k : Kcp)
      → known_cmd cmd ≡ true
      → cmd ≢ cmd_push
      → s.payload ≡ []
      → Header C s
      → Tidy mtu C L k
      → Ends Bare (Tidy mtu C L) (flush_probe udp ask cmd s k)
  unfolding flush_probe
  flush_probe-Bare ask cmd s k known silent e ok t = elim (Bool-cases (bit_and k.probe ask == 0)) [
    | inl off ↦ rw off (e, ok, t)
    | inr on ↦ rw on (
        put-Bare (record s { cmd = cmd }) k e (ok.0, known, silent) t _
          (λ k' t'. (e, (ok.0, known, silent), t')))
  ]

  pub flush_probe_commands-Bare :
      (s : KcpSegment) (k : Kcp)
      → s.payload ≡ []
      → Header C s
      → Tidy mtu C L k
      → Ends Bare (Tidy mtu C L) (flush_probe_commands udp s k)
  unfolding flush_probe_commands known_cmd
  flush_probe_commands-Bare s k e ok t =
      >>=-Ends Bare Bare (Tidy mtu C L) _ _
        (flush_probe-Bare _ _ s k refl (λ e. omega (arith, e)) e ok t)
        λ a b.
          >>=-Ends Bare Bare (Tidy mtu C L) _ _
            (flush_probe-Bare _ _ a.0 a.1 refl (λ e. omega (arith, e)) b.0 b.1 b.2)
            λ c d.
              (d.0, d.1, Tidy-same mtu C L c.1 _ refl refl refl refl refl refl refl refl refl d.2)

  pub probe_wnd_size-Tidy : (k : Kcp) → Tidy mtu C L k → Tidy mtu C L (probe_wnd_size k)
  unfolding probe_wnd_size
  probe_wnd_size-Tidy k t =
      Tidy-same mtu C L k (probe_wnd_size k) (ground arith) (ground arith) (ground arith)
        (ground arith) (ground arith) (ground arith) (ground arith) (ground arith) (ground arith) t

  pub transmit-Tidy :
      (s : KcpSegment) (k : Kcp)
      → FitsMtu mtu s
      → Sendable C L s
      → Tidy mtu C L k
      → Ends (Tidy mtu C L) (Tidy mtu C L) (transmit udp s k)
  unfolding transmit
  transmit-Tidy s k h ok t =
      >>=-Ends (HasRoom udp mtu C L (overhead + length s.payload)) (Tidy mtu C L) (Tidy mtu C L) _ _
        (make_room-HasRoom udp mtu C L (overhead + length s.payload) k t h)
        λ k1 room.
          >>=-Ends (Tidy mtu C L) (Tidy mtu C L) (Tidy mtu C L) _ _
            (append_segment-Tidy udp mtu C L s k1 ok room)
            λ k2 t2. elim (Bool-cases (leb k2.dead_link s.xmit)) [
              | inl dead ↦
                  rw dead (Tidy-same mtu C L k2 _ refl refl refl refl refl refl refl refl refl t2)
              | inr live ↦ rw live t2
            ]

  pub reschedule-Waits :
      (r : Reason) (rtomin : ℕ) (k : Kcp) (s : KcpSegment)
      → Waits mtu C L s
      → Waits mtu C L (reschedule r rtomin k s)
  unfolding reschedule
  reschedule-Waits Reason.idle rtomin k s w = w
  reschedule-Waits Reason.first rtomin k s w = w
  reschedule-Waits Reason.timeout rtomin k s w = w
  reschedule-Waits Reason.skipped rtomin k s w = w

  pub note_reason-Tidy :
      (r : Reason) (f : Flushing) → Tidy mtu C L f.kcp → Tidy mtu C L (note_reason r f).kcp
  unfolding note_reason
  note_reason-Tidy Reason.idle f t = t
  note_reason-Tidy Reason.first f t = t
  note_reason-Tidy Reason.timeout f t =
      Tidy-same mtu C L f.kcp _ refl refl refl refl refl refl refl refl refl t
  note_reason-Tidy Reason.skipped f t = t
