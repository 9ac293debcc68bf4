-- ===== src/Flush/Headers.antt =====
-- What `flush` of src/kcp/kcp_module/kcp.rs writes ahead of the send buffer: acknowledgements and
-- probes.
use kcp_server.Base.{
  ℕ, ◌≡◌, refl, sym, ap, ◌∙◌, List, [], ◌∷◌, append-nil, ◌==◌, Bool-cases, inl, inr, bit_and,
}
use kcp_server.Segment.{KcpSegment, cmd_wask, cmd_wins}
use kcp_server.Control.{Kcp, UdpSend, ask_send, ask_tell}
use kcp_server.Outcome.{ok, ◌>>=◌}
use kcp_server.Flush.Plan.{acks_of, last_ack, probe_of, probes_of, wired}
use kcp_server.Flush.{flush_acks, flush_acklist, flush_probe, flush_probe_commands}
use kcp_server.Flush.Writing.{Writes, >>=-Writes, Writes-ok, Writes-map, beside, Same, put-Writes}

abbrev pub acked : Kcp → Kcp
acked k = record k { acklist = [] }

abbrev pub unasked : Kcp → Kcp
unasked k = record k { probe = 0 }

-- What each part gives beside the state.
abbrev pub Acked : KcpSegment → List (ℕ × ℕ) → Kcp → KcpSegment × Kcp → Type 0
Acked s acks k (s', k') = (s' ≡ last_ack s acks) × Same k k'

abbrev Asked : KcpSegment → Kcp → KcpSegment × Kcp → Type 0
Asked s k (s', k') = (record s' { cmd = 0 } ≡ record s { cmd = 0 }) × Same k k'

abbrev pub Probed : KcpSegment → Kcp → KcpSegment × Kcp → Type 0
Probed s k (s', k') = (s'.wnd ≡ s.wnd) × Same (unasked k) k'

module _ (udp : UdpSend) where
  flush_acks-Writes :
      (acks : List (ℕ × ℕ)) (s : KcpSegment) (k : Kcp)
      → Writes beside (Acked s acks k) (acks_of s acks) (wired k) (flush_acks udp acks s k)
  unfolding flush_acks
  flush_acks-Writes [] s k = ((refl, refl), sym (append-nil (wired k)))
  flush_acks-Writes ((sn, ts) ∷ acks) s k = put-Writes udp beside _ _ _ (acks_of s acks) k _ λ k' e.
      Writes-map beside _ _ (acks_of s acks) (wired k') _ (λ a p. (p.0, p.1 ∙ e))
        (flush_acks-Writes acks (record s { sn = sn; ts = ts }) k')

  pub flush_acklist-Writes :
      (s : KcpSegment) (k : Kcp)
      → Writes beside
          (Acked s k.acklist (acked k))
          (acks_of s k.acklist)
          (wired k)
          (flush_acklist udp s k)
  unfolding flush_acklist
  flush_acklist-Writes s k =
      Writes-ok beside beside _ _ (acks_of s k.acklist) (wired k) (flush_acks udp k.acklist s k) _
        (flush_acks-Writes k.acklist s k) (λ a p. (p.0, ap acked p.1)) (λ a. refl)

  flush_probe-Writes :
      (ask cmd : ℕ) (s : KcpSegment) (k : Kcp)
      → Writes beside
          (Asked s k)
          (probe_of k.probe ask cmd s)
          (wired k)
          (flush_probe udp ask cmd s k)
  unfolding flush_probe
  flush_probe-Writes ask cmd s k = elim (Bool-cases (bit_and k.probe ask == 0)) [
    | inl off ↦ rw off ((refl, refl), sym (append-nil (wired k)))
    | inr on ↦ rw on (
        put-Writes udp beside _ _ (record s { cmd = cmd }) [] k _
          λ k' e. ((refl, e), sym (append-nil (wired k'))))
  ]

  -- The second probe, and the end of both.
  tell-Writes :
      (s : KcpSegment) (k : Kcp) (a : KcpSegment × Kcp)
      → Asked s k a
      → Writes beside
          (Probed s k)
          (probe_of k.probe ask_tell cmd_wins s)
          (wired a.1)
          (flush_probe udp ask_tell cmd_wins a.0 a.1 >>= λ b. ok (b.0, unasked b.1))
  tell-Writes s k (s1, k1) (header, same) =
      let again : probe_of k1.probe ask_tell cmd_wins s1 ≡ probe_of k.probe ask_tell cmd_wins s =
        λ i. probe_of ((same i).probe) ask_tell cmd_wins (record (header i) { cmd = cmd_wins }) in
      rw (← again) (
        Writes-ok beside beside (Asked s1 k1) (Probed s k) (probe_of k1.probe ask_tell cmd_wins s1)
          (wired k1) (flush_probe udp ask_tell cmd_wins s1 k1) (λ b. (b.0, unasked b.1))
          (flush_probe-Writes ask_tell cmd_wins s1 k1)
          (λ b p. (ap (λ x. x.wnd) p.0 ∙ ap (λ x. x.wnd) header, ap unasked (p.1 ∙ same)))
          (λ b. refl))

  pub flush_probe_commands-Writes :
      (s : KcpSegment) (k : Kcp)
      → Writes beside (Probed s k) (probes_of k s) (wired k) (flush_probe_commands udp s k)
  unfolding flush_probe_commands
  flush_probe_commands-Writes s k =
      >>=-Writes beside beside (Asked s k) (Probed s k) (probe_of k.probe ask_send cmd_wask s)
        (probe_of k.probe ask_tell cmd_wins s) (wired k) (flush_probe udp ask_send cmd_wask s k) _
        (flush_probe-Writes ask_send cmd_wask s k) (tell-Writes s k)
