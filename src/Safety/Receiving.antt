-- ===== src/Safety/Receiving.antt =====
-- What `input` leaves of the invariant of `flush`.
use kcp_server.Base.{
  ℕ, ◌≡◌, refl, true, false, ◌&&◌, List, [], ◌∷◌, All, arith, ltb, ◌==◌, add_u16, add_u32, ◌⊎◌,
  Bool-cases, inl, inr, if◌then◌else◌, leb_ℤ, ltb_ℤ, pos, not,
}
use kcp_server.Segment.{KcpSegment, cmd_ack, cmd_push, cmd_wask}
use kcp_server.Control.{Kcp, timediff}
use kcp_server.Outcome.{ok, Ends, >>=-Ends}
use kcp_server.Ack.{
  update_ack, out_of_flight, parse_ack, parse_una, parse_fastack, shrink_buf, ack_push, drop_before,
  remove_acked, count_skips,
}
use kcp_server.Receive.{parse_data}
use kcp_server.Input.{
  Reading, handle_segment, dispatch, input_ack, input_push, grow_cwnd, grow_slowly, cap_cwnd,
}
use kcp_server.Input.Keeps.{IsKept}
use kcp_server.Flush.Frames.{Log, Terms}
use kcp_server.Flush.Datagrams.{Waits, with_buffer, Tidy, Tidy-same}

module _ (mtu : ℕ) (C : Terms) (L : Log) where
  drop_before-All :
      (una : ℕ) (b : List KcpSegment)
      → All (Waits mtu C L) b
      → All (Waits mtu C L) (drop_before una b)
  unfolding drop_before
  drop_before-All una [] v = tt
  drop_before-All una (s ∷ b) v = elim (Bool-cases (ltb_ℤ (pos 0) (timediff una s.sn))) [
    | inl old ↦ rw old (drop_before-All una b v.1)
    | inr fresh ↦ rw fresh v
  ]

  remove_acked-All :
      (sn : ℕ) (b : List KcpSegment)
      → All (Waits mtu C L) b
      → All (Waits mtu C L) (remove_acked sn b)
  unfolding remove_acked
  remove_acked-All sn [] v = tt
  remove_acked-All sn (s ∷ b) v = elim (Bool-cases (sn == s.sn)) [
    | inl hit ↦ rw hit v.1
    | inr miss ↦ elim (Bool-cases (ltb sn s.sn)) [
      | inl below ↦ rw (miss, below) v
      | inr above ↦ rw (miss, above) (v.0, remove_acked-All sn b v.1)
    ]
  ]

  count_skips-All :
      (sn : ℕ) (b : List KcpSegment)
      → All (Waits mtu C L) b
      → All (Waits mtu C L) (count_skips sn b)
  unfolding count_skips
  count_skips-All sn [] v = tt
  count_skips-All sn (s ∷ b) v = elim (Bool-cases (ltb_ℤ (timediff sn s.sn) (pos 0))) [
    | inl below ↦ rw below v
    | inr reached ↦ elim (Bool-cases (not (sn == s.sn))) [
      | inl skipped ↦ rw (reached, skipped) (v.0, count_skips-All sn b v.1)
      | inr same ↦ rw (reached, same) (v.0, count_skips-All sn b v.1)
    ]
  ]

  parse_una-Tidy :
      (k : Kcp) (una : ℕ) → Tidy mtu C L k → Tidy mtu C L (shrink_buf (parse_una k una))
  unfolding parse_una shrink_buf
  parse_una-Tidy k una t =
      Tidy-same mtu C L (record k { snd_buf = drop_before una k.snd_buf }) _ refl refl refl refl
        refl refl refl refl refl
        (with_buffer mtu C L k _ t (drop_before-All una k.snd_buf t.buffer_fits))

  parse_ack-Tidy : (k : Kcp) (sn : ℕ) → Tidy mtu C L k → Tidy mtu C L (parse_ack k sn)
  unfolding parse_ack
  parse_ack-Tidy k sn t = elim (Bool-cases (out_of_flight k sn)) [
    | inl out ↦ rw out t
    | inr flying ↦
        rw flying (with_buffer mtu C L k _ t (remove_acked-All sn k.snd_buf t.buffer_fits))
  ]

  parse_fastack-Tidy : (k : Kcp) (sn : ℕ) → Tidy mtu C L k → Tidy mtu C L (parse_fastack k sn)
  unfolding parse_fastack
  parse_fastack-Tidy k sn t = elim (Bool-cases (out_of_flight k sn)) [
    | inl out ↦ rw out t
    | inr flying ↦
        rw flying (with_buffer mtu C L k _ t (count_skips-All sn k.snd_buf t.buffer_fits))
  ]

  update_ack-Tidy : (k : Kcp) (rtt : ℕ) → Tidy mtu C L k → Tidy mtu C L (update_ack k rtt)
  unfolding update_ack
  update_ack-Tidy k rtt t =
      Tidy-same mtu C L k (update_ack k rtt) (ground arith) (ground arith) (ground arith)
        (ground arith) (ground arith) (ground arith) (ground arith) (ground arith) (ground arith) t

  parse_data-Tidy : (k : Kcp) (s : KcpSegment) → Tidy mtu C L k → Tidy mtu C L (parse_data k s)
  unfolding parse_data
  parse_data-Tidy k s t =
      Tidy-same mtu C L k (parse_data k s) (ground arith) (ground arith) (ground arith)
        (ground arith) (ground arith) (ground arith) (ground arith) (ground arith) (ground arith) t

  cap_cwnd-Tidy : (mss : ℕ) (k : Kcp) → Tidy mtu C L k → Tidy mtu C L (cap_cwnd mss k)
  unfolding cap_cwnd
  cap_cwnd-Tidy mss k t =
      Tidy-same mtu C L k (cap_cwnd mss k) (ground arith) (ground arith) (ground arith)
        (ground arith) (ground arith) (ground arith) (ground arith) (ground arith) (ground arith) t

  grow_slowly-Tidy :
      (k : Kcp) → Tidy mtu C L k → Ends (Tidy mtu C L) (Tidy mtu C L) (grow_slowly k.mss k)
  unfolding grow_slowly
  grow_slowly-Tidy k t =
      let positive : ((if ltb k.incr k.mss then k.mss else k.incr) == 0) ≡ false =
        ground (arith, t.mss_bounds.0) in
      rw positive (Tidy-same mtu C L k _ refl refl refl refl refl refl refl refl refl t)

  grow_cwnd-Tidy :
      (old : ℕ) (k : Kcp) → Tidy mtu C L k → Ends (Tidy mtu C L) (Tidy mtu C L) (grow_cwnd old k)
  unfolding grow_cwnd
  grow_cwnd-Tidy old k t = elim (Bool-cases (ltb old k.snd_una && ltb k.cwnd k.rmt_wnd)) [
    | inl grows ↦ rw grows (
        >>=-Ends (Tidy mtu C L) (Tidy mtu C L) (Tidy mtu C L) _ _
          (grown (Bool-cases (ltb k.cwnd k.ssthresh))) λ k1 t1. cap_cwnd-Tidy k.mss k1 t1)
    | inr keeps ↦ rw keeps t
  ]
    where
      grown :
          (ltb k.cwnd k.ssthresh ≡ true) ⊎ (ltb k.cwnd k.ssthresh ≡ false)
          → Ends (Tidy mtu C L) (Tidy mtu C L) (
              if ltb k.cwnd k.ssthresh
              then ok (record k { cwnd = add_u16 k.cwnd 1; incr = add_u32 k.incr k.mss })
              else grow_slowly k.mss k)
      grown (inl slow) =
          rw slow (Tidy-same mtu C L k _ refl refl refl refl refl refl refl refl refl t)
      grown (inr avoids) = rw avoids (grow_slowly-Tidy k t)

  input_push-Tidy : (s : KcpSegment) (k : Kcp) → Tidy mtu C L k → Tidy mtu C L (input_push s k)
  unfolding input_push ack_push
  input_push-Tidy s k t =
      let t1 =
        Tidy-same mtu C L k (ack_push k s.sn s.ts) refl refl refl refl refl refl refl refl refl t in
      elim (Bool-cases (ltb_ℤ (timediff s.sn (add_u32 k.rcv_nxt k.rcv_wnd)) (pos 0))) [
        | inl inside ↦ elim (Bool-cases (leb_ℤ (pos 0) (timediff s.sn k.rcv_nxt))) [
          | inl new ↦ rw (inside, new) (parse_data-Tidy (ack_push k s.sn s.ts) s t1)
          | inr old ↦ rw (inside, old) t1
        ]
        | inr outside ↦ rw outside t
      ]

  input_ack-Tidy :
      (ts sn : ℕ) (r : Reading) → Tidy mtu C L r.kcp → Tidy mtu C L (input_ack ts sn r).kcp
  unfolding input_ack shrink_buf
  input_ack-Tidy ts sn r t = elim (Bool-cases (leb_ℤ (pos 0) (timediff r.kcp.current ts))) [
    | inl e ↦ rw e (
        Tidy-same mtu C L (parse_ack _ sn) _ refl refl refl refl refl refl refl refl refl
          (parse_ack-Tidy _ sn (update_ack-Tidy r.kcp _ t)))
    | inr e ↦ rw e (
        Tidy-same mtu C L (parse_ack r.kcp sn) _ refl refl refl refl refl refl refl refl refl
          (parse_ack-Tidy r.kcp sn t))
  ]

  dispatch-Tidy :
      (s : KcpSegment) (r : Reading) → Tidy mtu C L r.kcp → Tidy mtu C L (dispatch s r).kcp
  unfolding dispatch
  dispatch-Tidy s r t = elim (Bool-cases (s.cmd == cmd_ack)) [
    | inl acks ↦ rw acks (input_ack-Tidy s.ts s.sn r t)
    | inr e ↦ elim (Bool-cases (s.cmd == cmd_push)) [
      | inl pushes ↦ rw (e, pushes) (input_push-Tidy s r.kcp t)
      | inr e' ↦ elim (Bool-cases (s.cmd == cmd_wask)) [
        | inl asks ↦
            rw (e, e', asks)
              (Tidy-same mtu C L r.kcp _ refl refl refl refl refl refl refl refl refl t)
        | inr e'' ↦ rw (e, e', e'') t
      ]
    ]
  ]

  handle_segment-Tidy :
      (s : KcpSegment) (r : Reading) → Tidy mtu C L r.kcp → Tidy mtu C L (handle_segment s r).kcp
  unfolding handle_segment
  handle_segment-Tidy s r t = dispatch-Tidy s _ (
      parse_una-Tidy _ s.una (
        Tidy-same mtu C L r.kcp (record (r.kcp) { rmt_wnd = s.wnd }) refl refl refl refl refl refl
          refl refl refl t))

  accepted-Tidy :
      (k : Kcp) (conv : ℕ)
      → k.input_conv ≡ true
      → Tidy mtu C L k
      → Tidy mtu C L (record k { conv = conv; input_conv = false })
  accepted-Tidy k conv open_to_any t = record {
    same_mtu = t.same_mtu;
    mss_bounds = t.mss_bounds;
    mtu_bounds = t.mtu_bounds;
    buf_fits = t.buf_fits;
    buf_whole = t.buf_whole;
    sent_fit = t.sent_fit;
    framed = (
      t.framed.1 open_to_any conv,
      (λ e c. absurd (ground (arith, e))),
      t.framed.2,
      t.framed.3,
      t.framed.4,
    );
    queue_fits = t.queue_fits;
    buffer_fits = t.buffer_fits;
    logged = t.logged;
  }

  pub Tidy-IsKept : IsKept (Tidy mtu C L)
  Tidy-IsKept = record {
    handled = handle_segment-Tidy;
    accepted = accepted-Tidy;
    counted_fast = parse_fastack-Tidy;
    grows = grow_cwnd-Tidy;
  }
