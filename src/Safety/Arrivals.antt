-- ===== src/Safety/Arrivals.antt =====
-- What `input` makes of the receiving half of Kcp in src/kcp/kcp_module/kcp.rs, on a datagram of the
-- other end.
use kcp_server.Base.{
  ℕ, ◌≡◌, refl, ◌∙◌, ap, sym, Bool, true, false, List, [], ◌∷◌, ◌++◌, All, arith, ltb_ℤ, leb_ℤ, pos,
  ◌==◌, if◌then◌else◌, Bool-cases, inl, inr, add_u32, subst, length,
}
use kcp_server.Segment.{Bytes, KcpSegment, cmd_push, cmd_ack, cmd_wask}
use kcp_server.Segment.RoundTrip.{on_wire}
use kcp_server.Control.{Kcp, timediff}
use kcp_server.Outcome.{Outcome, ok, err, panic, ◌>>=◌}
use kcp_server.Ack.{update_ack, parse_ack, parse_una, parse_fastack, shrink_buf, ack_push}
use kcp_server.Input.{
  Reading, handle_segment, dispatch, input_ack, input_push, grow_cwnd, grow_slowly, cap_cwnd, input,
}
use kcp_server.Input.Loop.{datagram, start, consumed, handle_all, concluded}
use kcp_server.Flush.Frames.{Log, Logged}
use kcp_server.Safety.Exchange.{Carries, Takes}
use kcp_server.Safety.Operations.{left, Survives}
use kcp_server.Safety.Sequence.{
  Receives, SameReceiver, Receives-SameReceiver, Few, parse_data-Receives,
}

update_ack-SameReceiver : (k : Kcp) (rtt : ℕ) → SameReceiver k (update_ack k rtt)
unfolding update_ack
update_ack-SameReceiver k rtt = ground arith

parse_ack-SameReceiver : (k : Kcp) (sn : ℕ) → SameReceiver k (parse_ack k sn)
unfolding parse_ack
parse_ack-SameReceiver k sn = ground arith

parse_fastack-SameReceiver : (k : Kcp) (sn : ℕ) → SameReceiver k (parse_fastack k sn)
unfolding parse_fastack
parse_fastack-SameReceiver k sn = ground arith

input_ack-SameReceiver : (ts sn : ℕ) (r : Reading) → SameReceiver r.kcp (input_ack ts sn r).kcp
unfolding input_ack shrink_buf
input_ack-SameReceiver ts sn r = elim (Bool-cases (leb_ℤ (pos 0) (timediff r.kcp.current ts))) [
  | inl e ↦ rw e (parse_ack-SameReceiver _ sn ∙ update_ack-SameReceiver r.kcp _)
  | inr e ↦ rw e (parse_ack-SameReceiver r.kcp sn)
]

grow_cwnd-SameReceiver : (old : ℕ) (k k' : Kcp) → grow_cwnd old k ≡ ok k' → SameReceiver k k'
unfolding grow_cwnd grow_slowly cap_cwnd
grow_cwnd-SameReceiver old k k' e = ground (arith, e)

abbrev value : Kcp → Outcome Kcp (ℕ × Kcp) → Kcp
value k (ok (n, k')) = k'
value k (err e s) = k
value k panic = k

abbrev finish : ℕ → Outcome Kcp Kcp → Outcome Kcp (ℕ × Kcp)
finish n o = o >>= λ k. ok (n, k)

module _ (L : Log) (got : Bytes) (few : Few L) where
  input_push-Receives :
      (s : KcpSegment) (k : Kcp)
      → Logged L s.sn s.frg s.payload
      → Receives L got k
      → Receives L got (input_push s k)
  unfolding input_push ack_push
  input_push-Receives s k logged v =
      let v1 = Receives-SameReceiver L got k (ack_push k s.sn s.ts) refl v in
      elim (Bool-cases (ltb_ℤ (timediff s.sn (add_u32 k.rcv_nxt k.rcv_wnd)) (pos 0))) [
        | inl inside ↦ elim (Bool-cases (leb_ℤ (pos 0) (timediff s.sn k.rcv_nxt))) [
          | inl new ↦
              rw (inside, new) (parse_data-Receives L got (ack_push k s.sn s.ts) s few logged v1)
          | inr old ↦ rw (inside, old) v1
        ]
        | inr outside ↦ rw outside v
      ]

  dispatch-Receives :
      (s : KcpSegment) (r : Reading)
      → Carries L s
      → Receives L got r.kcp
      → Receives L got (dispatch s r).kcp
  unfolding dispatch
  dispatch-Receives s r c v = elim (Bool-cases (s.cmd == cmd_ack)) [
    | inl acks ↦
        rw acks (Receives-SameReceiver L got r.kcp _ (input_ack-SameReceiver s.ts s.sn r) v)
    | inr e ↦ elim (Bool-cases (s.cmd == cmd_push)) [
      | inl pushes ↦ rw (e, pushes) (input_push-Receives s r.kcp (c (ground (arith, pushes))) v)
      | inr e' ↦ elim (Bool-cases (s.cmd == cmd_wask)) [
        | inl asks ↦ rw (e, e', asks) (Receives-SameReceiver L got r.kcp _ refl v)
        | inr e'' ↦ rw (e, e', e'') v
      ]
    ]
  ]

  handle_segment-Receives :
      (s : KcpSegment) (r : Reading)
      → Carries L s
      → Receives L got r.kcp
      → Receives L got (handle_segment s r).kcp
  unfolding handle_segment parse_una shrink_buf
  handle_segment-Receives s r c v =
      dispatch-Receives s _ c (Receives-SameReceiver L got r.kcp _ refl v)

  handle_all-Receives :
      (q : List KcpSegment) (tail : Bytes) (r : Reading)
      → All (Carries L) q
      → Receives L got r.kcp
      → Receives L got (handle_all q tail r).kcp
  unfolding handle_all consumed on_wire
  handle_all-Receives [] tail r c v = v
  handle_all-Receives (s ∷ q) tail r c v =
      handle_all-Receives q tail (consumed s (datagram q ++ tail) r) c.1
        (handle_segment-Receives (on_wire s) r c.0 v)

  grown-Receives :
      (k : Kcp) (o : Outcome Kcp Kcp) (n m : ℕ) (k' : Kcp)
      → ((k1 : Kcp) → o ≡ ok k1 → SameReceiver k k1)
      → finish n o ≡ ok (m, k')
      → Receives L got k
      → Receives L got k'
  grown-Receives k (ok k1) n m k' same e v =
      subst (Receives L got) (ap (value k1) e) (Receives-SameReceiver L got k k1 (same k1 refl) v)
  grown-Receives k (err x s) n m k' same e v = absurd (cc e)
  grown-Receives k panic n m k' same e v = absurd (cc e)

  concluded-Receives :
      (k : Kcp) (r : Reading) (n : ℕ) (k' : Kcp)
      → concluded k r ≡ ok (n, k')
      → Receives L got r.kcp
      → Receives L got k'
  concluded-Receives k r n k' e v =
      let k1 = (if r.flag then parse_fastack r.kcp r.max_ack else r.kcp) in
      grown-Receives k1 (grow_cwnd k.snd_una k1) r.position n k'
        (grow_cwnd-SameReceiver k.snd_una k1) e (counted r.flag)
    where
      counted : (b : Bool) → Receives L got (if b then parse_fastack r.kcp r.max_ack else r.kcp)
      counted true =
          Receives-SameReceiver L got r.kcp _ (parse_fastack-SameReceiver r.kcp r.max_ack) v
      counted false = v

  -- A datagram of the other end leaves a receiver of the same log.
  pub input-Receives :
      (k : Kcp) (d : Bytes)
      → Takes L k d
      → Receives L got k
      → Survives (Receives L got) (left (λ (n, k'). k') (input k d true))
  input-Receives k d t v =
      subst (λ o. Survives (Receives L got) (left (λ (n, k'). k') o)) (sym t.answer)
        (concluded-Receives k (handle_all t.segments [] begun) (length d) t.left t.handled
          (handle_all-Receives t.segments [] begun t.from_log v))
    where
      begun : Reading
      begun = start k (datagram t.segments)
