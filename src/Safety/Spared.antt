-- ===== src/Safety/Spared.antt =====
-- What the parts of `flush` of src/kcp/kcp_module/kcp.rs leave of the receiving half: all of it.
use kcp_server.Base.{
  ℕ, ◌+◌, length, ltb_ℤ, pos, add_u32, ◌≡◌, refl, List, [], ◌∷◌, ◌++◌, arith, ltb, leb, ◌==◌,
  Bool-cases, inl, inr, bit_and, Option, none, some,
}
use kcp_server.Error.{IoError}
use kcp_server.Segment.{Bytes, KcpSegment, encode}
use kcp_server.Control.{Kcp, UdpSend, wire_bytes, answered, send_wire, send_buf, timediff}
use kcp_server.Outcome.{Outcome, ok, err, panic, ◌>>=◌}
use kcp_server.Flush.{
  make_room, encoded, append_segment, flush_acks, flush_acklist, flush_probe, flush_probe_commands,
  probe_wnd_size, outgoing, fill_window, transmit,
}
use kcp_server.Safety.Sequence.{receiving}

-- What a receiver hangs on.
abbrev pub Half : Type 0
Half = ℕ × ℕ × List KcpSegment × List KcpSegment

-- Whatever state is left has the receiving half `x`.
abbrev pub Within : {A : Type 0} → (A → Kcp) → Half → Outcome Kcp A → Type 0
Within f x (ok a) = receiving (f a) ≡ x
Within f x (err e k) = receiving k ≡ x
Within f x panic = Unit

pub >>=-Within :
    {A B : Type 0} (f : A → Kcp) (g : B → Kcp) (x : Half) (m : Outcome Kcp A)
    (next : A → Outcome Kcp B)
    → Within f x m
    → ((a : A) → receiving (f a) ≡ x → Within g x (next a))
    → Within g x (m >>= next)
>>=-Within f g x (ok a) next h rest = rest a h
>>=-Within f g x (err e k) next h rest = h
>>=-Within f g x panic next h rest = tt

abbrev pub whole : Kcp → Kcp
whole k = k

abbrev pub beside : KcpSegment × Kcp → Kcp
beside (s, k) = k

module _ (udp : UdpSend) (x : Half) where
  abbrev pub Keeps : {A : Type 0} → (A → Kcp) → Kcp → Outcome Kcp A → Type 0
  Keeps f k o = receiving k ≡ x → Within f x o

  pub send_buf-Keeps : (k : Kcp) → Keeps whole k (send_buf udp k)
  unfolding send_buf send_wire answered
  send_buf-Keeps k h = go (wire_bytes k.output.key k.buf)
    where
      told : (d : Bytes) (a : Option IoError) → Within whole x (answered k d a)
      told d (some e) = h
      told d none = h

      go : (o : Option Bytes) → Within whole x (send_wire udp k o)
      go none = tt
      go (some d) = told d (udp k.output.sent d)

  make_room-Keeps : (n : ℕ) (k : Kcp) → Keeps whole k (make_room udp n k)
  unfolding make_room
  make_room-Keeps n k h = elim (Bool-cases (ltb k.mtu (length k.buf + n))) [
    | inl full ↦ rw full (send_buf-Keeps k h)
    | inr room ↦ rw room h
  ]

  append_segment-Keeps : (s : KcpSegment) (k : Kcp) → Keeps whole k (append_segment s k)
  unfolding append_segment encoded
  append_segment-Keeps s k h = go (encode s k.buf)
    where
      go : (o : Option Bytes) → Within whole x (encoded k o)
      go none = tt
      go (some b) = h

  put-Keeps :
      {A : Type 0} (f : A → Kcp) (n : ℕ) (s : KcpSegment) (k : Kcp) (next : Kcp → Outcome Kcp A)
      → ((k' : Kcp) → Keeps f k' (next k'))
      → Keeps f k (make_room udp n k >>= λ k1. append_segment s k1 >>= next)
  put-Keeps f n s k next rest h =
      >>=-Within whole f x (make_room udp n k) _ (make_room-Keeps n k h)
        λ k1 h1. >>=-Within whole f x (append_segment s k1) next (append_segment-Keeps s k1 h1) rest

  flush_acks-Keeps :
      (acks : List (ℕ × ℕ)) (s : KcpSegment) (k : Kcp) → Keeps beside k (flush_acks udp acks s k)
  unfolding flush_acks
  flush_acks-Keeps [] s k h = h
  flush_acks-Keeps ((sn, ts) ∷ acks) s k h =
      put-Keeps beside _ (record s { sn = sn; ts = ts }) k _
        (flush_acks-Keeps acks (record s { sn = sn; ts = ts })) h

  pub flush_acklist-Keeps : (s : KcpSegment) (k : Kcp) → Keeps beside k (flush_acklist udp s k)
  unfolding flush_acklist
  flush_acklist-Keeps s k h =
      >>=-Within beside beside x (flush_acks udp k.acklist s k) _ (flush_acks-Keeps k.acklist s k h)
        λ a e. e

  flush_probe-Keeps :
      (ask cmd : ℕ) (s : KcpSegment) (k : Kcp) → Keeps beside k (flush_probe udp ask cmd s k)
  unfolding flush_probe
  flush_probe-Keeps ask cmd s k h = elim (Bool-cases (bit_and k.probe ask == 0)) [
    | inl off ↦ rw off h
    | inr on ↦ rw on (put-Keeps beside _ (record s { cmd = cmd }) k _ (λ k' e. e) h)
  ]

  pub flush_probe_commands-Keeps :
      (s : KcpSegment) (k : Kcp) → Keeps beside k (flush_probe_commands udp s k)
  unfolding flush_probe_commands
  flush_probe_commands-Keeps s k h =
      >>=-Within beside beside x _ _ (flush_probe-Keeps _ _ s k h)
        λ a e. >>=-Within beside beside x _ _ (flush_probe-Keeps _ _ a.0 a.1 e) λ c e'. e'

  pub probe_wnd_size-same : (k : Kcp) → receiving (probe_wnd_size k) ≡ receiving k
  unfolding probe_wnd_size
  probe_wnd_size-same k = ground arith

  pub fill_window-same :
      (wnd cwnd : ℕ) (q : List KcpSegment) (k : Kcp)
      → receiving (fill_window wnd cwnd q k) ≡ receiving k
  unfolding fill_window outgoing
  fill_window-same wnd cwnd [] k = refl
  fill_window-same wnd cwnd (s ∷ q) k =
      elim (Bool-cases (ltb_ℤ (timediff k.snd_nxt (add_u32 k.snd_una cwnd)) (pos 0))) [
        | inl more ↦ rw more (
            fill_window-same wnd cwnd q (record k {
              snd_queue = q;
              snd_nxt = add_u32 k.snd_nxt 1;
              snd_buf = k.snd_buf ++ outgoing wnd k s ∷ [];
            }))
        | inr full ↦ rw full refl
      ]

  pub transmit-Keeps : (s : KcpSegment) (k : Kcp) → Keeps whole k (transmit udp s k)
  unfolding transmit
  transmit-Keeps s k = put-Keeps whole _ s k _ λ k2 e. elim (Bool-cases (leb k2.dead_link s.xmit)) [
    | inl dead ↦ rw dead e
    | inr live ↦ rw live e
  ]
