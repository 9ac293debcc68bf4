-- ===== src/Flush/Pushes.antt =====
-- What the loop of `flush` of src/kcp/kcp_module/kcp.rs over the send buffer writes.
use kcp_server.Base.{
  leb_ℤ, pos, ◌==◌, leb, ℕ, ◌≡◌, refl, sym, ap, ◌∙◌, Bool, true, List, [], ◌∷◌, ◌++◌, append-nil,
  leb, Bool-cases, inl, inr, is_empty,
}
use kcp_server.Segment.{segment_bytes, header_bytes, Bytes, KcpSegment}
use kcp_server.Control.{timediff, Kcp, UdpSend, send_buf}
use kcp_server.Flush.Plan.{due_of, sent_as, pushes_of, pushed, wired}
use kcp_server.Flush.{
  Flushing, Reason, note_reason, reschedule, resend_reason, stamp, transmit, send_visit, visit,
  flush_segments, flush_rest,
}
use kcp_server.Flush.Writing.{
  hollow, Writes, >>=-Writes, Writes-ok, Writes-map, whole, Same, put_as-Writes, send_buf-Writes,
}

-- What of the state a resend hangs on.
abbrev clock : Kcp → ℕ × ℕ × Bool × ℕ
clock k = (k.current, k.rx_rto, k.nodelay, k.rcv_nxt)

abbrev pub inside : Flushing → Kcp
inside f = f.kcp

abbrev visited : KcpSegment × Flushing → Kcp
visited (s, f) = f.kcp

abbrev Steady : Kcp → Kcp → Type 0
Steady k k' = clock k' ≡ clock k

-- The state with another clock.
abbrev set_clock : Kcp → ℕ × ℕ × Bool × ℕ → Kcp
set_clock k (current, rto, nodelay, nxt) = record k {
  current = current;
  rx_rto = rto;
  nodelay = nodelay;
  rcv_nxt = nxt;
}

pushes_of-Steady :
    (wnd resent : ℕ) (k k' : Kcp) (q : List KcpSegment)
    → Steady k k'
    → pushes_of wnd resent k' q ≡ pushes_of wnd resent k q
pushes_of-Steady wnd resent k k' [] e = refl
pushes_of-Steady wnd resent k k' (s ∷ q) e =
    λ i. due_of wnd resent (set_clock k (e i)) s ++ pushes_of-Steady wnd resent k k' q e i

pub pushed-Same : (wnd : ℕ) (k k' : Kcp) → Same k k' → pushed wnd k' ≡ pushed wnd k
pushed-Same wnd k k' e =
    pushes_of-Steady wnd _ (hollow k') k' k'.snd_buf refl
    ∙ (ap (pushed wnd) e ∙ sym (pushes_of-Steady wnd _ (hollow k) k k.snd_buf refl))

-- What goes out for a reason.
abbrev push_of : Reason → ℕ → Kcp → KcpSegment → List KcpSegment
push_of Reason.idle wnd k s = []
push_of r wnd k s = sent_as wnd k s ∷ []

-- There is a reason exactly where the segment is due.
push_of-due :
    (resent wnd : ℕ) (k : Kcp) (s : KcpSegment)
    → push_of (resend_reason resent k s) wnd k s ≡ due_of wnd resent k s
unfolding resend_reason
push_of-due resent wnd k s = elim (Bool-cases (s.xmit == 0)) [
  | inl new ↦ rw new refl
  | inr old ↦ elim (Bool-cases (leb_ℤ (pos 0) (timediff k.current s.resendts))) [
    | inl up ↦ rw (old, up) refl
    | inr early ↦ elim (Bool-cases (leb resent s.fastack)) [
      | inl often ↦ rw (old, early, often) refl
      | inr seldom ↦ rw (old, early, seldom) refl
    ]
  ]
]

is_empty-nil : (b : Bytes) → is_empty b ≡ true → b ≡ []
is_empty-nil [] e = refl
is_empty-nil (x ∷ b) e = absurd (cc e)

abbrev pub Emptied : Kcp → Type 0
Emptied k = k.buf ≡ []

module _ (udp : UdpSend) where
  transmit-Writes :
      (s t : KcpSegment) (k : Kcp)
      → segment_bytes s ≡ segment_bytes t
      → Writes whole (Steady k) (t ∷ []) (wired k) (transmit udp s k)
  unfolding transmit
  transmit-Writes s t k same = put_as-Writes udp whole (Steady k) _ s t [] k _ same λ k' e.
      elim (Bool-cases (leb k'.dead_link s.xmit)) [
        | inl dead ↦ rw dead (ap clock e, sym (append-nil (wired k')))
        | inr live ↦ rw live (ap clock e, sym (append-nil (wired k')))
      ]

  send_visit-Writes :
      (wnd : ℕ) (r : Reason) (rtomin : ℕ) (done : List KcpSegment) (s : KcpSegment)
      (todo : List KcpSegment) (f : Flushing)
      → segment_bytes (stamp wnd f.kcp (reschedule r rtomin f.kcp s))
        ≡ segment_bytes (sent_as wnd f.kcp s)
      → clock (note_reason r f).kcp ≡ clock f.kcp
      → wired (note_reason r f).kcp ≡ wired f.kcp
      → Writes visited
          (λ (s', f'). Steady f.kcp f'.kcp)
          (sent_as wnd f.kcp s ∷ [])
          (wired f.kcp)
          (send_visit udp wnd r rtomin done s todo f)
  unfolding send_visit
  send_visit-Writes wnd r rtomin done s todo f same e d =
      let s' = stamp wnd f.kcp (reschedule r rtomin f.kcp s) in
      let t = sent_as wnd f.kcp s in
      let k : Kcp = record ((note_reason r f).kcp) { snd_buf = done ++ s' ∷ todo } in
      rw (← d) (
        Writes-ok whole visited (Steady k) (λ (s', f'). Steady f.kcp f'.kcp) (t ∷ []) (wired k)
          (transmit udp s' k) (λ k'. (s', record (note_reason r f) { kcp = k' }))
          (transmit-Writes s' t k same) (λ k' p. p ∙ e) (λ k'. refl))

  visit-Writes :
      (wnd : ℕ) (r : Reason) (rtomin : ℕ) (done : List KcpSegment) (s : KcpSegment)
      (todo : List KcpSegment) (f : Flushing)
      → Writes visited
          (λ (s', f'). Steady f.kcp f'.kcp)
          (push_of r wnd f.kcp s)
          (wired f.kcp)
          (visit udp wnd r rtomin done s todo f)
  unfolding visit note_reason stamp reschedule segment_bytes header_bytes
  visit-Writes wnd Reason.idle rtomin done s todo f = (refl, sym (append-nil (wired f.kcp)))
  visit-Writes wnd Reason.first rtomin done s todo f =
      send_visit-Writes wnd Reason.first rtomin done s todo f refl refl refl
  visit-Writes wnd Reason.timeout rtomin done s todo f =
      send_visit-Writes wnd Reason.timeout rtomin done s todo f refl refl refl
  visit-Writes wnd Reason.skipped rtomin done s todo f =
      send_visit-Writes wnd Reason.skipped rtomin done s todo f refl refl refl

  pub flush_segments-Writes :
      (wnd resent rtomin : ℕ) (k : Kcp) (done todo : List KcpSegment) (f : Flushing)
      → Steady k f.kcp
      → Writes inside
          (λ f'. Unit)
          (pushes_of wnd resent k todo)
          (wired f.kcp)
          (flush_segments udp wnd resent rtomin done todo f)
  unfolding flush_segments
  flush_segments-Writes wnd resent rtomin k done [] f e = (tt, sym (append-nil (wired f.kcp)))
  flush_segments-Writes wnd resent rtomin k done (s ∷ todo) f e =
      let due : push_of (resend_reason resent f.kcp s) wnd f.kcp s ≡ due_of wnd resent k s =
        push_of-due resent wnd f.kcp s ∙ (λ i. due_of wnd resent (set_clock k (e i)) s) in
      rw (← due) (
        >>=-Writes visited inside (λ (s', f'). Steady f.kcp f'.kcp) (λ f'. Unit)
          (push_of (resend_reason resent f.kcp s) wnd f.kcp s) (pushes_of wnd resent k todo)
          (wired f.kcp) (visit udp wnd (resend_reason resent f.kcp s) rtomin done s todo f) _
          (visit-Writes wnd (resend_reason resent f.kcp s) rtomin done s todo f)
          λ v d. flush_segments-Writes wnd resent rtomin k (done ++ v.0 ∷ []) todo v.1 (d ∙ e))

  pub flush_rest-Writes :
      (k : Kcp) → Writes whole (λ k'. k'.buf ≡ []) [] (wired k) (flush_rest udp k)
  unfolding flush_rest
  flush_rest-Writes k = elim (Bool-cases (is_empty k.buf)) [
    | inl empty ↦ rw empty (is_empty-nil k.buf empty, sym (append-nil (wired k)))
    | inr full ↦ rw full (
        Writes-map whole _ (λ k'. k'.buf ≡ []) [] (wired k) (send_buf udp k) (λ k' p. p.1)
          (send_buf-Writes udp k))
  ]
