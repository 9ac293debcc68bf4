-- ===== src/Safety/Untouched.antt =====
-- Sending leaves the receiving half of Kcp in src/kcp/kcp_module/kcp.rs alone: `send`, the flushes and
-- the clock.
use kcp_server.Base.{
  ℕ, ◌≡◌, refl, ◌∙◌, Bool, true, false, List, [], ◌∷◌, ◌++◌, arith, not, is_empty, Bool-cases, inl,
  inr,
}
use kcp_server.Segment.{KcpSegment}
use kcp_server.Control.{Kcp, UdpSend}
use kcp_server.Flush.{
  flush_acklist, probe_wnd_size, transmit, send_visit, visit, Flushing, Reason, note_reason,
  resend_reason, flush_segments, flush_rest, flush_all, flush, flush_ack, after_change, after_loss,
  at_least_one,
}
use kcp_server.Timer.{first_update, flush_async, advance_clock, update}
use kcp_server.Safety.Sequence.{receiving}
use kcp_server.Safety.Spared.{
  Half, >>=-Within, whole, beside, Keeps, send_buf-Keeps, flush_acklist-Keeps,
  flush_probe_commands-Keeps, probe_wnd_size-same, fill_window-same, transmit-Keeps,
}

abbrev inside : Flushing → Kcp
inside f = f.kcp

abbrev visited : KcpSegment × Flushing → Kcp
visited (s, f) = f.kcp

module _ (udp : UdpSend) (x : Half) where
  note_reason-same : (r : Reason) (f : Flushing) → receiving (note_reason r f).kcp ≡ receiving f.kcp
  unfolding note_reason
  note_reason-same Reason.idle f = refl
  note_reason-same Reason.first f = refl
  note_reason-same Reason.timeout f = refl
  note_reason-same Reason.skipped f = refl

  send_visit-Keeps :
      (wnd : ℕ) (r : Reason) (rtomin : ℕ) (done : List KcpSegment) (s : KcpSegment)
      (todo : List KcpSegment) (f : Flushing)
      → Keeps udp x visited f.kcp (send_visit udp wnd r rtomin done s todo f)
  unfolding send_visit
  send_visit-Keeps wnd r rtomin done s todo f h =
      >>=-Within whole visited x (transmit udp _ _) _
        (transmit-Keeps udp x _ _ (note_reason-same r f ∙ h)) λ k e. e

  visit-Keeps :
      (wnd : ℕ) (r : Reason) (rtomin : ℕ) (done : List KcpSegment) (s : KcpSegment)
      (todo : List KcpSegment) (f : Flushing)
      → Keeps udp x visited f.kcp (visit udp wnd r rtomin done s todo f)
  unfolding visit
  visit-Keeps wnd Reason.idle rtomin done s todo f h = h
  visit-Keeps wnd Reason.first rtomin done s todo f h =
      send_visit-Keeps wnd Reason.first rtomin done s todo f h
  visit-Keeps wnd Reason.timeout rtomin done s todo f h =
      send_visit-Keeps wnd Reason.timeout rtomin done s todo f h
  visit-Keeps wnd Reason.skipped rtomin done s todo f h =
      send_visit-Keeps wnd Reason.skipped rtomin done s todo f h

  flush_segments-Keeps :
      (wnd resent rtomin : ℕ) (done todo : List KcpSegment) (f : Flushing)
      → Keeps udp x inside f.kcp (flush_segments udp wnd resent rtomin done todo f)
  unfolding flush_segments
  flush_segments-Keeps wnd resent rtomin done [] f h = h
  flush_segments-Keeps wnd resent rtomin done (s ∷ todo) f h =
      >>=-Within visited inside x
        (visit udp wnd (resend_reason resent f.kcp s) rtomin done s todo f) _
        (visit-Keeps wnd (resend_reason resent f.kcp s) rtomin done s todo f h)
        λ v e. flush_segments-Keeps wnd resent rtomin (done ++ v.0 ∷ []) todo v.1 e

  flush_rest-Keeps : (k : Kcp) → Keeps udp x whole k (flush_rest udp k)
  unfolding flush_rest
  flush_rest-Keeps k h = elim (Bool-cases (not (is_empty k.buf))) [
    | inl full ↦ rw full (send_buf-Keeps udp x k h)
    | inr hollow ↦ rw hollow h
  ]

  after_change-same :
      (resent change : ℕ) (k : Kcp) → receiving (after_change resent change k) ≡ receiving k
  unfolding after_change
  after_change-same resent change k = ground arith

  after_loss-same :
      (cwnd : ℕ) (lost : Bool) (k : Kcp) → receiving (after_loss cwnd lost k) ≡ receiving k
  unfolding after_loss
  after_loss-same cwnd true k = refl
  after_loss-same cwnd false k = refl

  at_least_one-same : (k : Kcp) → receiving (at_least_one k) ≡ receiving k
  unfolding at_least_one
  at_least_one-same k = ground arith

  flush_all-Keeps : (k : Kcp) → Keeps udp x whole k (flush_all udp k)
  unfolding flush_all
  flush_all-Keeps k h =
      >>=-Within beside whole x (flush_acklist udp _ k) _ (flush_acklist-Keeps udp x _ k h) λ a e.
        >>=-Within beside whole x _ _
          (flush_probe_commands-Keeps udp x a.0 (probe_wnd_size a.1)
            (probe_wnd_size-same udp x a.1 ∙ e))
          λ b e1.
            >>=-Within inside whole x _ _
              (flush_segments-Keeps _ _ _ [] _ _
                (fill_window-same udp x _ _ b.1.snd_queue b.1 ∙ e1))
              λ f e2.
                >>=-Within whole whole x (flush_rest udp f.kcp) _ (flush_rest-Keeps f.kcp e2)
                  λ k4 e4.
                    at_least_one-same _
                    ∙ (after_loss-same _ f.lost _ ∙ (after_change-same _ f.change k4 ∙ e4))

  pub flush-Keeps : (k : Kcp) → Keeps udp x whole k (flush udp k)
  unfolding flush
  flush-Keeps k h = elim (Bool-cases (not k.updated)) [
    | inl new ↦ rw new h
    | inr begun ↦ rw begun (flush_all-Keeps k h)
  ]

  pub flush_ack-Keeps : (k : Kcp) → Keeps udp x whole k (flush_ack udp k)
  unfolding flush_ack
  flush_ack-Keeps k h = elim (Bool-cases (not k.updated)) [
    | inl new ↦ rw new h
    | inr begun ↦ rw begun (
        >>=-Within beside whole x (flush_acklist udp _ k) _ (flush_acklist-Keeps udp x _ k h)
          λ a e. e)
  ]

  first_update-same : (k : Kcp) → receiving (first_update k) ≡ receiving k
  unfolding first_update
  first_update-same k = ground arith

  pub flush_async-Keeps : (k : Kcp) → Keeps udp x whole k (flush_async udp k)
  unfolding flush_async
  flush_async-Keeps k h = flush-Keeps _ (first_update-same _ ∙ h)

  pub update-Keeps : (k : Kcp) (current : ℕ) → Keeps udp x whole k (update udp k current)
  unfolding update advance_clock
  update-Keeps k current h = elim (Bool-cases (advance_clock k current).1) [
    | inl due ↦ rw due (flush-Keeps _ (first_update-same _ ∙ h))
    | inr early ↦ rw early (first_update-same _ ∙ h)
  ]
