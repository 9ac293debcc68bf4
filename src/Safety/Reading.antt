-- ===== src/Safety/Reading.antt =====
-- What `recv` leaves of the invariant of `flush`.
use kcp_server.Base.{ℕ, refl, Bool, ◌&&◌, length, ltb, Bool-cases, inl, inr, subst, sym}
use kcp_server.Segment.{Bytes}
use kcp_server.Control.{Kcp}
use kcp_server.Outcome.{Outcome, ok, err, panic, Ends}
use kcp_server.Receive.{recv, move_available, fast_recover}
use kcp_server.Receive.Messages.{Received, recv-Received, refilled}
use kcp_server.Flush.Frames.{Log, Terms}
use kcp_server.Flush.Datagrams.{Tidy, Tidy-same}

module _ (mtu : ℕ) (C : Terms) (L : Log) where
  fast_recover-Tidy :
      (recover : Bool) (k : Kcp) → Tidy mtu C L k → Tidy mtu C L (fast_recover recover k)
  unfolding fast_recover
  fast_recover-Tidy recover k t =
      elim (Bool-cases (ltb (length k.rcv_queue) k.rcv_wnd && recover)) [
        | inl e ↦ rw e (Tidy-same mtu C L k _ refl refl refl refl refl refl refl refl refl t)
        | inr e ↦ rw e t
      ]

  refilled-Tidy : (k : Kcp) → Tidy mtu C L k → Tidy mtu C L (refilled k)
  unfolding move_available
  refilled-Tidy k t =
      fast_recover-Tidy _ _ (Tidy-same mtu C L k _ refl refl refl refl refl refl refl refl refl t)

  abbrev Receives : ℕ × Bytes × Kcp → Type 0
  Receives (n, out, k) = Tidy mtu C L k

  pub recv-Tidy :
      (k : Kcp) (buf : Bytes) → Tidy mtu C L k → Ends Receives (Tidy mtu C L) (recv k buf)
  recv-Tidy k buf t = received (recv k buf) (recv-Received k buf)
    where
      received :
          (o : Outcome Kcp (ℕ × Bytes × Kcp)) → Received k buf o → Ends Receives (Tidy mtu C L) o
      received (ok (n, out, k')) r = subst (Tidy mtu C L) (sym r.3) (refilled-Tidy k t)
      received (err e k') r = subst (Tidy mtu C L) (sym r.0) t
      received panic r = r
