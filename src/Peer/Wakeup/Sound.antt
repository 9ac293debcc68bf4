-- ===== src/Peer/Wakeup/Sound.antt =====
-- The wake-ups of a task that waits in KcpPeer::recv of src/kcp/kcp_server/kcp_peer.rs: which of
-- them reach it.
use kcp_server.Base.{ℕ, ◌≡◌, refl, sym, ap, ◌∙◌, subst, Bool, true, false, ◌||◌, ◌⊎◌, inl, inr}
use kcp_server.Error.{Error}
use kcp_server.Control.{Kcp}
use kcp_server.Outcome.{Outcome, ok, err, panic}
use kcp_server.Input.{input}
use kcp_server.Receive.{peek_size}
use kcp_server.Peer.{KcpPeer, wake, register, peer_input, after_input}
use kcp_server.Peer.Wakeup.{Place, Closing, World, Unlocked, taken, Step, Steps, ◌then◌, begins}

-- No message was there to take, unless an `input` that failed left one.
abbrev pub NothingMissed : World → Type 0
NothingMissed w = (w.damaged ≡ true) ⊎ ((e : Error) × (peek_size w.peer.kcp ≡ inl e))

-- What holds of the world at each place of the waiting task.
abbrev pub Holds : Place → World → Type 0
Holds Place.outside w = Unit
Holds Place.locked w = Unit
Holds (Place.missed e) w = peek_size w.peer.kcp ≡ inl e
Holds (Place.looked e broken) w = peek_size w.peer.kcp ≡ inl e
Holds Place.asleep w = (w.notified ≡ true) ⊎ ((w.peer.registered ≡ true) × NothingMissed w)
Holds Place.answered w = Unit

or_left : (a b : Bool) → a ≡ true → (a || b) ≡ true
or_left a b e = rw e refl

or_right : (a b : Bool) → b ≡ true → (a || b) ≡ true
or_right true b e = refl
or_right false b e = e

slot : Bool → Outcome KcpPeer (ℕ × KcpPeer) → Bool
slot otherwise (ok (n, p)) = otherwise
slot otherwise (err e p) = p.registered
slot otherwise panic = otherwise

slot_ok : Outcome KcpPeer (ℕ × KcpPeer) → Bool
slot_ok (ok (n, p)) = p.registered
slot_ok (err e p) = false
slot_ok panic = false

registered-after_input :
    (p p' : KcpPeer) (e : Error) (o : Outcome Kcp (ℕ × Kcp))
    → after_input p o ≡ err e p'
    → p'.registered ≡ p.registered
unfolding after_input slot
registered-after_input p p' e (ok (n, k)) h = absurd (cc (h))
registered-after_input p p' e (err e' k) h = sym (ap (slot p.registered) h)
registered-after_input p p' e panic h = absurd (cc (h))

woken :
    (p p' : KcpPeer) (n : ℕ) (o : Outcome Kcp (ℕ × Kcp))
    → after_input p o ≡ ok (n, p')
    → p'.registered ≡ false
unfolding after_input slot_ok
woken p p' n (ok (m, k)) h = sym (ap slot_ok h)
woken p p' n (err e k) h = absurd (cc (h))
woken p p' n panic h = absurd (cc (h))

Holds-arrives :
    (x : Place) (w : World) (p : KcpPeer)
    → p.registered ≡ false
    → Unlocked x
    → Holds x w
    → Holds x (record w { peer = p; notified = w.notified || taken w.peer p })
Holds-arrives Place.outside w p e u h = tt
Holds-arrives Place.asleep w p e u (inl n) = inl (or_left w.notified (taken w.peer p) n)
Holds-arrives Place.asleep w p e u (inr (r, m)) =
    inl (or_right w.notified (taken w.peer p) (rw (r, e) refl))
Holds-arrives Place.answered w p e u h = tt
Holds-arrives Place.locked w p e u h = absurd u
Holds-arrives (Place.missed e') w p e u h = absurd u
Holds-arrives (Place.looked e' broken) w p e u h = absurd u

Holds-fails :
    (x : Place) (w : World) (p : KcpPeer)
    → p.registered ≡ w.peer.registered
    → Unlocked x
    → Holds x w
    → Holds x (record w { peer = p; damaged = true })
Holds-fails Place.outside w p e u h = tt
Holds-fails Place.asleep w p e u (inl n) = inl n
Holds-fails Place.asleep w p e u (inr (r, m)) = inr (e ∙ r, inl refl)
Holds-fails Place.answered w p e u h = tt
Holds-fails Place.locked w p e u h = absurd u
Holds-fails (Place.missed e') w p e u h = absurd u
Holds-fails (Place.looked e' broken) w p e u h = absurd u

Holds-stores :
    (x : Place) (w : World)
    → Holds x w
    → Holds x
        (record w { peer = record (w.peer) { is_broken_pipe = true }; closing = Closing.stored })
Holds-stores Place.outside w h = tt
Holds-stores Place.locked w h = tt
Holds-stores (Place.missed e) w h = h
Holds-stores (Place.looked e broken) w h = h
Holds-stores Place.asleep w h = h
Holds-stores Place.answered w h = tt

Holds-wakes :
    (x : Place) (w : World)
    → Holds x w
    → Holds x (record w {
      peer = wake w.peer;
      closing = Closing.woken;
      notified = w.notified || taken w.peer (wake w.peer);
    })
Holds-wakes Place.outside w h = tt
Holds-wakes Place.locked w h = tt
Holds-wakes (Place.missed e) w h = h
Holds-wakes (Place.looked e broken) w h = h
Holds-wakes Place.asleep w (inl n) = inl (or_left w.notified (taken w.peer (wake w.peer)) n)
Holds-wakes Place.asleep w (inr (r, m)) =
    inl (or_right w.notified (taken w.peer (wake w.peer)) (rw r refl))
Holds-wakes Place.answered w h = tt

abbrev pub IsSound : World → Type 0
IsSound w = Holds w.place w

Step-IsSound : {w w' : World} → Step w w' → IsSound w → IsSound w'
unfolding peer_input
Step-IsSound (Step.locks w e) h = tt
Step-IsSound (Step.tells w size e f) h = tt
Step-IsSound (Step.misses w e f g) h = g
Step-IsSound (Step.looks w e f) h = subst (λ x. Holds x w) f h
Step-IsSound (Step.refuses w e f) h = tt
Step-IsSound (Step.registers w e f) h = inr (refl, inr (e, subst (λ x. Holds x w) f h))
Step-IsSound (Step.resumes w e f) h = tt
Step-IsSound (Step.arrives w d decoding n p u e) h =
    Holds-arrives w.place w p (woken w.peer p n (input w.peer.kcp d decoding) e) u h
Step-IsSound (Step.fails w d decoding e p u f) h =
    Holds-fails w.place w p (registered-after_input w.peer p e (input w.peer.kcp d decoding) f) u h
Step-IsSound (Step.stores w e) h = Holds-stores w.place w h
Step-IsSound (Step.wakes w e) h = Holds-wakes w.place w h
Step-IsSound (Step.takes w buf out n p e f) h = tt
Step-IsSound (Step.gives_up w e) h = tt

Steps-IsSound : {w w' : World} → Steps w w' → IsSound w → IsSound w'
Steps-IsSound (Steps.rests w) h = h
Steps-IsSound (s then rest) h = Steps-IsSound rest (Step-IsSound s h)

-- In whatever order the tasks of a new peer take their steps, a task that sleeps in `recv` is to be
-- polled again, or its waker stands in the slot; and in the second case, where no `input` has
-- failed, there is no message to take.
pub wakeup-IsSound :
    (k : Kcp) (w : World)
    → Steps (begins k) w
    → w.place ≡ Place.asleep
    → (w.notified ≡ true) ⊎ ((w.peer.registered ≡ true) × NothingMissed w)
wakeup-IsSound k w steps e = subst (λ x. Holds x w) e (Steps-IsSound steps tt)

-- Where the waiting task has loaded the flag unset, was not notified, and has no waker in the slot
-- yet, and nobody has begun to close: there is a row of steps behind which the pipe is broken,
-- `set_broken_pipe` has done its wake, and the task sleeps and is not notified.
pub set_broken_pipe-missed :
    (w : World) (e : Error)
    → w.place ≡ Place.looked e false
    → w.closing ≡ Closing.before
    → w.notified ≡ false
    → w.peer.registered ≡ false
    → (w' : World) × Steps w w'
      × (w'.place ≡ Place.asleep)
      × (w'.peer.is_broken_pipe ≡ true)
      × (w'.closing ≡ Closing.woken)
      × (w'.notified ≡ false)
set_broken_pipe-missed w e at_flag untouched quiet empty = (
  w3,
  Step.stores w untouched
      then Step.wakes w1 refl
      then Step.registers w2 e at_flag
      then Steps.rests w3,
  refl,
  refl,
  refl,
  rw (quiet, empty) refl,
)
  where
    w1 : World
    w1 = record w { peer = record (w.peer) { is_broken_pipe = true }; closing = Closing.stored }

    w2 : World
    w2 = record w1 {
      peer = wake w1.peer;
      closing = Closing.woken;
      notified = w1.notified || taken w1.peer (wake w1.peer);
    }

    w3 : World
    w3 = record w2 { peer = register w2.peer; place = Place.asleep }
