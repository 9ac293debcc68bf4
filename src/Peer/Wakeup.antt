-- ===== src/Peer/Wakeup.antt =====
-- KcpPeer of src/kcp/kcp_server/kcp_peer.rs between its tasks: the one that waits in `recv`, those
-- that call `input`, and the one that calls `set_broken_pipe`, which takes no lock.
pub mod Sound
use kcp_server.Base.{
  ℕ, ◌≡◌, refl, sym, ap, ◌∙◌, subst, Bool, true, false, ◌||◌, ◌&&◌, not, ◌⊎◌, inl, inr,
}
use kcp_server.Error.{Error}
use kcp_server.Segment.{Bytes}
use kcp_server.Control.{Kcp}
use kcp_server.Outcome.{Outcome, ok, err, panic}
use kcp_server.Input.{input}
use kcp_server.Receive.{peek_size}
use kcp_server.Peer.{KcpPeer, new_peer, wake, register, peer_input, after_input, recv_buf}

-- Where the waiting task stands in WaitInput::poll: outside it, or with the lock taken, or with the
-- error of `peek_size`, or with the flag that it then loaded, or asleep; or it has its answer.
pub data Place : Type 0 where
  outside locked : Place
  missed : Error → Place
  looked : Error → Bool → Place
  asleep answered : Place

-- Where the closing task stands in `set_broken_pipe`.
pub data Closing : Type 0 where
  before stored woken : Closing

-- `notified` tells whether the executor is to poll the waiting task again; `damaged` whether a call
-- of `input` has failed.
pub record World : Type 0 where
  pub peer : KcpPeer
  pub place : Place
  pub closing : Closing
  pub notified : Bool
  pub damaged : Bool

-- The waiting task holds the lock at none of these places.
abbrev pub Unlocked : Place → Type 0
Unlocked Place.outside = Unit
Unlocked Place.locked = ⊥
Unlocked (Place.missed e) = ⊥
Unlocked (Place.looked e broken) = ⊥
Unlocked Place.asleep = Unit
Unlocked Place.answered = Unit

-- A wake takes the waker out of the slot, and notifies its task.
abbrev pub taken : KcpPeer → KcpPeer → Bool
taken p p' = p.registered && not p'.registered

-- The steps that the tasks take between each other's. `input` runs whole under the lock, its wake
-- included. A task that has its answer takes the message, or gives up, and may call `recv` again; no
-- notification of before counts then.
pub data Step : World → World → Type 0 where
  locks : (w : World) → w.place ≡ Place.outside → Step w (record w { place = Place.locked })
  tells :
      (w : World) (size : ℕ)
      → w.place ≡ Place.locked
      → peek_size w.peer.kcp ≡ inr size
      → Step w (record w { place = Place.answered })
  misses :
      (w : World) (e : Error)
      → w.place ≡ Place.locked
      → peek_size w.peer.kcp ≡ inl e
      → Step w (record w { place = Place.missed e })
  looks :
      (w : World) (e : Error)
      → w.place ≡ Place.missed e
      → Step w (record w { place = Place.looked e w.peer.is_broken_pipe })
  refuses :
      (w : World) (e : Error)
      → w.place ≡ Place.looked e true
      → Step w (record w { place = Place.answered })
  registers :
      (w : World) (e : Error)
      → w.place ≡ Place.looked e false
      → Step w (record w { peer = register w.peer; place = Place.asleep })
  resumes :
      (w : World)
      → w.place ≡ Place.asleep
      → w.notified ≡ true
      → Step w (record w { place = Place.outside; notified = false })
  arrives :
      (w : World) (d : Bytes) (decoding : Bool) (n : ℕ) (p : KcpPeer)
      → Unlocked w.place
      → peer_input w.peer d decoding ≡ ok (n, p)
      → Step w (record w { peer = p; notified = w.notified || taken w.peer p })
  fails :
      (w : World) (d : Bytes) (decoding : Bool) (e : Error) (p : KcpPeer)
      → Unlocked w.place
      → peer_input w.peer d decoding ≡ err e p
      → Step w (record w { peer = p; damaged = true })
  stores :
      (w : World)
      → w.closing ≡ Closing.before
      → Step w
          (record w { peer = record (w.peer) { is_broken_pipe = true }; closing = Closing.stored })
  wakes :
      (w : World)
      → w.closing ≡ Closing.stored
      → Step w (record w {
        peer = wake w.peer;
        closing = Closing.woken;
        notified = w.notified || taken w.peer (wake w.peer);
      })
  takes :
      (w : World) (buf out : Bytes) (n : ℕ) (p : KcpPeer)
      → w.place ≡ Place.answered
      → recv_buf w.peer buf ≡ ok (n, out, p)
      → Step w (record w { peer = p; place = Place.outside; notified = false })
  gives_up :
      (w : World)
      → w.place ≡ Place.answered
      → Step w (record w { place = Place.outside; notified = false })

infixr 5 ◌then◌
pub data Steps : World → World → Type 0 where
  rests : (w : World) → Steps w w
  ◌then◌ : {w w' w'' : World} → Step w w' → Steps w' w'' → Steps w w''

-- A peer as it is made, before anyone waits for it.
abbrev pub begins : Kcp → World
begins k = record {
  peer = new_peer k;
  place = Place.outside;
  closing = Closing.before;
  notified = false;
  damaged = false;
}
