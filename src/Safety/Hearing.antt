-- ===== src/Safety/Hearing.antt =====
-- What an event of the two ends does to the receiving half of either, each a Kcp of
-- src/kcp/kcp_module/kcp.rs, where nothing is forged.
use kcp_server.Base.{
  true, ℕ, zero, suc, ◌<◌, sym, subst, Option, none, some, get_elem?, List, [], ◌∷◌, ◌++◌,
  append-nil, All,
}
use kcp_server.Segment.{Bytes}
use kcp_server.Control.{Kcp, UdpSend}
use kcp_server.Input.{input}
use kcp_server.Flush.Frames.{Log}
use kcp_server.Safety.Operations.{Operation, left, perform, Survives}
use kcp_server.Safety.Exchange.{Takes}
use kcp_server.Safety.Sequence.{Receives, Few}
use kcp_server.Safety.Arrivals.{input-Receives}
use kcp_server.Safety.History.{Link, Event, arrive, with_left, with_right, happen}
use kcp_server.Safety.Unforged.{Honest, gets, AnyLeft, perform-Receives}

-- The event forges nothing: what is read, the other end has sent.
abbrev pub Unforged : Event → Type 0
Unforged (Event.left_calls op) = Honest op
Unforged (Event.right_calls op) = Honest op
Unforged (Event.reaches_left i) = Unit
Unforged (Event.reaches_right i) = Unit

-- The bytes that each end's caller gets of an event.
abbrev pub left_gets : Event → Link → Bytes
left_gets (Event.left_calls op) n = gets op n.left
left_gets (Event.right_calls op) n = []
left_gets (Event.reaches_left i) n = []
left_gets (Event.reaches_right i) n = []

abbrev pub right_gets : Event → Link → Bytes
right_gets (Event.left_calls op) n = []
right_gets (Event.right_calls op) n = gets op n.right
right_gets (Event.reaches_left i) n = []
right_gets (Event.reaches_right i) n = []

-- A receiver of `L` stays one, with `b` more given, where no number comes round.
abbrev pub Stays : Log → Bytes → Kcp → Bytes → Kcp → Type 0
Stays L g k b k' = Few L → Receives L g k → Receives L (g ++ b) k'

Stays-refl : (L : Log) (g : Bytes) (k : Kcp) → Stays L g k [] k
Stays-refl L g k few v = subst (λ b. Receives L b k) (sym (append-nil g)) v

module _ (L : Log) (g : Bytes) (k : Kcp) (udp : UdpSend) where
  arrive-Stays :
      (ds : List Bytes) (i : ℕ)
      → All (Takes L k) ds
      → AnyLeft (Stays L g k []) (arrive udp (get_elem? ds i) k)
  unfolding perform
  arrive-Stays [] i t = Stays-refl L g k
  arrive-Stays (d ∷ ds) zero t =
      go (left (λ (n, k'). k') (input k d true)) λ few v. input-Receives L g few k d t.0 v
    where
      go :
          (o : Option Kcp)
          → (Few L → Receives L g k → Survives (Receives L g) o)
          → AnyLeft (Stays L g k []) o
      go none f = tt
      go (some k') f = λ few v. Stays-refl L g k' few (f few v)
  arrive-Stays (d ∷ ds) (suc i) t = arrive-Stays ds i t.1

  perform-Stays :
      (op : Operation)
      → Honest op
      → 0 < k.mss
      → AnyLeft (Stays L g k (gets op k)) (perform udp op k)
  perform-Stays op h m = go (perform udp op k) (perform-Receives L g udp op k h m)
    where
      go :
          (o : Option Kcp)
          → (Receives L g k → AnyLeft (Receives L (g ++ gets op k)) o)
          → AnyLeft (Stays L g k (gets op k)) o
      go none f = tt
      go (some k') f = λ few v. f v

module _ (u v : UdpSend) (L M : Log) (n : Link) (g h : Bytes) where
  -- Each end stays a receiver of the other one's log.
  abbrev pub Hears : Event → Link → Type 0
  Hears e n' =
      Stays L g n.right (right_gets e n) n'.right × Stays M h n.left (left_gets e n) n'.left

  hear_left :
      (o : Option Kcp) (b : Bytes)
      → AnyLeft (Stays M h n.left b) o
      → AnyLeft (λ n'. Stays L g n.right [] n'.right × Stays M h n.left b n'.left) (with_left n o)
  hear_left none b w = tt
  hear_left (some k) b w = (Stays-refl L g n.right, w)

  hear_right :
      (o : Option Kcp) (b : Bytes)
      → AnyLeft (Stays L g n.right b) o
      → AnyLeft (λ n'. Stays L g n.right b n'.right × Stays M h n.left [] n'.left) (with_right n o)
  hear_right none b w = tt
  hear_right (some k) b w = (w, Stays-refl M h n.left)

  pub happen-Hears :
      (e : Event)
      → Unforged e
      → 0 < n.left.mss
      → 0 < n.right.mss
      → All (Takes L n.right) n.left.output.sent
      → All (Takes M n.left) n.right.output.sent
      → AnyLeft (Hears e) (happen u v e n)
  unfolding happen
  happen-Hears (Event.left_calls op) f p q s t =
      hear_left (perform u op n.left) (gets op n.left) (perform-Stays M h n.left u op f p)
  happen-Hears (Event.right_calls op) f p q s t =
      hear_right (perform v op n.right) (gets op n.right) (perform-Stays L g n.right v op f q)
  happen-Hears (Event.reaches_left i) f p q s t =
      hear_left (arrive u (get_elem? n.right.output.sent i) n.left) []
        (arrive-Stays M h n.left u n.right.output.sent i t)
  happen-Hears (Event.reaches_right i) f p q s t =
      hear_right (arrive v (get_elem? n.left.output.sent i) n.right) []
        (arrive-Stays L g n.right v n.left.output.sent i s)
