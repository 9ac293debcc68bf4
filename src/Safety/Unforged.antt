-- ===== src/Safety/Unforged.antt =====
-- The two ends as receivers of each other, where nothing is forged: what each call and each arrival
-- does to the receiving half of Kcp in src/kcp/kcp_module/kcp.rs.
use kcp_server.Base.{
  ℕ, ◌≡◌, ◌<◌, refl, sym, ap, ◌∙◌, subst, Option, none, some, [], ◌++◌, append-nil, take,
  take-append_of, drop,
}
use kcp_server.Segment.{Bytes}
use kcp_server.Control.{Kcp, UdpSend}
use kcp_server.Outcome.{Outcome, ok, err, panic}
use kcp_server.Receive.{recv}
use kcp_server.Receive.Messages.{payloads, first_message, Received, recv-Received}
use kcp_server.Transmit.{send}
use kcp_server.Flush.{flush, flush_ack}
use kcp_server.Flush.Frames.{Log}
use kcp_server.Timer.{flush_async, update}
use kcp_server.Safety.Sending.{Took, send-Took}
use kcp_server.Safety.Operations.{Operation, left, perform, LongEnough}
use kcp_server.Safety.Sequence.{Receives, receiving, Receives-SameReceiver, refilled-Receives}
use kcp_server.Safety.Spared.{Within}
use kcp_server.Safety.Untouched.{flush-Keeps, flush_ack-Keeps, flush_async-Keeps, update-Keeps}

-- The call reads no datagram: those that arrive are events of their own.
abbrev pub Honest : Operation → Type 0
Honest (Operation.sends buf) = Unit
Honest (Operation.receives buf) = Unit
Honest (Operation.inputs buf decoding) = ⊥
Honest Operation.flushes = Unit
Honest Operation.flushes_ack = Unit
Honest Operation.flushes_async = Unit
Honest (Operation.updates current) = Unit

pub Honest-LongEnough : (op : Operation) → Honest op → LongEnough op
Honest-LongEnough (Operation.sends buf) h = tt
Honest-LongEnough (Operation.receives buf) h = tt
Honest-LongEnough (Operation.inputs buf decoding) h = absurd h
Honest-LongEnough Operation.flushes h = tt
Honest-LongEnough Operation.flushes_ack h = tt
Honest-LongEnough Operation.flushes_async h = tt
Honest-LongEnough (Operation.updates current) h = tt

-- The bytes that a call of `recv` gives.
abbrev pub given : Outcome Kcp (ℕ × Bytes × Kcp) → Bytes
given (ok (n, out, k)) = take n out
given (err e k) = []
given panic = []

-- The bytes that a call gives to its caller.
abbrev pub gets : Operation → Kcp → Bytes
gets (Operation.sends buf) k = []
gets (Operation.receives buf) k = given (recv k buf)
gets (Operation.inputs buf decoding) k = []
gets Operation.flushes k = []
gets Operation.flushes_ack k = []
gets Operation.flushes_async k = []
gets (Operation.updates current) k = []

-- What is left, if anything is, has the property.
abbrev pub AnyLeft {ℓ} : {A : Type ℓ} → (A → Type 0) → Option A → Type 0
AnyLeft P none = Unit
AnyLeft P (some k) = P k

module _ (L : Log) (got : Bytes) where
  Within-Receives :
      {A : Type 0} (f : A → Kcp) (k : Kcp) (o : Outcome Kcp A)
      → Receives L got k
      → Within f (receiving k) o
      → AnyLeft (Receives L (got ++ [])) (left f o)
  Within-Receives f k (ok a) v e =
      subst (λ b. Receives L b (f a)) (sym (append-nil got))
        (Receives-SameReceiver L got k (f a) e v)
  Within-Receives f k (err x s) v e =
      subst (λ b. Receives L b s) (sym (append-nil got)) (Receives-SameReceiver L got k s e v)
  Within-Receives f k panic v e = tt

  Took-Within :
      (k : Kcp) (buf : Bytes) (o : Outcome Kcp (ℕ × Kcp))
      → Took k buf o
      → Within (λ (n, k'). k') (receiving k) o
  Took-Within k buf (ok (n, k')) t = ap receiving t.1
  Took-Within k buf (err e k') t = ap receiving t.1
  Took-Within k buf panic t = tt

  Received-Receives :
      (k : Kcp) (buf : Bytes) (o : Outcome Kcp (ℕ × Bytes × Kcp))
      → Received k buf o
      → Receives L got k
      → AnyLeft (Receives L (got ++ given o)) (left (λ (n, out, k'). k') o)
  Received-Receives k buf (ok (n, out, k')) (size, fits, bytes, rest) v =
      let whole : take n out ≡ payloads (first_message k.rcv_queue) =
        ap (take n) bytes ∙ take-append_of n _ (drop n buf) (sym size) in
      subst (λ b. Receives L (got ++ b) k') (sym whole)
        (subst (Receives L _) (sym rest) (refilled-Receives L got k v))
  Received-Receives k buf (err e k') (same, why) v =
      subst (λ b. Receives L b k') (sym (append-nil got)) (subst (Receives L got) (sym same) v)
  Received-Receives k buf panic r v = tt

  pub perform-Receives :
      (udp : UdpSend) (op : Operation) (k : Kcp)
      → Honest op
      → 0 < k.mss
      → Receives L got k
      → AnyLeft (Receives L (got ++ gets op k)) (perform udp op k)
  unfolding perform
  perform-Receives udp (Operation.sends buf) k h m v =
      Within-Receives _ k (send k buf) v (Took-Within k buf (send k buf) (send-Took k buf m))
  perform-Receives udp (Operation.receives buf) k h m v =
      Received-Receives k buf (recv k buf) (recv-Received k buf) v
  perform-Receives udp (Operation.inputs buf decoding) k h m v = absurd h
  perform-Receives udp Operation.flushes k h m v =
      Within-Receives _ k (flush udp k) v (flush-Keeps udp _ k refl)
  perform-Receives udp Operation.flushes_ack k h m v =
      Within-Receives _ k (flush_ack udp k) v (flush_ack-Keeps udp _ k refl)
  perform-Receives udp Operation.flushes_async k h m v =
      Within-Receives _ k (flush_async udp k) v (flush_async-Keeps udp _ k refl)
  perform-Receives udp (Operation.updates current) k h m v =
      Within-Receives _ k (update udp k current) v (update-Keeps udp _ k current refl)
