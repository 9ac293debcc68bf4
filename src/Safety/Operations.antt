-- ===== src/Safety/Operations.antt =====
-- The calls on a control block, Kcp of src/kcp/kcp_module/kcp.rs, and any row of them.
use kcp_server.Base.{
  take, ◌-◌, ◌++◌, ℕ, ◌≤◌, ◌≡◌, ◌⊎◌, Bool, false, Option, none, some, List, [], ◌∷◌, length,
}
use kcp_server.Segment.{Bytes}
use kcp_server.Control.{Kcp, UdpSend}
use kcp_server.Outcome.{Outcome, ok, err, panic}
use kcp_server.Transmit.{send}
use kcp_server.Receive.{recv}
use kcp_server.Input.{input}
use kcp_server.Flush.{flush, flush_ack}
use kcp_server.Flush.Frames.{Log, Terms, entries}
use kcp_server.Flush.Datagrams.{Tidy}
use kcp_server.Timer.{flush_async, update}
use kcp_server.Safety.Sending.{Handed}

-- A call, with its arguments.
pub data Operation : Type 0 where
  sends : Bytes → Operation
  receives : Bytes → Operation
  inputs : Bytes → Bool → Operation
  flushes : Operation
  flushes_ack : Operation
  flushes_async : Operation
  updates : ℕ → Operation

-- The state that a call leaves, on success and on an error; `none` is a panic.
abbrev pub left {ℓ} : {A : Type ℓ} → (A → Kcp) → Outcome Kcp A → Option Kcp
left f (ok a) = some (f a)
left f (err e k) = some k
left f panic = none

unfoldable pub perform : UdpSend → Operation → Kcp → Option Kcp
perform udp (Operation.sends buf) k = left (λ (n, k'). k') (send k buf)
perform udp (Operation.receives buf) k = left (λ (n, out, k'). k') (recv k buf)
perform udp (Operation.inputs buf decoding) k = left (λ (n, k'). k') (input k buf decoding)
perform udp Operation.flushes k = left (λ k'. k') (flush udp k)
perform udp Operation.flushes_ack k = left (λ k'. k') (flush_ack udp k)
perform udp Operation.flushes_async k = left (λ k'. k') (flush_async udp k)
perform udp (Operation.updates current) k = left (λ k'. k') (update udp k current)

-- What is done next, unless there was a panic.
abbrev pub follow : Option Kcp → (Kcp → Option Kcp) → Option Kcp
follow none next = none
follow (some k) next = next k

-- The calls in their order, up to a panic.
unfoldable pub perform_all : UdpSend → List Operation → Kcp → Option Kcp
perform_all udp [] k = some k
perform_all udp (op ∷ ops) k = follow (perform udp op k) (λ k'. perform_all udp ops k')

-- A datagram to be decoded has four bytes at least.
abbrev pub LongEnough : Operation → Type 0
LongEnough (Operation.sends buf) = Unit
LongEnough (Operation.receives buf) = Unit
LongEnough (Operation.inputs buf decoding) = (decoding ≡ false) ⊎ (4 ≤ length buf)
LongEnough Operation.flushes = Unit
LongEnough Operation.flushes_ack = Unit
LongEnough Operation.flushes_async = Unit
LongEnough (Operation.updates current) = Unit

-- The calls end, and what they leave has the property.
abbrev pub Survives : (Kcp → Type 0) → Option Kcp → Type 0
Survives P none = ⊥
Survives P (some k) = P k

pub Survives-map :
    (P Q : Kcp → Type 0) (o : Option Kcp) → ((k : Kcp) → P k → Q k) → Survives P o → Survives Q o
Survives-map P Q none f t = t
Survives-map P Q (some k) f t = f k t

-- What a call adds to the bytes that are to be sent.
abbrev pub Hands : Operation → Kcp → Bytes → Type 0
Hands (Operation.sends buf) k b = Handed buf (send k buf) b
Hands (Operation.receives buf) k b = b ≡ []
Hands (Operation.inputs buf decoding) k b = b ≡ []
Hands Operation.flushes k b = b ≡ []
Hands Operation.flushes_ack k b = b ≡ []
Hands Operation.flushes_async k b = b ≡ []
Hands (Operation.updates current) k b = b ≡ []

-- What a row of calls adds, one behind the other.
abbrev pub HandsAll : UdpSend → List Operation → Kcp → Bytes → Type 0
HandsAll udp [] k b = b ≡ []
HandsAll udp (op ∷ ops) k b =
    (x : Bytes) × (y : Bytes) × (b ≡ x ++ y)
    × Hands op k x
    × Survives (λ k'. HandsAll udp ops k' y) (perform udp op k)

-- What left the front of the send queue, from `k` to `k'`.
abbrev pub gone : Kcp → Kcp → List (ℕ × Bytes)
gone k k' = take (length k.snd_queue - length k'.snd_queue) (entries k.snd_queue)

-- What a call from `k` to `k'` gives a number: for a flush, what it takes from the send queue.
abbrev pub numbers : Operation → Kcp → Kcp → List (ℕ × Bytes)
numbers (Operation.sends buf) k k' = []
numbers (Operation.receives buf) k k' = []
numbers (Operation.inputs buf decoding) k k' = []
numbers Operation.flushes k k' = gone k k'
numbers Operation.flushes_ack k k' = []
numbers Operation.flushes_async k k' = gone k k'
numbers (Operation.updates current) k k' = gone k k'

-- What a row of calls gives numbers, one behind the other.
abbrev pub numbered_next : Option Kcp → (Kcp → List (ℕ × Bytes)) → List (ℕ × Bytes)
numbered_next none next = []
numbered_next (some k) next = next k

unfoldable pub numbered_all : UdpSend → List Operation → Kcp → List (ℕ × Bytes)
numbered_all udp [] k = []
numbered_all udp (op ∷ ops) k =
    numbered_next (perform udp op k) (λ k'. numbers op k k' ++ numbered_all udp ops k')

-- The state is tidy, with a log that has the numbers of `m` more and `b` more to be sent.
abbrev pub Furthered : ℕ → Terms → Log → List (ℕ × Bytes) → Bytes → Kcp → Type 0
Furthered mtu C L m b k =
    (L' : Log) × (L'.numbered ≡ L.numbered ++ m) × (L'.given ≡ L.given ++ b) × Tidy mtu C L' k

-- The log of a control block to which nothing was given yet.
abbrev pub empty_log : Log
empty_log = record { numbered = []; waiting = []; given = [] }
