-- ===== src/Writer/Requests.antt =====
-- KcpWriter of src/kcp/kcp_server/kcp_peer/writer.rs under a task that polls it: `poll_write`,
-- `poll_flush` and `poll_close` (`poll_shutdown`), one request after the other.
use kcp_server.Base.{
  ℕ, zero, suc, ◌+◌, ◌≡◌, ◌≢◌, refl, Bool, true, false, Option, none, some, List, [], ◌∷◌,
  if◌then◌else◌,
}
use kcp_server.Segment.{Bytes}
use kcp_server.Control.{Kcp, UdpSend}
use kcp_server.Outcome.{Outcome, ok, err, panic}
use kcp_server.Transmit.{send}
use kcp_server.Timer.{flush_async}
use kcp_server.Peer.{KcpPeer, peer_send, after_send, peer_flush, after_flush}
use kcp_server.Poll.{Poll, done, failed, pending, panicked}
use kcp_server.Writer.{
  Writer, WriterState, poll_send, poll_send_in, write_locked, sent, poll_flush_async, poll_flush_in,
  flush_ready, flushed, poll_close_async, poll_close_in, close_ready,
}
use kcp_server.Safety.Operations.{Operation, perform, perform_all, follow, left}

pub data Request : Type 0 where
  writes : Bytes → Request
  flushes : Request
  closes : Request

-- A poll without its count.
abbrev pub forget {ℓ} : {A : Type ℓ} → Poll A × Writer → Poll (Unit {0}) × Writer
forget (done a, w) = (done tt, w)
forget (failed e, w) = (failed e, w)
forget (pending, w) = (pending, w)
forget (panicked, w) = (panicked, w)

unfoldable pub poll_request : UdpSend → Bool → Request → Writer → Poll (Unit {0}) × Writer
unfolding poll_send poll_flush_async poll_close_async
poll_request udp ready (Request.writes buf) w = forget (poll_send ready buf w)
poll_request udp ready Request.flushes w = poll_flush_async udp ready w
poll_request udp ready Request.closes w = poll_close_async ready w

-- The state in which a request waits.
abbrev pub waits_in : Request → WriterState
waits_in (Request.writes buf) = WriterState.write
waits_in Request.flushes = WriterState.flush_async
waits_in Request.closes = WriterState.close_async

abbrev pub again :
    Poll (Unit {0}) × Writer → (Writer → Poll (Unit {0}) × Writer) → Poll (Unit {0}) × Writer
again (done a, w) next = (done a, w)
again (failed e, w) next = (failed e, w)
again (pending, w) next = next w
again (panicked, w) next = (panicked, w)

-- A task polls its request to the end; its future is ready after `n` polls.
unfoldable pub drive : UdpSend → ℕ → Request → Writer → Poll (Unit {0}) × Writer
unfolding poll_request
drive udp zero request w = poll_request udp true request w
drive udp (suc n) request w = again (poll_request udp false request w) (drive udp n request)

abbrev pub unless_panicked : Poll (Unit {0}) × Writer → (Writer → Option Writer) → Option Writer
unless_panicked (done a, w) next = next w
unless_panicked (failed e, w) next = next w
unless_panicked (pending, w) next = next w
unless_panicked (panicked, w) next = none

-- Requests in their order, each with its number of polls in vain; `none` is a panic.
unfoldable pub run_writer : UdpSend → List (Request × ℕ) → Writer → Option Writer
unfolding drive
run_writer udp [] w = some w
run_writer udp ((request, n) ∷ requests) w =
    unless_panicked (drive udp n request w) (run_writer udp requests)

-- The calls on the control block that the requests stand for.
abbrev pub calls : List (Request × ℕ) → List Operation
calls [] = []
calls ((Request.writes buf, n) ∷ requests) = Operation.sends buf ∷ calls requests
calls ((Request.flushes, n) ∷ requests) = Operation.flushes_async ∷ calls requests
calls ((Request.closes, n) ∷ requests) = calls requests

abbrev pub control_of : Option Writer → Option Kcp
control_of none = none
control_of (some w) = some w.peer.kcp

abbrev pub idle : KcpPeer → Writer
idle p = record { peer = p; state = WriterState.begin }

again-if :
    (b : Bool) (x y z : Poll (Unit {0}) × Writer) (next : Writer → Poll (Unit {0}) × Writer)
    → again x next ≡ x
    → again y next ≡ z
    → again (if b then x else y) next ≡ (if b then x else z)
again-if true x y z next e e' = e
again-if false x y z next e e' = e'

map-if {ℓ κ} :
    {A : Type ℓ} {B : Type κ} {c : B} (f : A → B) (b : Bool) (x y : A)
    → f x ≡ c
    → f y ≡ c
    → f (if b then x else y) ≡ c
map-if f true x y e e' = e
map-if f false x y e e' = e'

module _ (udp : UdpSend) where
  -- A request that waits gives what it would have given at once.
  drive-waiting :
      (n : ℕ) (request : Request) (p : KcpPeer)
      → drive udp n request (record { peer = p; state = waits_in request })
        ≡ poll_request udp true request (record { peer = p; state = waits_in request })
  unfolding drive poll_request poll_send poll_send_in write_locked poll_flush_async poll_flush_in
      flush_ready poll_close_async poll_close_in close_ready
  drive-waiting zero request p = refl
  drive-waiting (suc n) (Request.writes buf) p = drive-waiting n (Request.writes buf) p
  drive-waiting (suc n) Request.flushes p = drive-waiting n Request.flushes p
  drive-waiting (suc n) Request.closes p = drive-waiting n Request.closes p

  drive-idle :
      (n : ℕ) (request : Request) (p : KcpPeer)
      → drive udp n request (idle p) ≡ poll_request udp true request (idle p)
  unfolding drive poll_request poll_send poll_send_in write_locked poll_flush_async poll_flush_in
      flush_ready poll_close_async poll_close_in close_ready
  drive-idle zero request p = refl
  drive-idle (suc n) (Request.writes buf) p = drive-waiting n (Request.writes buf) p
  drive-idle (suc n) Request.flushes p = drive-waiting n Request.flushes p
  drive-idle (suc n) Request.closes p =
      again-if p.is_broken_pipe _ _ _ (drive udp n Request.closes) refl
        (drive-waiting n Request.closes p)

  -- What a ready poll comes to, where the rest of the requests agrees with the rest of the calls.
  module _ (next : Writer → Option Writer) (rest : Kcp → Option Kcp)
      (agrees : (p : KcpPeer) → control_of (next (idle p)) ≡ rest p.kcp) where
    sent-follow :
        (p : KcpPeer) (o : Outcome Kcp (ℕ × Kcp))
        → control_of (unless_panicked (forget (sent p (after_send p o))) next)
          ≡ follow (left (λ (n, k). k) o) rest
    unfolding sent after_send
    sent-follow p (ok (n, k)) = agrees (record p { kcp = k })
    sent-follow p (err e k) = agrees (record p { kcp = k })
    sent-follow p panic = refl

    flushed-follow :
        (p : KcpPeer) (o : Outcome Kcp Kcp)
        → control_of (unless_panicked (flushed p (after_flush p o)) next)
          ≡ follow (left (λ k. k) o) rest
    unfolding flushed after_flush
    flushed-follow p (ok k) = agrees (record p { kcp = k })
    flushed-follow p (err e k) = agrees (record p { kcp = k })
    flushed-follow p panic = refl

    closed-rest :
        (p : KcpPeer)
        → control_of (unless_panicked (poll_request udp true Request.closes (idle p)) next)
          ≡ rest p.kcp
    unfolding poll_request poll_close_async poll_close_in close_ready
    closed-rest p =
        map-if (λ x. control_of (unless_panicked x next)) p.is_broken_pipe _ _ (agrees p)
          (agrees (record p { closes = p.closes + 1 }))

  -- A task that polls each request of an idle writer to its end, however often in vain, does to the
  -- control block what the same row of `send` and `flush_async` does to it, called directly: both
  -- leave the same state, or both panic. So a write is a `send` alone, and flushes nothing, whatever
  -- `flush_write` of the configuration says. Closing leaves the control block alone, and errors leave
  -- the writer in order.
  pub run_writer-perform_all :
      (requests : List (Request × ℕ)) (p : KcpPeer)
      → control_of (run_writer udp requests (idle p)) ≡ perform_all udp (calls requests) p.kcp
  unfolding run_writer perform_all perform poll_request poll_send poll_send_in write_locked
      peer_send poll_flush_async poll_flush_in flush_ready peer_flush
  run_writer-perform_all [] p = refl
  run_writer-perform_all ((Request.writes buf, n) ∷ requests) p =
      rw (drive-idle n (Request.writes buf) p) (
        sent-follow (run_writer udp requests) (perform_all udp (calls requests))
          (run_writer-perform_all requests) p (send p.kcp buf))
  run_writer-perform_all ((Request.flushes, n) ∷ requests) p = rw (drive-idle n Request.flushes p) (
      flushed-follow (run_writer udp requests) (perform_all udp (calls requests))
        (run_writer-perform_all requests) p (flush_async udp p.kcp))
  run_writer-perform_all ((Request.closes, n) ∷ requests) p = rw (drive-idle n Request.closes p) (
      closed-rest (run_writer udp requests) (perform_all udp (calls requests))
        (run_writer-perform_all requests) p)

  -- An idle writer, of a peer whose pipe is whole, is polled for a request while the future is not
  -- ready: its next poll panics where that is for another kind of request, whether the future is
  -- ready then or not.
  pub poll_request-interrupted :
      (first second : Request) (ready : Bool) (p : KcpPeer)
      → waits_in first ≢ waits_in second
      → p.is_broken_pipe ≡ false
      → (poll_request udp ready second (poll_request udp false first (idle p)).1).0 ≡ panicked
  unfolding poll_request poll_send poll_send_in write_locked poll_flush_async poll_flush_in
      flush_ready poll_close_async poll_close_in close_ready
  poll_request-interrupted (Request.writes a) (Request.writes b) ready p h e = absurd (h refl)
  poll_request-interrupted (Request.writes a) Request.flushes ready p h e = refl
  poll_request-interrupted (Request.writes a) Request.closes ready p h e = refl
  poll_request-interrupted Request.flushes (Request.writes b) ready p h e = refl
  poll_request-interrupted Request.flushes Request.flushes ready p h e = absurd (h refl)
  poll_request-interrupted Request.flushes Request.closes ready p h e = refl
  poll_request-interrupted Request.closes (Request.writes b) ready p h e = rw e refl
  poll_request-interrupted Request.closes Request.flushes ready p h e = rw e refl
  poll_request-interrupted Request.closes Request.closes ready p h e = absurd (h refl)
