-- ===== src/Listener/Accepting.antt =====
-- What the first datagram of a client leaves, in the task that KcpListener::new of
-- src/kcp/kcp_server/kcp_listener.rs starts for it.
use kcp_server.Base.{
  ℕ, ◌<◌, ◌≡◌, ap, ◌∙◌, Bool, true, false, List, ◌∷◌, ◌++◌, length, All, ◌==◌, if◌then◌else◌, arith,
}
use kcp_server.Segment.{Bytes, KcpSegment, overhead}
use kcp_server.Control.{Kcp, UdpSend}
use kcp_server.Outcome.{Outcome, ok}
use kcp_server.Input.{Reading}
use kcp_server.Input.Loop.{IsValid, datagram, handle_all, start, concluded}
use kcp_server.Input.Wire.{masked}
use kcp_server.Setup.{KcpConfig}
use kcp_server.Peer.{new_peer, after_input}
use kcp_server.Listener.{create_kcp_peer}
use kcp_server.Listener.Handshake.{DataRw, Task, Greeting, after_first, greet}
use kcp_server.Listener.Opening.{IsLittleEndian, greet-datagram}
use kcp_server.Safety.Exchange.{mss-handle_all, concluded-Succeeds}

-- Where the first number is 0, the task breaks its loop with a new peer, whose control block is `k`
-- once it has handled what was read, with nobody waiting, one wake done, and an update asked for;
-- else it waits on as it was.
abbrev pub Greeted : ℕ → Task → Kcp → Reading → Bool → Outcome Task Greeting → Type 0
Greeted conv t k r true o =
    (k' : Kcp) × (concluded k r ≡ ok (r.position, k'))
    × (o
        ≡ ok (
            Greeting.opens conv
              (record {
                kcp = k';
                registered = false;
                wakes = 1;
                is_broken_pipe = false;
                closes = 0;
                next_update_time = 0;
              })
              t))
Greeted conv t k r false o = o ≡ ok (Greeting.waits t)

-- A datagram of valid segments of one conversation, with less than a header behind them, masked
-- under the key that the client gave, where data_rw reads little-endian numbers and the
-- configuration makes a control block for the conversation with a segment size above 0: where the
-- first segment has number 0, the task ends its greeting with a new peer, whose control block has
-- handled every segment of the datagram in order, as one that got it in the clear, and which asks
-- to be updated; where it has another number, the task waits on and nothing has changed.
pub greet-Greeted :
    (config : KcpConfig) (d : DataRw) (udp : UdpSend) (timestamp : ℕ) (t : Task) (k : Kcp)
    (s : KcpSegment) (q : List KcpSegment) (tail : Bytes)
    → IsLittleEndian d
    → All (IsValid k.conv) (s ∷ q)
    → length tail < overhead
    → create_kcp_peer config timestamp s.conv t.key ≡ ok k
    → 0 < k.mss
    → Greeted s.conv t k
        (handle_all (s ∷ q) tail (start k (datagram (s ∷ q) ++ tail)))
        (s.sn == 0)
        (greet config d udp timestamp t (masked t.key (datagram (s ∷ q) ++ tail)))
unfolding after_first after_input new_peer
greet-Greeted config d udp timestamp t k s q tail le valid short made some_room =
    by_number (s.sn == 0) (greet-datagram config d udp timestamp t k s q tail le valid short made)
  where
    r : Reading
    r = handle_all (s ∷ q) tail (start k (datagram (s ∷ q) ++ tail))

    by_number :
        (b : Bool)
        → greet config d udp timestamp t (masked t.key (datagram (s ∷ q) ++ tail)) ≡ (
            if b
            then after_first s.conv t (after_input (new_peer k) (concluded k r))
            else ok (Greeting.waits t))
        → Greeted s.conv t k r b
            (greet config d udp timestamp t (masked t.key (datagram (s ∷ q) ++ tail)))
    by_number true e =
        let (k', done) = concluded-Succeeds k r (
          omega
            (arith, some_room, mss-handle_all (s ∷ q) tail (start k (datagram (s ∷ q) ++ tail)))) in
        (k', done, e ∙ ap (λ o. after_first s.conv t (after_input (new_peer k) o)) done)
    by_number false e = e
