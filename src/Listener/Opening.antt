-- ===== src/Listener/Opening.antt =====
-- What a client gets from its task: a peer for its first segment, and then a service that ends.
use kcp_server.Base.{
  ℕ, ◌≤◌, ◌<◌, ◌≡◌, ◌≢◌, refl, ◌∙◌, ap, sym, true, false, Option, none, some, inl, inr, List, [],
  ◌∷◌, ◌++◌, length, length-append, append_assoc, drop, All, arith, leb, ◌==◌, if◌then◌else◌,
  u32_mod, as_u32, is_empty, Bool-cases,
}
use kcp_server.Segment.{Bytes, KcpSegment, overhead, segment_bytes, encoded_len, put_u32_le}
use kcp_server.Segment.RoundTrip.{Fits, length-segment_bytes, after_conv, segment_bytes-split}
use kcp_server.Cipher.{decode}
use kcp_server.Control.{Kcp, UdpSend}
use kcp_server.Outcome.{Outcome, ok, err, panic, Ends}
use kcp_server.Input.{input}
use kcp_server.Input.Loop.{IsValid, datagram, handle_all, start, concluded, input_plain-datagram}
use kcp_server.Input.Wire.{masked, masked_twice, length-masked}
use kcp_server.Input.Total.{input-Ends}
use kcp_server.Setup.{KcpConfig}
use kcp_server.Peer.{KcpPeer, new_peer, peer_input, after_input, set_broken_pipe, wake}
use kcp_server.Listener.{create_kcp_peer}
use kcp_server.Listener.Handshake.{
  DataRw, Task, Greeting, decode_greeting, after_first, first_input, open_peer, greet_segment,
  greet, after_served, serve,
}

-- data_rw reads numbers in little-endian order, and skips the bytes that are there.
pub record IsLittleEndian (d : DataRw) : Type 0 where
  pub read_le :
      (v : ℕ) (rest : Bytes) → v < u32_mod → d.read_fixed (put_u32_le v ++ rest) ≡ inr (v, rest)
  pub advance_le :
      (n : ℕ) (bytes : Bytes) → n ≤ length bytes → d.advance n bytes ≡ inr (drop n bytes)

-- The task's own cipher is that of KcpOutput.
decode_greeting-eq-decode :
    (key : Option Bytes) (bytes : Bytes) → decode_greeting key bytes ≡ decode key bytes
unfolding decode_greeting decode
decode_greeting-eq-decode none bytes = refl
decode_greeting-eq-decode (some key) bytes = elim (Bool-cases (is_empty key)) [
  | inl e ↦ rw e refl
  | inr e ↦ rw e refl
]

greet_segment_steps :
    (config : KcpConfig) (d : DataRw) (timestamp : ℕ) (t : Task) (plain rest rest' rest'' : Bytes)
    (conv sn : ℕ)
    → d.read_fixed plain ≡ inr (conv, rest)
    → d.advance 8 rest ≡ inr rest'
    → d.read_fixed rest' ≡ inr (sn, rest'')
    → greet_segment config d timestamp t plain ≡ open_peer config timestamp t plain conv sn
unfolding greet_segment
greet_segment_steps config d timestamp t plain rest rest' rest'' conv sn e1 e2 e3 =
    rw (e1, e2, e3) refl

-- The header's reads give the conversation and the number of the first segment.
greet_segment-segment_bytes :
    (config : KcpConfig) (d : DataRw) (timestamp : ℕ) (t : Task) (s : KcpSegment) (rest : Bytes)
    → IsLittleEndian d
    → Fits s
    → greet_segment config d timestamp t (segment_bytes s ++ rest)
      ≡ open_peer config timestamp t (segment_bytes s ++ rest) s.conv s.sn
greet_segment-segment_bytes config d timestamp t s rest le f =
    greet_segment_steps config d timestamp t (segment_bytes s ++ rest) (after_conv s rest)
      (put_u32_le s.sn ++ after_sn) after_sn s.conv s.sn
      (ap d.read_fixed (segment_bytes-split s rest)
        ∙ le.read_le s.conv (after_conv s rest) f.conv_fits)
      (le.advance_le 8 (after_conv s rest) (omega arith)) (le.read_le s.sn after_sn f.sn_fits)
  where
    after_sn : Bytes
    after_sn = put_u32_le s.una ++ put_u32_le (as_u32 (length s.payload)) ++ s.payload ++ rest

greet_long :
    (config : KcpConfig) (d : DataRw) (udp : UdpSend) (timestamp : ℕ) (t : Task) (plain : Bytes)
    → 24 ≤ length plain
    → greet config d udp timestamp t (masked t.key plain) ≡ greet_segment config d timestamp t plain
unfolding greet
greet_long config d udp timestamp t plain h =
    let wire = masked t.key plain in
    let long : leb 24 (length wire) ≡ true = ground (arith, h, length-masked t.key plain) in
    rw (long, decode_greeting-eq-decode t.key (drop 4 wire))
      (ap (greet_segment config d timestamp t) (masked_twice t.key plain (omega (arith, h))))

-- The peer of a new control block, at its first datagram.
open_peer-datagram :
    (config : KcpConfig) (timestamp : ℕ) (t : Task) (k : Kcp) (conv sn : ℕ) (q : List KcpSegment)
    (tail : Bytes)
    → All (IsValid k.conv) q
    → q ≢ []
    → length tail < overhead
    → create_kcp_peer config timestamp conv t.key ≡ ok k
    → open_peer config timestamp t (datagram q ++ tail) conv sn ≡ (
        if sn == 0
        then after_first conv t (
            after_input
              (new_peer k)
              (concluded k (handle_all q tail (start k (datagram q ++ tail)))))
        else ok (Greeting.waits t))
unfolding open_peer first_input peer_input new_peer input
open_peer-datagram config timestamp t k conv sn q tail valid some_q short made =
    rw (made, (input_plain-datagram k q tail valid some_q short).0) refl

-- A datagram of valid segments of one conversation, with less than a header behind them, masked
-- under the key that the client gave, where data_rw reads little-endian numbers and the
-- configuration makes a control block for the conversation: the task opens a peer for it exactly
-- where the first segment has number 0, and the new control block handles every segment of the
-- datagram in order, as one that got it in the clear.
pub greet-datagram :
    (config : KcpConfig) (d : DataRw) (udp : UdpSend) (timestamp : ℕ) (t : Task) (k : Kcp)
    (s : KcpSegment) (q : List KcpSegment) (tail : Bytes)
    → IsLittleEndian d
    → All (IsValid k.conv) (s ∷ q)
    → length tail < overhead
    → create_kcp_peer config timestamp s.conv t.key ≡ ok k
    → greet config d udp timestamp t (masked t.key (datagram (s ∷ q) ++ tail)) ≡ (
        if s.sn == 0
        then after_first s.conv t (
            after_input
              (new_peer k)
              (concluded k (handle_all (s ∷ q) tail (start k (datagram (s ∷ q) ++ tail)))))
        else ok (Greeting.waits t))
unfolding encoded_len
greet-datagram config d udp timestamp t k s q tail le valid short made =
    let plain = datagram (s ∷ q) ++ tail in
    let apart : plain ≡ segment_bytes s ++ (datagram q ++ tail) =
      append_assoc (segment_bytes s) (datagram q) tail in
    let long : 24 ≤ length plain = omega (
      arith,
      ap length apart,
      length-append (segment_bytes s) (datagram q ++ tail),
      length-segment_bytes s,
    ) in
    greet_long config d udp timestamp t plain long
    ∙ (ap (greet_segment config d timestamp t) apart
        ∙ (greet_segment-segment_bytes config d timestamp t s (datagram q ++ tail) le valid.0.fits
            ∙ (ap (λ bytes. open_peer config timestamp t bytes s.conv s.sn) (sym apart)
                ∙ open_peer-datagram config timestamp t k s.conv s.sn (s ∷ q) tail valid (λ e. cc)
                    short made)))

abbrev pub BreaksPipe : KcpPeer → List Bytes → Type 0
BreaksPipe p datagrams =
    (p' : KcpPeer) × (serve p datagrams ≡ ok p')
    × (p'.is_broken_pipe ≡ true)
    × (p'.registered ≡ false)

-- The service of a peer whose segment size is above 0 ends for every list of datagrams of at least
-- four bytes each, also where `input` refuses one: it leaves the pipe broken, and no waker in its
-- slot.
pub serve-broken :
    (p : KcpPeer) (datagrams : List Bytes)
    → 0 < p.kcp.mss
    → All (λ bytes. 4 ≤ length bytes) datagrams
    → BreaksPipe p datagrams
unfolding serve set_broken_pipe peer_input
serve-broken p [] h d = (set_broken_pipe p, refl, refl, refl)
serve-broken p (bytes ∷ more) h d =
    served (input p.kcp bytes true) (input-Ends p.kcp bytes true h (inr d.0)) refl
      (λ p2 h2. serve-broken p2 more h2 d.1)
  where
    served :
        (o : Outcome Kcp (ℕ × Kcp))
        → Ends
            (λ (x : ℕ × Kcp). (x.0 ≤ length bytes) × (x.1.mss ≡ p.kcp.mss))
            (λ k. k.mss ≡ p.kcp.mss)
            o
        → input p.kcp bytes true ≡ o
        → ((p2 : KcpPeer) → 0 < p2.kcp.mss → BreaksPipe p2 more)
        → BreaksPipe p (bytes ∷ more)
    served (ok (n, k)) e r next =
        let p2 = record (wake (record p { kcp = k })) { next_update_time = 0 } in
        let (p', ended, broken, woken) = next p2 (omega (arith, h, e.1)) in
        (p', rw (r, after_input, after_served) ended, broken, woken)
    served (err x k) e r next =
        (set_broken_pipe (record p { kcp = k }), rw (r, after_input, after_served) refl, refl, refl)
    served panic e r next = absurd e
