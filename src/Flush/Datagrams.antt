-- ===== src/Flush/Datagrams.antt =====
-- The datagrams that `flush` hands to the UDP peer: none is longer than the MTU.
use kcp_server.Base.{
  ◌≢◌, as_u8, as_u32, ℕ, ◌⊎◌, ◌+◌, ◌≤◌, ◌<◌, ◌≡◌, ◌^◌, refl, ◌∙◌, ap, true, Option, none, some,
  List, [], ◌∷◌, ◌++◌, length, length-append, All, All-append, arith, ltb, Bool-cases, inl, inr,
  ltb_false→le, ltb→lt,
}
use kcp_server.Error.{IoError}
use kcp_server.Segment.{cmd_push, Bytes, KcpSegment, encoded_len, segment_bytes, overhead}
use kcp_server.Segment.RoundTrip.{encode_room, length-segment_bytes}
use kcp_server.Control.{Kcp, UdpSend, answered, send_wire, send_buf}
use kcp_server.Outcome.{Ends, Ends-mono}
use kcp_server.Receive.Messages.{payloads}
use kcp_server.Flush.Frames.{
  Log, Terms, IsRow, IsFrame, Logged, log_bytes, entries, Sendable, IsRow-append,
}
use kcp_server.Input.Loop.{datagram}
use kcp_server.Input.Wire.{masked, length-masked, wire_bytes-masked}
use kcp_server.Flush.{make_room, encoded, append_segment}

-- A datagram that fits the MTU.
abbrev pub Short : ℕ → Bytes → Type 0
Short mtu d = length d ≤ mtu

abbrev pub FitsMtu : ℕ → KcpSegment → Type 0
FitsMtu mtu s = overhead + length s.payload ≤ mtu

-- A segment of the send buffer: it fits the MTU alone, and it is a push of a conversation that `C`
-- admits.
abbrev pub Waits : ℕ → Terms → Log → KcpSegment → Type 0
Waits mtu C L s =
    FitsMtu mtu s
    × C.admits (as_u32 s.conv)
    × (s.cmd ≡ cmd_push)
    × Logged L s.sn (as_u8 s.frg) s.payload

-- The conversation is one that `C` admits, and so is any that may be taken over; the buffer is a
-- row of segments, and all that was sent are datagrams of such rows under the key of `C`.
abbrev pub Framed : Terms → Log → Kcp → Type 0
Framed C L k =
    C.admits k.conv
    × (k.input_conv ≡ true → (c : ℕ) → C.admits c)
    × IsRow C L k.buf
    × All (IsFrame C L) k.output.sent
    × (k.output.key ≡ C.key)

-- The next number is behind those of the log, and what waits for one is behind the log's bytes, and
-- is what the log says.
abbrev pub IsLogged : Log → Kcp → Type 0
IsLogged L k =
    (k.snd_nxt ≡ as_u32 (length L.numbered))
    × (log_bytes L.numbered ++ payloads k.snd_queue ≡ L.given)
    × (entries k.snd_queue ≡ L.waiting)

-- The buffer is empty or holds a header at least and fits the MTU, so does all that was sent, and
-- each segment that waits fits the MTU alone, as does one that `send` makes; what was sent and what
-- is about to be are well-formed segments of the conversations that `C` admits.
pub record Tidy (mtu : ℕ) (C : Terms) (L : Log) (k : Kcp) : Type 0 where
  pub same_mtu : k.mtu ≡ mtu
  pub mss_bounds : (0 < k.mss) × (overhead + k.mss ≤ mtu)
  pub mtu_bounds : (50 ≤ mtu) × (mtu < 2 ^ 32)
  pub buf_fits : length k.buf ≤ mtu
  pub buf_whole : (k.buf ≡ []) ⊎ (overhead ≤ length k.buf)
  pub sent_fit : All (Short mtu) k.output.sent
  pub framed : Framed C L k
  pub queue_fits : All (FitsMtu mtu) k.snd_queue
  pub buffer_fits : All (Waits mtu C L) k.snd_buf
  pub logged : IsLogged L k

-- It hangs on these parts of the state alone.
pub Tidy-same :
    (mtu : ℕ) (C : Terms) (L : Log) (k k' : Kcp)
    → k'.mtu ≡ k.mtu
    → k'.mss ≡ k.mss
    → k'.buf ≡ k.buf
    → k'.output ≡ k.output
    → k'.snd_queue ≡ k.snd_queue
    → k'.snd_buf ≡ k.snd_buf
    → k'.conv ≡ k.conv
    → k'.input_conv ≡ k.input_conv
    → k'.snd_nxt ≡ k.snd_nxt
    → Tidy mtu C L k
    → Tidy mtu C L k'
Tidy-same mtu C L k k' a m b c d e f g h t = record {
  same_mtu = a ∙ t.same_mtu;
  mss_bounds = rw m t.mss_bounds;
  mtu_bounds = t.mtu_bounds;
  buf_fits = rw b t.buf_fits;
  buf_whole = rw b t.buf_whole;
  sent_fit = rw c t.sent_fit;
  framed = rw (f, g, b, c) t.framed;
  queue_fits = rw d t.queue_fits;
  buffer_fits = rw e t.buffer_fits;
  logged = rw (h, d) t.logged;
}

pub with_buffer :
    (mtu : ℕ) (C : Terms) (L : Log) (k : Kcp) (b : List KcpSegment)
    → Tidy mtu C L k
    → All (Waits mtu C L) b
    → Tidy mtu C L (record k { snd_buf = b })
with_buffer mtu C L k b t h = record {
  same_mtu = t.same_mtu;
  mss_bounds = t.mss_bounds;
  mtu_bounds = t.mtu_bounds;
  buf_fits = t.buf_fits;
  buf_whole = t.buf_whole;
  sent_fit = t.sent_fit;
  framed = t.framed;
  queue_fits = t.queue_fits;
  buffer_fits = h;
  logged = t.logged;
}

module _ (udp : UdpSend) (mtu : ℕ) (C : Terms) (L : Log) where
  -- `send_buf` of a buffer that holds something sends it and empties it, or fails and changes
  -- nothing.
  pub send_buf-Tidy :
      (k : Kcp)
      → Tidy mtu C L k
      → overhead ≤ length k.buf
      → Ends (λ k'. Tidy mtu C L k' × (k'.buf ≡ [])) (Tidy mtu C L) (send_buf udp k)
  unfolding send_buf
  send_buf-Tidy k t h =
      let d = masked k.output.key k.buf in
      rw (wire_bytes-masked k.output.key k.buf (omega (arith, h)), send_wire)
        (answer (length-masked k.output.key k.buf) (udp k.output.sent d))
    where
      filled : (q : List KcpSegment) → k.buf ≡ datagram q → q ≢ []
      filled q e none_there = absurd (omega (arith, h, ap length (e ∙ ap datagram none_there)))

      answer :
          length (masked k.output.key k.buf) ≡ length k.buf
          → (a : Option IoError)
          → Ends
              (λ k'. Tidy mtu C L k' × (k'.buf ≡ []))
              (Tidy mtu C L)
              (answered k (masked k.output.key k.buf) a)
      answer size (some e) = t
      answer size none =
          let (admitted, taken, (q, e, row), frames, same_key) = t.framed in
          let framed_bytes =
            ap (masked k.output.key) e ∙ ap (λ key. masked key (datagram q)) same_key in
          (
            record {
              same_mtu = t.same_mtu;
              mss_bounds = t.mss_bounds;
              mtu_bounds = t.mtu_bounds;
              buf_fits = omega arith;
              buf_whole = inl refl;
              sent_fit =
                  All-append (Short mtu) k.output.sent (masked k.output.key k.buf ∷ []) t.sent_fit
                    (omega (arith, t.buf_fits, size), tt);
              framed = (
                admitted,
                taken,
                ([], refl, tt),
                All-append (IsFrame C L) k.output.sent (masked k.output.key k.buf ∷ []) frames
                    ((q, framed_bytes, filled q e, row), tt),
                same_key,
              );
              queue_fits = t.queue_fits;
              buffer_fits = t.buffer_fits;
              logged = t.logged;
            },
            refl,
          )

  -- Room for a segment: the buffer and the segment fit the MTU together.
  abbrev pub HasRoom : ℕ → Kcp → Type 0
  HasRoom need k = Tidy mtu C L k × (length k.buf + need ≤ mtu)

  pub make_room-HasRoom :
      (need : ℕ) (k : Kcp)
      → Tidy mtu C L k
      → need ≤ mtu
      → Ends (HasRoom need) (Tidy mtu C L) (make_room udp need k)
  unfolding make_room
  make_room-HasRoom need k t h = elim (Bool-cases (ltb k.mtu (length k.buf + need))) [
    | inl over ↦ rw over (
        Ends-mono _ _ (Tidy mtu C L) (send_buf udp k) (λ k' p. (p.0, omega (arith, ap length p.1)))
          (send_buf-Tidy k t (filled over t.buf_whole)))
    | inr under ↦ rw under (t, omega (arith, ltb_false→le _ _ under, t.same_mtu))
  ]
    where
      filled :
          ltb k.mtu (length k.buf + need) ≡ true
          → (k.buf ≡ []) ⊎ (overhead ≤ length k.buf)
          → overhead ≤ length k.buf
      filled over (inl e) = absurd (omega (arith, ap length e, t.same_mtu, ltb→lt _ _ over))
      filled over (inr e) = e

  pub append_segment-Tidy :
      (s : KcpSegment) (k : Kcp)
      → Sendable C L s
      → HasRoom (overhead + length s.payload) k
      → Ends (Tidy mtu C L) (Tidy mtu C L) (append_segment s k)
  unfolding append_segment encoded_len
  append_segment-Tidy s k ok (t, room) =
      rw (encode_room s k.buf (omega (arith, t.mtu_bounds)), encoded)
        (record {
          same_mtu = t.same_mtu;
          mss_bounds = t.mss_bounds;
          mtu_bounds = t.mtu_bounds;
          buf_fits = omega (arith, grown);
          buf_whole = inr (omega (arith, grown));
          sent_fit = t.sent_fit;
          framed = (
            t.framed.0,
            t.framed.1,
            IsRow-append C L k.buf s t.framed.2 ok (omega (arith, room, t.mtu_bounds)),
            t.framed.3,
            t.framed.4,
          );
          queue_fits = t.queue_fits;
          buffer_fits = t.buffer_fits;
          logged = t.logged;
        })
    where
      grown : length (k.buf ++ segment_bytes s) ≡ length k.buf + (24 + length s.payload)
      grown = omega (arith, length-append k.buf (segment_bytes s), length-segment_bytes s)
