-- ===== src/Flush/Plan.antt =====
-- The segments that `flush` of src/kcp/kcp_module/kcp.rs sends, as a list: no datagrams, no buffer, no
-- errors.
use kcp_server.Base.{
  Bool, ◌||◌, leb, leb_ℤ, pos, ℕ, Option, List, [], ◌∷◌, ◌++◌, ltb, ◌==◌, if◌then◌else◌, bit_and,
  u32_max,
}
use kcp_server.Segment.{Bytes, KcpSegment, new_with_data, cmd_wask, cmd_wins}
use kcp_server.Control.{Kcp, timediff, ask_send, ask_tell}
use kcp_server.Input.Wire.{masked}
use kcp_server.Flush.{ack_segment, probe_wnd_size, fill_window, send_window}

-- One acknowledgement for each entry of the list.
abbrev pub acks_of : KcpSegment → List (ℕ × ℕ) → List KcpSegment
acks_of s [] = []
acks_of s ((sn, ts) ∷ acks) = record s { sn = sn; ts = ts } ∷ acks_of s acks

-- The header as the last acknowledgement leaves it.
abbrev pub last_ack : KcpSegment → List (ℕ × ℕ) → KcpSegment
last_ack s [] = s
last_ack s ((sn, ts) ∷ acks) = last_ack (record s { sn = sn; ts = ts }) acks

-- A probe, where it is asked for.
abbrev pub probe_of : ℕ → ℕ → ℕ → KcpSegment → List KcpSegment
probe_of probe ask cmd s = if bit_and probe ask == 0 then [] else record s { cmd = cmd } ∷ []

abbrev pub probes_of : Kcp → KcpSegment → List KcpSegment
probes_of k s = probe_of k.probe ask_send cmd_wask s ++ probe_of k.probe ask_tell cmd_wins s

-- A segment of the send buffer is due where it was never sent, its time is up, or it was skipped
-- often enough.
abbrev pub is_due : ℕ → Kcp → KcpSegment → Bool
is_due resent k s =
    (s.xmit == 0) || (leb_ℤ (pos 0) (timediff k.current s.resendts) || leb resent s.fastack)

-- What goes out of it.
abbrev pub sent_as : ℕ → Kcp → KcpSegment → KcpSegment
sent_as wnd k s = record (new_with_data s.payload) {
  conv = s.conv;
  cmd = s.cmd;
  frg = s.frg;
  wnd = wnd;
  ts = k.current;
  sn = s.sn;
  una = k.rcv_nxt;
}

abbrev pub due_of : ℕ → ℕ → Kcp → KcpSegment → List KcpSegment
due_of wnd resent k s = if is_due resent k s then sent_as wnd k s ∷ [] else []

abbrev pub pushes_of : ℕ → ℕ → Kcp → List KcpSegment → List KcpSegment
pushes_of wnd resent k [] = []
pushes_of wnd resent k (s ∷ q) = due_of wnd resent k s ++ pushes_of wnd resent k q

-- The state with its acknowledgements out, which then looks at the remote window.
abbrev pub probing : Kcp → Kcp
probing k = probe_wnd_size (record k { acklist = [] })

-- The state with its probes out, which then fills the window.
abbrev pub windowed : Kcp → Kcp
windowed k =
    let k2 : Kcp = record (probing k) { probe = 0 } in
    fill_window (ack_segment k).wnd (send_window k2) k2.snd_queue k2

-- The segments of the send buffer that go out.
abbrev pub pushed : ℕ → Kcp → List KcpSegment
pushed wnd k = pushes_of wnd (if ltb 0 k.fastresend then k.fastresend else u32_max) k k.snd_buf

-- The acknowledgements, then the probes, and then, with the window filled, the segments of the send
-- buffer that were never sent, whose time is up, or that were skipped often enough.
abbrev pub plan : Kcp → List KcpSegment
plan k =
    let header = ack_segment k in
    acks_of header k.acklist
    ++ (probes_of (probing k) (last_ack header k.acklist) ++ pushed header.wnd (windowed k))

-- What was ever sent, without the key and the cuts into datagrams.
abbrev pub unmasked : Option Bytes → List Bytes → Bytes
unmasked key [] = []
unmasked key (d ∷ ds) = masked key d ++ unmasked key ds

-- All that was sent and is about to be.
abbrev pub wired : Kcp → Bytes
wired k = unmasked k.output.key k.output.sent ++ k.buf
