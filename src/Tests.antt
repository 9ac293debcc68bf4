-- ===== src/Tests.antt =====
-- Concrete runs of the program's definitions, and the theorems at concrete inputs.
mod Receiving
mod Sending
mod Reading
mod Flushing
mod Exchanging
mod Clock
mod Settings
mod Streaming
mod Listening
use kcp_server.Base.{ℕ, Option, none, true, false, List, [], ◌∷◌}
use kcp_server.Segment.{Bytes, KcpSegment, new_with_data, cmd_push}
use kcp_server.Control.{Kcp, UdpSend, new}

-- A control object of conversation 7, as `new` makes it and as the first update leaves it.
abbrev pub fresh : Kcp
unfolding new
fresh = new 7 0 none

abbrev pub running : Kcp
running = record (fresh) { updated = true }

-- A push segment of that conversation.
abbrev pub push : ℕ → Bytes → KcpSegment
push sn bytes = record (new_with_data bytes) { conv = 7; cmd = cmd_push; wnd = 128; sn = sn }

-- A UDP peer that takes every datagram.
abbrev pub takes_all : UdpSend
takes_all sent datagram = none
