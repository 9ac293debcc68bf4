-- ===== src/Control.antt =====
-- struct Kcp of src/kcp/kcp_module/kcp.rs: its state, its constructors and its plain accessors.
pub mod Serial
use kcp_server.Base.{
  ℕ, ◌+◌, ◌-◌, Bool, true, false, not, Option, none, some, List, [], ◌++◌, ◌∷◌, length, ltb, leb,
  ◌==◌, if◌then◌else◌, take, drop, as_u32, add_u32, sub_u32, ℤ, pos, sub_i32, as_i32,
}
use kcp_server.Error.{Error, IoError}
use kcp_server.Segment.{Bytes, KcpSegment, overhead}
use kcp_server.Cipher.{decode}
use kcp_server.Outcome.{Outcome, ok, err, panic}

-- KCP_RTO_NDL, KCP_RTO_MIN, KCP_RTO_DEF, KCP_RTO_MAX.
abbrev pub rto_ndl : ℕ
rto_ndl = 30

abbrev pub rto_min : ℕ
rto_min = 100

abbrev pub rto_def : ℕ
rto_def = 200

abbrev pub rto_max : ℕ
rto_max = 60000

-- KCP_ASK_SEND, KCP_ASK_TELL.
abbrev pub ask_send : ℕ
ask_send = 1

abbrev pub ask_tell : ℕ
ask_tell = 2

-- KCP_WND_SND, KCP_WND_RCV, KCP_MTU_DEF, KCP_INTERVAL.
abbrev pub wnd_snd : ℕ
wnd_snd = 32

abbrev pub wnd_rcv : ℕ
wnd_rcv = 128

abbrev pub mtu_def : ℕ
mtu_def = 1400

abbrev pub default_interval : ℕ
default_interval = 100

-- KCP_THRESH_INIT, KCP_THRESH_MIN, KCP_PROBE_INIT, KCP_PROBE_LIMIT.
abbrev pub thresh_init : ℕ
thresh_init = 2

abbrev pub thresh_min : ℕ
thresh_min = 2

abbrev pub probe_init : ℕ
probe_init = 7000

abbrev pub probe_limit : ℕ
probe_limit = 120000

-- `later as i32 - earlier as i32`.
unfoldable pub timediff : ℕ → ℕ → ℤ
timediff later earlier = sub_i32 (as_i32 later) (as_i32 earlier)

-- KcpOutput: `sent` holds the datagrams that the UDP peer took, oldest first.
pub record KcpOutput : Type 0 where
  pub sent : List Bytes
  pub key : Option Bytes

pub record Kcp : Type 0 where
  pub conv : ℕ
  pub mtu : ℕ
  pub mss : ℕ
  pub state : ℤ
  pub snd_una : ℕ
  pub snd_nxt : ℕ
  pub rcv_nxt : ℕ
  pub ssthresh : ℕ
  pub rx_rttval : ℕ
  pub rx_srtt : ℕ
  pub rx_rto : ℕ
  pub rx_minrto : ℕ
  pub snd_wnd : ℕ
  pub rcv_wnd : ℕ
  pub rmt_wnd : ℕ
  pub cwnd : ℕ
  pub probe : ℕ
  pub current : ℕ
  pub interval : ℕ
  pub ts_flush : ℕ
  pub xmit : ℕ
  pub nodelay : Bool
  pub updated : Bool
  pub ts_probe : ℕ
  pub probe_wait : ℕ
  pub dead_link : ℕ
  pub incr : ℕ
  pub snd_queue : List KcpSegment
  pub rcv_queue : List KcpSegment
  pub snd_buf : List KcpSegment
  pub rcv_buf : List KcpSegment
  pub acklist : List (ℕ × ℕ)
  pub buf : Bytes
  pub fastresend : ℕ
  pub nocwnd : Bool
  pub stream : Bool
  pub input_conv : Bool
  pub output : KcpOutput

unfoldable pub construct : ℕ → ℕ → Bool → Option Bytes → Kcp
construct conv current_ts stream key = record {
  conv = conv;
  mtu = mtu_def;
  mss = as_u32 (mtu_def - overhead);
  state = pos 0;
  snd_una = 0;
  snd_nxt = 0;
  rcv_nxt = 0;
  ssthresh = thresh_init;
  rx_rttval = 0;
  rx_srtt = 0;
  rx_rto = rto_def;
  rx_minrto = rto_min;
  snd_wnd = wnd_snd;
  rcv_wnd = wnd_rcv;
  rmt_wnd = wnd_rcv;
  cwnd = 0;
  probe = 0;
  current = current_ts;
  interval = default_interval;
  ts_flush = default_interval;
  xmit = 0;
  nodelay = false;
  updated = false;
  ts_probe = 0;
  probe_wait = 0;
  dead_link = 10;
  incr = 0;
  snd_queue = [];
  rcv_queue = [];
  snd_buf = [];
  rcv_buf = [];
  acklist = [];
  buf = [];
  fastresend = 0;
  nocwnd = false;
  stream = stream;
  input_conv = false;
  output = record { sent = []; key = key };
}

-- Kcp::new.
unfoldable pub new : ℕ → ℕ → Option Bytes → Kcp
unfolding construct
new conv current_ts key = construct conv current_ts false key

-- Kcp::new_stream.
unfoldable pub new_stream : ℕ → ℕ → Bool → Option Bytes → Kcp
unfolding construct
new_stream conv current_ts stream key = construct conv current_ts stream key

-- UDPPeer::send is not the crate's: what it answers to a datagram, given the datagrams taken
-- before it, is a parameter of whatever sends. `none` is success.
abbrev pub UdpSend : Type 0
UdpSend = List Bytes → Bytes → Option IoError

-- The datagram that KcpOutput::send makes of the buffer; `none` is the panic of `buff[4..]`.
unfoldable pub wire_bytes : Option Bytes → Bytes → Option Bytes
wire_bytes none bytes = some bytes
wire_bytes (some key) bytes =
    if ltb (length bytes) 4 then none else some (take 4 bytes ++ decode (some key) (drop 4 bytes))

-- The answer of the peer to a datagram: an error is passed on, and a success clears the buffer.
unfoldable pub answered : Kcp → Bytes → Option IoError → Outcome Kcp Kcp
answered k datagram (some e) = err (Error.io_error e) k
answered k datagram none =
    ok (record k { buf = []; output = record (k.output) { sent = k.output.sent ++ datagram ∷ [] } })

unfoldable pub send_wire : UdpSend → Kcp → Option Bytes → Outcome Kcp Kcp
unfolding answered
send_wire udp k none = panic
send_wire udp k (some datagram) = answered k datagram (udp k.output.sent datagram)

-- `self.output.send(&self.buf).await?; self.buf.clear()`.
unfoldable pub send_buf : UdpSend → Kcp → Outcome Kcp Kcp
unfolding wire_bytes send_wire
send_buf udp k = send_wire udp k (wire_bytes k.output.key k.buf)
