-- ===== src/Segment.antt =====
-- KcpSegment of src/kcp/kcp_module/kcp.rs, and the wire format of its header.
pub mod RoundTrip
use kcp_server.Base.{
  ℕ, ◌+◌, ◌-◌, ◌*◌, ◌/◌, ◌%◌, ◌<◌, Option, none, some, List, [], ◌∷◌, ◌++◌, ltb, if◌then◌else◌,
  length, as_u8, as_u32, usize_max, u8_mod, u16_mod, u32_mod,
}

-- A byte is a number below 256.
abbrev pub Bytes : Type 0
Bytes = List ℕ

-- KCP_CMD_PUSH, KCP_CMD_ACK, KCP_CMD_WASK, KCP_CMD_WINS.
abbrev pub cmd_push : ℕ
cmd_push = 81

abbrev pub cmd_ack : ℕ
cmd_ack = 82

abbrev pub cmd_wask : ℕ
cmd_wask = 83

abbrev pub cmd_wins : ℕ
cmd_wins = 84

-- KCP_OVERHEAD, the header's length.
abbrev pub overhead : ℕ
overhead = 24

pub record KcpSegment : Type 0 where
  pub conv : ℕ
  pub cmd : ℕ
  pub frg : ℕ
  pub wnd : ℕ
  pub ts : ℕ
  pub sn : ℕ
  pub una : ℕ
  pub resendts : ℕ
  pub rto : ℕ
  pub fastack : ℕ
  pub xmit : ℕ
  pub payload : Bytes

abbrev pub new_with_data : Bytes → KcpSegment
new_with_data bytes = record {
  conv = 0;
  cmd = 0;
  frg = 0;
  wnd = 0;
  ts = 0;
  sn = 0;
  una = 0;
  resendts = 0;
  rto = 0;
  fastack = 0;
  xmit = 0;
  payload = bytes;
}

-- BufMut: put_u8, put_u16_le and put_u32_le.
abbrev pub put_u8 : ℕ → Bytes
put_u8 v = as_u8 v ∷ []

abbrev pub put_u16_le : ℕ → Bytes
put_u16_le v = as_u8 v ∷ as_u8 (v / 256) ∷ []

abbrev pub put_u32_le : ℕ → Bytes
put_u32_le v = as_u8 v ∷ as_u8 (v / 256) ∷ as_u8 (v / 65536) ∷ as_u8 (v / 16777216) ∷ []

-- Buf: the readers take the bytes from the front; `none` is their panic on a short buffer.
abbrev pub get_u8 : Bytes → Option (ℕ × Bytes)
get_u8 (a ∷ r) = some (a, r)
get_u8 _ = none

abbrev pub get_u16_le : Bytes → Option (ℕ × Bytes)
get_u16_le (a ∷ b ∷ r) = some (a + 256 * b, r)
get_u16_le _ = none

abbrev pub get_u32_le : Bytes → Option (ℕ × Bytes)
get_u32_le (a ∷ b ∷ c ∷ d ∷ r) = some (a + 256 * b + 65536 * c + 16777216 * d, r)
get_u32_le _ = none

unfoldable pub encoded_len : KcpSegment → ℕ
encoded_len s = overhead + length s.payload

-- The bytes that `encode` puts.
unfoldable pub header_bytes : KcpSegment → Bytes
header_bytes s =
    put_u32_le s.conv
    ++ put_u8 s.cmd
    ++ put_u8 s.frg
    ++ put_u16_le s.wnd
    ++ put_u32_le s.ts
    ++ put_u32_le s.sn
    ++ put_u32_le s.una
    ++ put_u32_le (as_u32 (length s.payload))

unfoldable pub segment_bytes : KcpSegment → Bytes
unfolding header_bytes
segment_bytes s = header_bytes s ++ s.payload

-- `encode` appends to the buffer; `none` is its panic. BytesMut grows, and its remaining_mut is
-- what the buffer's length leaves of usize.
unfoldable pub encode : KcpSegment → Bytes → Option Bytes
unfolding segment_bytes encoded_len
encode s buf =
    if ltb (usize_max - length buf) (encoded_len s) then none else some (buf ++ segment_bytes s)

-- The free functions get_conv and set_conv; `none` is their assertion.
unfoldable pub get_conv : Bytes → Option (ℕ × Bytes)
get_conv buf = if ltb (length buf) overhead then none else get_u32_le buf

unfoldable pub set_conv : Bytes → ℕ → Option Bytes
set_conv buf conv = if ltb (length buf) overhead then none else some (buf ++ put_u32_le conv)

infixl 5 ◌>>=◌
abbrev ◌>>=◌ {ℓ κ} : {A : Type ℓ} {B : Type κ} → Option A → (A → Option B) → Option B
none >>= f = none
some a >>= f = f a

-- The fields of the header behind the conversation, the payload's length, and what follows.
unfoldable pub read_header : ℕ → Bytes → Option (KcpSegment × ℕ × Bytes)
read_header conv b0 = do
  (cmd, b1) ← get_u8 b0
  (frg, b2) ← get_u8 b1
  (wnd, b3) ← get_u16_le b2
  (ts, b4) ← get_u32_le b3
  (sn, b5) ← get_u32_le b4
  (una, b6) ← get_u32_le b5
  (len, b7) ← get_u32_le b6
  some (
    record (new_with_data []) {
      conv = conv;
      cmd = cmd;
      frg = frg;
      wnd = wnd;
      ts = ts;
      sn = sn;
      una = una;
    },
    len,
    b7,
  )
