-- ===== src/Segment/RoundTrip.antt =====
-- What `encode` writes is what the readers of `input` take.
use kcp_server.Base.{
  ℕ, ◌+◌, ◌-◌, ◌*◌, ◌/◌, as_u8, [], ◌≤◌, ◌<◌, ◌≡◌, refl, ◌∙◌, some, ◌++◌, ap, arith, length, as_u32,
  usize_max, u8_mod, u16_mod, u32_mod, le→ltb_false,
}
use kcp_server.Segment.{
  new_with_data, read_header, KcpSegment, Bytes, put_u8, put_u16_le, put_u32_le, get_u8, get_u16_le,
  get_u32_le, segment_bytes, encode, encoded_len,
}

-- The fields of a header that fit their machine types.
pub record Fits (s : KcpSegment) : Type 0 where
  pub conv_fits : s.conv < u32_mod
  pub cmd_fits : s.cmd < u8_mod
  pub frg_fits : s.frg < u8_mod
  pub wnd_fits : s.wnd < u16_mod
  pub ts_fits : s.ts < u32_mod
  pub sn_fits : s.sn < u32_mod
  pub una_fits : s.una < u32_mod
  pub len_fits : length s.payload < u32_mod

pub get-put_u8 : (v : ℕ) (r : Bytes) → v < u8_mod → get_u8 (put_u8 v ++ r) ≡ some (v, r)
get-put_u8 v r h = ap (λ x. some (x, r)) (omega arith)

pub get-put_u16_le :
    (v : ℕ) (r : Bytes) → v < u16_mod → get_u16_le (put_u16_le v ++ r) ≡ some (v, r)
get-put_u16_le v r h = ap (λ x. some (x, r)) (omega arith)

pub get-put_u32_le :
    (v : ℕ) (r : Bytes) → v < u32_mod → get_u32_le (put_u32_le v ++ r) ≡ some (v, r)
get-put_u32_le v r h = ap (λ x. some (x, r)) (omega arith)

pub length-segment_bytes : (s : KcpSegment) → length (segment_bytes s) ≡ encoded_len s
unfolding segment_bytes encoded_len
length-segment_bytes s = omega arith

-- `encode` does not panic while the buffer stays below the size of the address space.
pub encode_room :
    (s : KcpSegment) (buf : Bytes)
    → length buf + encoded_len s ≤ usize_max
    → encode s buf ≡ some (buf ++ segment_bytes s)
unfolding encode
encode_room s buf h = rw (le→ltb_false (usize_max - length buf) (encoded_len s) (omega arith))

-- The segment that a reader makes of the header and the payload.
unfoldable pub on_wire : KcpSegment → KcpSegment
on_wire s = record (new_with_data s.payload) {
  conv = s.conv;
  cmd = s.cmd;
  frg = s.frg;
  wnd = s.wnd;
  ts = s.ts;
  sn = s.sn;
  una = s.una;
}

u8_back : (v : ℕ) → v < u8_mod → as_u8 v ≡ v
u8_back v h = omega arith

u16_back : (v : ℕ) → v < u16_mod → as_u8 v + 256 * as_u8 (v / 256) ≡ v
u16_back v h = omega arith

u32_back :
    (v : ℕ)
    → v < u32_mod
    → as_u8 v + 256 * as_u8 (v / 256) + 65536 * as_u8 (v / 65536) + 16777216 * as_u8 (v / 16777216)
      ≡ v
u32_back v h = omega arith

-- The bytes of a header behind its conversation.
abbrev pub after_conv : KcpSegment → Bytes → Bytes
after_conv s rest =
    put_u8 s.cmd
    ++ put_u8 s.frg
    ++ put_u16_le s.wnd
    ++ put_u32_le s.ts
    ++ put_u32_le s.sn
    ++ put_u32_le s.una
    ++ put_u32_le (as_u32 (length s.payload))
    ++ s.payload
    ++ rest

pub read_header-put :
    (s : KcpSegment) (rest : Bytes)
    → Fits s
    → read_header s.conv (after_conv s rest)
      ≡ some (record (on_wire s) { payload = [] }, length s.payload, s.payload ++ rest)
unfolding read_header on_wire
read_header-put s rest f =
    let len : as_u32 (length s.payload) ≡ length s.payload = omega arith in
    rw (
      len,
      u8_back s.cmd f.cmd_fits,
      u8_back s.frg f.frg_fits,
      u16_back s.wnd f.wnd_fits,
      u32_back s.ts f.ts_fits,
      u32_back s.sn f.sn_fits,
      u32_back s.una f.una_fits,
      u32_back (length s.payload) f.len_fits,
    )

pub segment_bytes-split :
    (s : KcpSegment) (rest : Bytes)
    → segment_bytes s ++ rest ≡ put_u32_le s.conv ++ after_conv s rest
unfolding segment_bytes
segment_bytes-split s rest = refl

-- A segment whose fields fit their machine types can be encoded, and the readers of `input` take
-- from its bytes, whatever follows them, its conversation, its header, its length and its payload.
pub encode-read_header :
    (s : KcpSegment) (rest : Bytes)
    → Fits s
    → (bytes after : Bytes) × (encode s [] ≡ some bytes)
      × (get_u32_le (bytes ++ rest) ≡ some (s.conv, after))
      × (read_header s.conv after
          ≡ some (record (on_wire s) { payload = [] }, length s.payload, s.payload ++ rest))
unfolding encoded_len
encode-read_header s rest f = (
  segment_bytes s,
  after_conv s rest,
  encode_room s [] (omega (arith, f.len_fits)),
  ap get_u32_le (segment_bytes-split s rest)
      ∙ get-put_u32_le s.conv (after_conv s rest) f.conv_fits,
  read_header-put s rest f,
)
