-- ===== src/Input/Parses.antt =====
-- What the reads of `input` make of bytes: the fields of a header, from which `encode` would write
-- the same bytes again.
use kcp_server.Base.{
  ℕ, ◌+◌, ◌*◌, ◌/◌, ◌≤◌, ◌<◌, ◌≡◌, refl, ◌∙◌, ap, some, [], ◌∷◌, ◌++◌, length, All, arith, u8_mod,
  u16_mod, u32_mod, as_u8,
}
use kcp_server.Input.Reads.{header_of, read_header-steps}
use kcp_server.Segment.RoundTrip.{Fits}
use kcp_server.Segment.{
  overhead, Bytes, KcpSegment, put_u8, put_u16_le, put_u32_le, get_u32_le, read_header,
}

abbrev pub AreBytes : Bytes → Type 0
AreBytes b = All (λ x. x < u8_mod) b

-- A number of four bytes.
record Reads (b : Bytes) : Type 0 where
  value : ℕ
  rest : Bytes
  read : get_u32_le b ≡ some (value, rest)
  fits : value < u32_mod
  again : b ≡ put_u32_le value ++ rest
  size : length b ≡ 4 + length rest
  bytes : AreBytes rest

get_u32_le-Reads : (b : Bytes) → 4 ≤ length b → AreBytes b → Reads b
get_u32_le-Reads [] h a = absurd (omega arith)
get_u32_le-Reads (x ∷ []) h a = absurd (omega arith)
get_u32_le-Reads (x ∷ y ∷ []) h a = absurd (omega arith)
get_u32_le-Reads (x ∷ y ∷ z ∷ []) h a = absurd (omega arith)
get_u32_le-Reads (x ∷ y ∷ z ∷ w ∷ b) h (p, (q, (r, (s, a)))) = record {
  value = x + 256 * y + 65536 * z + 16777216 * w;
  rest = b;
  read = refl;
  fits = omega (arith, p, q, r, s);
  again = λ i. at0 i ∷ at1 i ∷ at2 i ∷ at3 i ∷ b;
  size = omega arith;
  bytes = a;
}
  where
    v : ℕ
    v = x + 256 * y + 65536 * z + 16777216 * w

    at0 : x ≡ as_u8 v
    at0 = omega (arith, p, q, r, s)

    at1 : y ≡ as_u8 (v / 256)
    at1 = omega (arith, p, q, r, s)

    at2 : z ≡ as_u8 (v / 65536)
    at2 = omega (arith, p, q, r, s)

    at3 : w ≡ as_u8 (v / 16777216)
    at3 = omega (arith, p, q, r, s)

-- The command, the fragment number and the window.
record Quad (b : Bytes) : Type 0 where
  cmd : ℕ
  frg : ℕ
  low : ℕ
  high : ℕ
  rest : Bytes
  whole : b ≡ cmd ∷ frg ∷ low ∷ high ∷ rest
  cmd_fits : cmd < u8_mod
  frg_fits : frg < u8_mod
  wnd_fits : low + 256 * high < u16_mod
  size : length b ≡ 4 + length rest
  again : b ≡ put_u8 cmd ++ put_u8 frg ++ put_u16_le (low + 256 * high) ++ rest
  bytes : AreBytes rest

read-Quad : (b : Bytes) → 4 ≤ length b → AreBytes b → Quad b
read-Quad [] h a = absurd (omega arith)
read-Quad (x ∷ []) h a = absurd (omega arith)
read-Quad (x ∷ y ∷ []) h a = absurd (omega arith)
read-Quad (x ∷ y ∷ z ∷ []) h a = absurd (omega arith)
read-Quad (x ∷ y ∷ z ∷ w ∷ b) h (p, (q, (r, (s, a)))) = record {
  cmd = x;
  frg = y;
  low = z;
  high = w;
  rest = b;
  whole = refl;
  cmd_fits = p;
  frg_fits = q;
  wnd_fits = omega (arith, r, s);
  again = λ i. at0 i ∷ at1 i ∷ at2 i ∷ at3 i ∷ b;
  size = omega arith;
  bytes = a;
}
  where
    at0 : x ≡ as_u8 x
    at0 = omega (arith, p)

    at1 : y ≡ as_u8 y
    at1 = omega (arith, q)

    at2 : z ≡ as_u8 (z + 256 * w)
    at2 = omega (arith, r)

    at3 : w ≡ as_u8 ((z + 256 * w) / 256)
    at3 = omega (arith, r, s)

-- The bytes were read as a header, whose fields have the widths of their types, and are those that
-- such a header is written as.
pub record Parsed (b : Bytes) : Type 0 where
  pub conv : ℕ
  pub behind : Bytes
  pub segment : KcpSegment
  pub len : ℕ
  pub rest : Bytes
  pub read_conv : get_u32_le b ≡ some (conv, behind)
  pub read : read_header conv behind ≡ some (segment, len, rest)
  pub widths : Fits segment
  pub len_width : len < u32_mod
  pub again :
      b
      ≡ put_u32_le segment.conv
        ++ put_u8 segment.cmd
        ++ put_u8 segment.frg
        ++ put_u16_le segment.wnd
        ++ put_u32_le segment.ts
        ++ put_u32_le segment.sn
        ++ put_u32_le segment.una
        ++ put_u32_le len
        ++ rest

-- The reads one behind the other.
parsed :
    {b : Bytes} (c : Reads b) (q : Quad c.rest) (ts : Reads q.rest) (sn : Reads ts.rest)
    (una : Reads sn.rest) (len : Reads una.rest)
    → Parsed b
parsed c q ts sn una len = record {
  conv = c.value;
  behind = c.rest;
  segment = header_of c.value q.cmd q.frg (q.low + 256 * q.high) ts.value sn.value una.value;
  len = len.value;
  rest = len.rest;
  read_conv = c.read;
  read =
      ap (read_header c.value) q.whole
      ∙ read_header-steps c.value q.cmd q.frg q.low q.high ts.value sn.value una.value len.value
          q.rest ts.rest sn.rest una.rest len.rest ts.read sn.read una.read len.read;
  widths = record {
    conv_fits = c.fits;
    cmd_fits = q.cmd_fits;
    frg_fits = q.frg_fits;
    wnd_fits = q.wnd_fits;
    ts_fits = ts.fits;
    sn_fits = sn.fits;
    una_fits = una.fits;
    len_fits = omega arith;
  };
  len_width = len.fits;
  again =
      c.again
      ∙ ap (λ x. put_u32_le c.value ++ x)
          (q.again
            ∙ ap (λ x. put_u8 q.cmd ++ put_u8 q.frg ++ put_u16_le (q.low + 256 * q.high) ++ x)
                (ts.again
                  ∙ ap (λ x. put_u32_le ts.value ++ x)
                      (sn.again
                        ∙ ap (λ x. put_u32_le sn.value ++ x)
                            (una.again ∙ ap (λ x. put_u32_le una.value ++ x) len.again))));
}

-- The reads of a header on any 24 bytes or more: they succeed, each field that they give has the
-- width of its type in the source, and to write the fields in the order of `encode`, with what is
-- left behind them, gives the same bytes again.
pub read_header-Parsed : (b : Bytes) → overhead ≤ length b → AreBytes b → Parsed b
read_header-Parsed b h a =
    let c = get_u32_le-Reads b (omega (arith, h)) a in
    let q = read-Quad c.rest (omega (arith, h, c.size)) c.bytes in
    let ts = get_u32_le-Reads q.rest (omega (arith, h, c.size, q.size)) q.bytes in
    let sn = get_u32_le-Reads ts.rest (omega (arith, h, c.size, q.size, ts.size)) ts.bytes in
    let una =
      get_u32_le-Reads sn.rest (omega (arith, h, c.size, q.size, ts.size, sn.size)) sn.bytes in
    let len =
      get_u32_le-Reads una.rest (omega (arith, h, c.size, q.size, ts.size, sn.size, una.size))
        una.bytes in
    parsed c q ts sn una len
