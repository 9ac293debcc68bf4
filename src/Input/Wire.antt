-- ===== src/Input/Wire.antt =====
-- The datagrams that KcpOutput::send makes, as `input` reads them on the other side.
use kcp_server.Base.{
  ◌≤◌, ◌≡◌, refl, ap, sym, true, Option, none, some, ◌++◌, take, drop, take-append_of,
  drop-append_of, take-append-drop, length, length-append, length-take, length-drop, arith,
  le→ltb_false,
}
use kcp_server.Segment.{Bytes}
use kcp_server.Cipher.{decode}
use kcp_server.Cipher.Laws.{decode-decode, length-decode}
use kcp_server.Control.{Kcp, wire_bytes}
use kcp_server.Input.{input, input_plain}

-- The bytes that go over the wire, with their first four in the clear.
abbrev pub masked : Option Bytes → Bytes → Bytes
masked key plain = take 4 plain ++ decode key (drop 4 plain)

-- To mask twice gives the bytes back.
pub masked_twice :
    (key : Option Bytes) (plain : Bytes) → 4 ≤ length plain → masked key (masked key plain) ≡ plain
masked_twice key plain h =
    let four : length (take 4 plain) ≡ 4 = omega (arith, length-take 4 plain, h) in
    rw
      (
        take-append_of 4 (take 4 plain) (decode key (drop 4 plain)) four,
        drop-append_of 4 (take 4 plain) (decode key (drop 4 plain)) four,
        decode-decode key (drop 4 plain),
      )
      (take-append-drop 4 plain)

pub length-masked : (key : Option Bytes) (plain : Bytes) → length (masked key plain) ≡ length plain
length-masked key plain = omega (
  arith,
  length-append (take 4 plain) (decode key (drop 4 plain)),
  length-decode key (drop 4 plain),
  length-take 4 plain,
  length-drop 4 plain,
)

pub wire_bytes-masked :
    (key : Option Bytes) (plain : Bytes)
    → 4 ≤ length plain
    → wire_bytes key plain ≡ some (masked key plain)
unfolding wire_bytes decode
wire_bytes-masked none plain h = ap some (sym (take-append-drop 4 plain))
wire_bytes-masked (some key) plain h = rw (le→ltb_false (length plain) 4 h) refl

pub input-masked :
    (k : Kcp) (plain : Bytes)
    → 4 ≤ length plain
    → input k (masked k.output.key plain) true ≡ input_plain k plain
unfolding input
input-masked k plain h =
    rw
      (le→ltb_false (length (masked k.output.key plain)) 4
        (omega (arith, h, length-masked k.output.key plain)))
      (ap (input_plain k) (masked_twice k.output.key plain h))

-- What one side sends under a key, the other side's `input` reads under that key as if it had been
-- sent in the clear, whatever bytes the buffer holds, four at least, and with no key too.
pub input-wire_bytes :
    (k : Kcp) (plain : Bytes)
    → 4 ≤ length plain
    → (wire : Bytes) × (wire_bytes k.output.key plain ≡ some wire)
      × (input k wire true ≡ input_plain k plain)
input-wire_bytes k plain h =
    (masked k.output.key plain, wire_bytes-masked k.output.key plain h, input-masked k plain h)
