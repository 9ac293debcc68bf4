-- ===== src/Input/Reads.antt =====
-- Where enough bytes lie ahead, the reads of `input` succeed.
use kcp_server.Base.{ℕ, ◌+◌, ◌*◌, ◌≤◌, ◌≡◌, refl, ◌∙◌, ap, some, [], ◌∷◌, length, arith}
use kcp_server.Segment.{Bytes, KcpSegment, new_with_data, get_u32_le, read_header}

pub get_u32_le_lem :
    (b : Bytes)
    → 4 ≤ length b
    → (v : ℕ) × (rest : Bytes) × (get_u32_le b ≡ some (v, rest)) × (length b ≡ 4 + length rest)
get_u32_le_lem [] h = absurd (omega arith)
get_u32_le_lem (x ∷ []) h = absurd (omega arith)
get_u32_le_lem (x ∷ y ∷ []) h = absurd (omega arith)
get_u32_le_lem (x ∷ y ∷ z ∷ []) h = absurd (omega arith)
get_u32_le_lem (x ∷ y ∷ z ∷ w ∷ b) h =
    (x + 256 * y + 65536 * z + 16777216 * w, b, refl, omega arith)

-- Four bytes of a command, a fragment number and a window.
quad_lem : (b : Bytes) → 4 ≤ length b → (x y z w : ℕ) × (rest : Bytes) × (b ≡ x ∷ y ∷ z ∷ w ∷ rest)
quad_lem [] h = absurd (omega arith)
quad_lem (x ∷ []) h = absurd (omega arith)
quad_lem (x ∷ y ∷ []) h = absurd (omega arith)
quad_lem (x ∷ y ∷ z ∷ []) h = absurd (omega arith)
quad_lem (x ∷ y ∷ z ∷ w ∷ b) h = (x, y, z, w, b, refl)

-- The segment that the reads of a header give.
abbrev pub header_of : ℕ → ℕ → ℕ → ℕ → ℕ → ℕ → ℕ → KcpSegment
header_of conv cmd frg wnd ts sn una = record (new_with_data []) {
  conv = conv;
  cmd = cmd;
  frg = frg;
  wnd = wnd;
  ts = ts;
  sn = sn;
  una = una;
}

pub read_header-steps :
    (conv x y z w ts sn una len : ℕ) (b1 b2 b3 b4 b5 : Bytes)
    → get_u32_le b1 ≡ some (ts, b2)
    → get_u32_le b2 ≡ some (sn, b3)
    → get_u32_le b3 ≡ some (una, b4)
    → get_u32_le b4 ≡ some (len, b5)
    → read_header conv (x ∷ y ∷ z ∷ w ∷ b1)
      ≡ some (header_of conv x y (z + 256 * w) ts sn una, len, b5)
unfolding read_header
read_header-steps conv x y z w ts sn una len b1 b2 b3 b4 b5 e2 e3 e4 e5 = rw (e2, e3, e4, e5) refl

-- A header's twenty bytes behind the conversation can be read.
pub read_header_lem :
    (conv : ℕ) (b : Bytes)
    → 20 ≤ length b
    → (s : KcpSegment) × (len : ℕ) × (rest : Bytes) × (read_header conv b ≡ some (s, len, rest))
      × (length b ≡ 20 + length rest)
read_header_lem conv b h =
    let (x, y, z, w, b1, e1) = quad_lem b (omega (arith, h)) in
    let n1 : length b ≡ 4 + length b1 = omega (arith, ap length e1) in
    let (ts, b2, e2, n2) = get_u32_le_lem b1 (omega (arith, h, n1)) in
    let (sn, b3, e3, n3) = get_u32_le_lem b2 (omega (arith, h, n1, n2)) in
    let (una, b4, e4, n4) = get_u32_le_lem b3 (omega (arith, h, n1, n2, n3)) in
    let (len, b5, e5, n5) = get_u32_le_lem b4 (omega (arith, h, n1, n2, n3, n4)) in
    let e = read_header-steps conv x y z w ts sn una len b1 b2 b3 b4 b5 e2 e3 e4 e5 in
    (
      header_of conv x y (z + 256 * w) ts sn una,
      len,
      b5,
      ap (read_header conv) e1 ∙ e,
      omega (arith, n1, n2, n3, n4, n5),
    )
