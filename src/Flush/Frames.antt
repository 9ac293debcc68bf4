-- ===== src/Flush/Frames.antt =====
-- What a datagram is made of: encoded segments, one behind the other, under the cipher.
use kcp_server.Base.{
  some, ℕ, ◌<◌, ◌≡◌, ◌≢◌, refl, sym, ap, ◌∙◌, true, Option, List, [], ◌∷◌, ◌++◌, append_assoc,
  append-nil, length, get_elem?, All, All-append, arith, as_u8, as_u16, as_u32, u32_mod,
}
use kcp_server.Segment.{
  Bytes, KcpSegment, cmd_push, put_u8, put_u16_le, put_u32_le, header_bytes, segment_bytes,
}
use kcp_server.Segment.RoundTrip.{Fits}
use kcp_server.Input.{known_cmd}
use kcp_server.Input.Loop.{datagram}
use kcp_server.Input.Wire.{masked}

-- A segment as it goes over the wire, its fields cut to their widths.
abbrev pub narrowed : KcpSegment → KcpSegment
narrowed s = record s {
  conv = as_u32 s.conv;
  cmd = as_u8 s.cmd;
  frg = as_u8 s.frg;
  wnd = as_u16 s.wnd;
  ts = as_u32 s.ts;
  sn = as_u32 s.sn;
  una = as_u32 s.una;
}

put_u8-as_u8 : (v : ℕ) → put_u8 (as_u8 v) ≡ put_u8 v
put_u8-as_u8 v = ground arith

put_u16_le-as_u16 : (v : ℕ) → put_u16_le (as_u16 v) ≡ put_u16_le v
put_u16_le-as_u16 v = ground arith

put_u32_le-as_u32 : (v : ℕ) → put_u32_le (as_u32 v) ≡ put_u32_le v
put_u32_le-as_u32 v = ground arith

pub segment_bytes-narrowed : (s : KcpSegment) → segment_bytes (narrowed s) ≡ segment_bytes s
unfolding segment_bytes header_bytes
segment_bytes-narrowed s = λ i.
    put_u32_le-as_u32 s.conv i
    ++ put_u8-as_u8 s.cmd i
    ++ put_u8-as_u8 s.frg i
    ++ put_u16_le-as_u16 s.wnd i
    ++ put_u32_le-as_u32 s.ts i
    ++ put_u32_le-as_u32 s.sn i
    ++ put_u32_le-as_u32 s.una i
    ++ put_u32_le (as_u32 (length s.payload))
    ++ s.payload

-- What both ends of a connection have agreed on: which conversations are theirs, and the key.
pub record Terms : Type 1 where
  pub admits : ℕ → Type 0
  pub admits_cut : (c : ℕ) → admits c → admits (as_u32 c)
  pub key : Option Bytes

-- What was given to an end to be sent: the fragment number and the payload of each segment that got
-- a number, in order, of each that waits for one, and all the bytes.
pub record Log : Type 0 where
  pub numbered : List (ℕ × Bytes)
  pub waiting : List (ℕ × Bytes)
  pub given : Bytes

-- More segments have numbers, behind those that have.
abbrev pub Longer : Log → Log → Type 0
Longer L L' = (m : List (ℕ × Bytes)) × (L'.numbered ≡ L.numbered ++ m)

-- The first of those that wait get their numbers.
abbrev pub Moved : Log → Log → Type 0
Moved L L' =
    (m : List (ℕ × Bytes)) × (L'.numbered ≡ L.numbered ++ m) × (L.waiting ≡ m ++ L'.waiting)

pub Moved-refl : (L : Log) → Moved L L
Moved-refl L = ([], sym (append-nil L.numbered), refl)

pub Moved-Longer : (L L' : Log) → Moved L L' → Longer L L'
Moved-Longer L L' (m, e, w) = (m, e)

-- What a queue holds.
abbrev pub entries : List KcpSegment → List (ℕ × Bytes)
entries [] = []
entries (s ∷ q) = (as_u8 s.frg, s.payload) ∷ entries q

pub Longer-refl : (L : Log) → Longer L L
Longer-refl L = ([], sym (append-nil L.numbered))

-- The bytes of the numbered segments.
abbrev pub log_bytes : List (ℕ × Bytes) → Bytes
log_bytes [] = []
log_bytes ((frg, payload) ∷ q) = payload ++ log_bytes q

-- The log has these contents under this number.
abbrev pub Logged : Log → ℕ → ℕ → Bytes → Type 0
Logged L sn frg payload = (n : ℕ) × (get_elem? L.numbered n ≡ some (frg, payload)) × (sn ≡ as_u32 n)

-- A segment of a conversation that `C` admits, of a known command, with fields of their widths;
-- a push has the contents that the log has under its number.
pub record IsFormed (C : Terms) (L : Log) (s : KcpSegment) : Type 0 where
  pub fits : Fits s
  pub conv : C.admits s.conv
  pub command : known_cmd s.cmd ≡ true
  pub from_log : s.cmd ≡ cmd_push → Logged L s.sn s.frg s.payload

-- A row of such segments.
abbrev pub IsRow : Terms → Log → Bytes → Type 0
IsRow C L bytes = (q : List KcpSegment) × (bytes ≡ datagram q) × All (IsFormed C L) q

-- A datagram of them, under the key.
abbrev pub IsFrame : Terms → Log → Bytes → Type 0
IsFrame C L d =
    (q : List KcpSegment) × (d ≡ masked C.key (datagram q)) × (q ≢ []) × All (IsFormed C L) q

-- What `encode` may be given.
abbrev pub Sendable : Terms → Log → KcpSegment → Type 0
Sendable C L s =
    C.admits (as_u32 s.conv)
    × (known_cmd s.cmd ≡ true)
    × (s.cmd ≡ cmd_push → Logged L (as_u32 s.sn) (as_u8 s.frg) s.payload)

-- An acknowledgement or a probe.
abbrev pub Header : Terms → KcpSegment → Type 0
Header C s = C.admits (as_u32 s.conv) × (known_cmd s.cmd ≡ true) × (s.cmd ≢ cmd_push)

narrowed-IsFormed :
    (C : Terms) (L : Log) (s : KcpSegment)
    → Sendable C L s
    → length s.payload < u32_mod
    → IsFormed C L (narrowed s)
unfolding known_cmd
narrowed-IsFormed C L s (c, known, pushed) h = record {
  fits = record {
    conv_fits = omega arith;
    cmd_fits = omega arith;
    frg_fits = omega arith;
    wnd_fits = omega arith;
    ts_fits = omega arith;
    sn_fits = omega arith;
    una_fits = omega arith;
    len_fits = h;
  };
  conv = c;
  command = ground (arith, known);
  from_log = λ e. pushed (ground (arith, known, e));
}

pub datagram-append : (p q : List KcpSegment) → datagram (p ++ q) ≡ datagram p ++ datagram q
datagram-append [] q = refl
datagram-append (s ∷ p) q =
    ap (◌++◌ (segment_bytes s)) (datagram-append p q)
    ∙ sym (append_assoc (segment_bytes s) (datagram p) (datagram q))

pub IsRow-append :
    (C : Terms) (L : Log) (bytes : Bytes) (s : KcpSegment)
    → IsRow C L bytes
    → Sendable C L s
    → length s.payload < u32_mod
    → IsRow C L (bytes ++ segment_bytes s)
IsRow-append C L bytes s (q, e, v) ok h = (
  q ++ narrowed s ∷ [],
  ap (λ x. x ++ segment_bytes s) e
      ∙ (ap (λ x. datagram q ++ x)
            (sym (append-nil (segment_bytes (narrowed s)) ∙ segment_bytes-narrowed s))
          ∙ sym (datagram-append q (narrowed s ∷ []))),
  All-append (IsFormed C L) q (narrowed s ∷ []) v (narrowed-IsFormed C L s ok h, tt),
)
