-- ===== src/Transmit/Fragments.antt =====
-- How `send` cuts a message, and how the peer's `recv` puts it together.
use native.Mathlib.Nat.{div-add-mod, mod-lt}
use kcp_server.Base.{
  ℕ, zero, suc, ◌+◌, ◌*◌, ◌/◌, ◌%◌, ◌≤◌, ◌<◌, ◌≡◌, refl, ◌∙◌, ap, ◌⊎◌, inl, inr, Bool, true, false,
  List, [], ◌∷◌, ◌++◌, append_assoc, append-nil, length, length-take, length-drop, take, drop,
  take-append-drop, min, arith, leb, ◌==◌, Bool-cases, if◌then◌else◌, as_u8, All, ◌≢◌,
}
use mathlib.Core.Path.{ap₂}
use kcp_server.Error.{Error}
use kcp_server.Segment.{Bytes, KcpSegment, new_with_data}
use kcp_server.Control.{Kcp, wnd_rcv}
use kcp_server.Outcome.{ok, err}
use kcp_server.Receive.Messages.{payloads}
use kcp_server.Transmit.{fragment_count, push_fragments, send_rest}

-- The fragments of a message, by plain recursion.
unfoldable pub cut : Bool → ℕ → ℕ → Bytes → List KcpSegment
cut stream mss zero buf = []
cut stream mss (suc n) buf =
    record (new_with_data (take (min mss (length buf)) buf)) {
      frg = (if stream then 0 else as_u8 n);
    }
    ∷ cut stream mss n (drop (min mss (length buf)) buf)

-- Fragment numbers that fall to 0, which ends the message.
abbrev pub Countdown : ℕ → List KcpSegment → Type 0
Countdown zero [] = Unit {0}
Countdown zero (s ∷ q) = ⊥
Countdown (suc n) [] = ⊥
Countdown (suc n) (s ∷ q) = (s.frg ≡ n) × Countdown n q

push_fragments_lem :
    (stream : Bool) (mss n : ℕ) (buf : Bytes) (sent : ℕ) (q : List KcpSegment)
    → length buf ≤ n * mss
    → push_fragments stream mss n buf sent q ≡ (sent + length buf, q ++ cut stream mss n buf)
unfolding push_fragments cut
push_fragments_lem stream mss zero buf sent q h =
    let e : sent ≡ sent + length buf = omega arith in rw (append-nil, ← e)
push_fragments_lem stream mss (suc n) buf sent q h =
    push_fragments_lem stream mss n (drop size buf) (sent + size) _
      (grind (arith, length-drop size buf))
    ∙ ap₂ (λ a b. (a, b)) (omega (arith, length-drop size buf))
        (append_assoc q (head ∷ []) (cut stream mss n (drop size buf)))
  where
    size : ℕ
    size = min mss (length buf)

    head : KcpSegment
    head = record (new_with_data (take size buf)) { frg = (if stream then 0 else as_u8 n) }

-- The fragments hold the message, in order.
pub payloads-cut :
    (stream : Bool) (mss n : ℕ) (buf : Bytes)
    → length buf ≤ n * mss
    → payloads (cut stream mss n buf) ≡ buf
unfolding cut
payloads-cut stream mss zero [] h = refl
payloads-cut stream mss zero (b ∷ buf) h = absurd (omega arith)
payloads-cut stream mss (suc n) buf h =
    let size = min mss (length buf) in
    ap (◌++◌ (take size buf))
      (payloads-cut stream mss n (drop size buf) (grind (arith, length-drop size buf)))
    ∙ take-append-drop size buf

pub cut-Countdown : (mss n : ℕ) (buf : Bytes) → n ≤ 256 → Countdown n (cut false mss n buf)
unfolding cut
cut-Countdown mss zero buf h = tt
cut-Countdown mss (suc n) buf h =
    (omega arith, cut-Countdown mss n (drop (min mss (length buf)) buf) (omega arith))

pub cut-small :
    (stream : Bool) (mss n : ℕ) (buf : Bytes)
    → All (λ s. length s.payload ≤ mss) (cut stream mss n buf)
unfolding cut
cut-small stream mss zero buf = tt
cut-small stream mss (suc n) buf = (
  omega (arith, length-take (min mss (length buf)) buf),
  cut-small stream mss n (drop (min mss (length buf)) buf),
)

-- A count is the least that holds the message, and at least one.
abbrev pub IsLeast : ℕ → ℕ → ℕ → Type 0
IsLeast mss len n =
    (0 < n) × (len ≤ n * mss) × ((n ≡ 1) ⊎ ((m : ℕ) × (n ≡ suc m) × (m * mss < len)))

whole_IsLeast : (mss q len : ℕ) → 0 < mss → mss < len → mss * q ≡ len → IsLeast mss len q
whole_IsLeast mss zero len a b e = absurd (omega arith)
whole_IsLeast mss (suc q) len a b e = (omega arith, grind arith, inr (q, refl, grind arith))

part_IsLeast : (mss q r len : ℕ) → r < mss → r ≢ 0 → mss * q + r ≡ len → IsLeast mss len (q + 1)
part_IsLeast mss q r len a b e = (omega arith, grind arith, inr (q, omega arith, grind arith))

pub fragment_count-IsLeast : (mss len : ℕ) → 0 < mss → IsLeast mss len (fragment_count mss len)
unfolding fragment_count
fragment_count-IsLeast mss len h = elim (Bool-cases (leb len mss)) [
  | inl one ↦ rw one (omega arith, ground arith, inl refl)
  | inr more ↦ rw more (elim (Bool-cases (len % mss == 0)) [
    | inl e ↦
        rw e
          (whole_IsLeast mss (len / mss) len h (ground arith) (ground (arith, div-add-mod len mss)))
    | inr e ↦ rw e (
        part_IsLeast mss (len / mss) (len % mss) len (mod-lt len h) (ground arith)
          (div-add-mod len mss))
  ])
]

pub send_rest_lem :
    (sent : ℕ) (buf : Bytes) (k : Kcp)
    → 0 < k.mss
    → fragment_count k.mss (length buf) < wnd_rcv
    → send_rest sent buf k
      ≡ ok (
        sent + length buf,
        record k {
          snd_queue = k.snd_queue ++ cut k.stream k.mss (fragment_count k.mss (length buf)) buf;
        },
      )
unfolding send_rest
send_rest_lem sent buf k h c =
    let least = fragment_count-IsLeast k.mss (length buf) h in
    let small : leb wnd_rcv (fragment_count k.mss (length buf)) ≡ false = ground arith in
    let some_left : (fragment_count k.mss (length buf) == 0) ≡ false = ground (arith, least.0) in
    rw (
      small,
      some_left,
      push_fragments_lem k.stream k.mss (fragment_count k.mss (length buf)) buf sent k.snd_queue
          least.1,
    )

pub send_rest_big :
    (sent : ℕ) (buf : Bytes) (k : Kcp)
    → wnd_rcv ≤ fragment_count k.mss (length buf)
    → send_rest sent buf k ≡ err Error.user_buf_too_big k
unfolding send_rest
send_rest_big sent buf k c =
    let big : leb wnd_rcv (fragment_count k.mss (length buf)) ≡ true = ground arith in rw big
