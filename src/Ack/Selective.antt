-- ===== src/Ack/Selective.antt =====
-- What one acknowledged number does to the send buffer: it goes, and those before it were skipped.
use kcp_server.Base.{
  ℕ, suc, ◌+◌, ◌≤◌, ◌<◌, ◌≡◌, ◌^◌, refl, ap, ◌∙◌, sym, false, not, List, [], ◌∷◌, map, arith,
  as_u32, add_u32, ltb, ◌==◌, Bool-cases, inl, inr, ltb_ℤ, pos, if◌then◌else◌, u32_mod,
}
use kcp_server.Segment.{KcpSegment}
use kcp_server.Control.{Kcp, timediff}
use kcp_server.Control.Serial.{diff_neg, diff_nonneg}
use kcp_server.Ack.{out_of_flight, remove_acked, parse_ack, count_skips, parse_fastack}

-- The segments of a buffer in the order of their numbers, from `lo` up to below `hi`.
abbrev pub Ascending : ℕ → ℕ → List KcpSegment → Type 0
Ascending lo hi [] = Unit {0}
Ascending lo hi (s ∷ b) = (lo ≤ s.sn) × (s.sn < hi) × Ascending (suc s.sn) hi b

-- A buffer of what was sent and not acknowledged, whose numbers do not wrap inside it.
pub record IsInFlight (lo hi : ℕ) (k : Kcp) : Type 0 where
  pub una : k.snd_una ≡ lo
  pub nxt : k.snd_nxt ≡ as_u32 hi
  pub bounds : (lo ≤ hi) × (hi ≤ u32_mod) × (hi ≤ lo + 2 ^ 30)
  pub sorted : Ascending lo hi k.snd_buf

-- The segments of every other number.
abbrev pub others : ℕ → List KcpSegment → List KcpSegment
others sn [] = []
others sn (s ∷ b) = let rest = others sn b in if sn == s.sn then rest else s ∷ rest

-- A segment that a later number overtook.
abbrev pub skipped : ℕ → KcpSegment → KcpSegment
skipped sn s = if ltb s.sn sn then record s { fastack = add_u32 s.fastack 1 } else s

others_below : (sn lo hi : ℕ) (b : List KcpSegment) → sn < lo → Ascending lo hi b → others sn b ≡ b
others_below sn lo hi [] h v = refl
others_below sn lo hi (s ∷ b) h (l, u, v) =
    let ne : (sn == s.sn) ≡ false = ground (arith, h, l) in
    rw ne (ap (◌∷◌ s) (others_below sn (suc s.sn) hi b (omega (arith, h, l)) v))

skipped_below :
    (sn lo hi : ℕ) (b : List KcpSegment) → sn ≤ lo → Ascending lo hi b → map (skipped sn) b ≡ b
skipped_below sn lo hi [] h v = refl
skipped_below sn lo hi (s ∷ b) h (l, u, v) =
    let ge : ltb s.sn sn ≡ false = ground (arith, h, l) in
    rw ge (ap (◌∷◌ s) (skipped_below sn (suc s.sn) hi b (omega (arith, h, l)) v))

remove_acked-others :
    (sn lo hi : ℕ) (b : List KcpSegment) → Ascending lo hi b → remove_acked sn b ≡ others sn b
unfolding remove_acked
remove_acked-others sn lo hi [] v = refl
remove_acked-others sn lo hi (s ∷ b) (l, u, v) = elim (Bool-cases (sn == s.sn)) [
  | inl hit ↦ rw hit (sym (others_below sn (suc s.sn) hi b (ground (arith, hit)) v))
  | inr miss ↦ elim (Bool-cases (ltb sn s.sn)) [
    | inl below ↦
        rw (miss, below)
          (ap (◌∷◌ s) (sym (others_below sn (suc s.sn) hi b (ground (arith, below)) v)))
    | inr above ↦ rw (miss, above) (ap (◌∷◌ s) (remove_acked-others sn (suc s.sn) hi b v))
  ]
]

module _ (sn lo hi : ℕ) (wrap : hi ≤ u32_mod) (room : hi ≤ lo + 2 ^ 30) (from : lo ≤ sn)
    (to : sn < hi) where
  before : (n : ℕ) → lo ≤ n → n < hi → ltb_ℤ (timediff sn n) (pos 0) ≡ ltb sn n
  before n l u =
      let a : as_u32 sn ≡ sn = omega arith in
      let b : as_u32 n ≡ n = omega arith in
      rw (a, b) at (diff_neg sn n (record { ahead = omega arith; behind = omega arith }))

  count_skips-map :
      (a : ℕ) (b : List KcpSegment)
      → lo ≤ a
      → Ascending a hi b
      → count_skips sn b ≡ map (skipped sn) b
  unfolding count_skips
  count_skips-map a [] h v = refl
  count_skips-map a (s ∷ b) h (l, u, v) =
      let order = before s.sn (omega (arith, h, l)) u in
      elim (Bool-cases (ltb sn s.sn)) [
        | inl over ↦
            rw (order ∙ over)
              (sym (skipped_below sn s.sn hi (s ∷ b) (ground (arith, over)) (omega arith, u, v)))
        | inr under ↦
            let ih = count_skips-map (suc s.sn) b (omega (arith, h, l)) v in
            let past : not (sn == s.sn) ≡ ltb s.sn sn = ground (arith, under) in
            rw (order ∙ under, past, ih) refl
      ]

  flying : (k : Kcp) → IsInFlight lo hi k → out_of_flight k sn ≡ false
  unfolding out_of_flight
  flying k v =
      let a : as_u32 sn ≡ sn = omega arith in
      let b : as_u32 lo ≡ lo = omega arith in
      let behind =
        rw (a, b) at (diff_neg sn lo (record { ahead = omega arith; behind = omega arith })) in
      let ahead =
        rw a at (diff_nonneg sn hi (record { ahead = omega arith; behind = omega arith })) in
      rw (v.una, v.nxt, behind, ahead) (ground arith)

-- An acknowledged number that is in flight leaves the buffer, every other segment stays as it is
-- and in its place, and the later count of the datagram's acknowledgements raises `fastack` of
-- exactly the segments before the number. The buffer is in the order of its numbers, which do not
-- wrap inside it, and no more than 2 ^ 30 numbers are in flight.
pub parse_ack-others :
    (lo hi sn : ℕ) (k : Kcp)
    → IsInFlight lo hi k
    → lo ≤ sn
    → sn < hi
    → ((parse_ack k sn).snd_buf ≡ others sn k.snd_buf)
      × ((parse_fastack k sn).snd_buf ≡ map (skipped sn) k.snd_buf)
unfolding parse_ack parse_fastack
parse_ack-others lo hi sn k v from to = rw (flying sn lo hi v.bounds.1 v.bounds.2 from to k v) (
  remove_acked-others sn lo hi k.snd_buf v.sorted,
  count_skips-map sn lo hi v.bounds.1 v.bounds.2 from to lo k.snd_buf (omega arith) v.sorted,
)
