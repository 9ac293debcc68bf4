-- ===== src/Ack/Buffer.antt =====
-- What a cumulative acknowledgement leaves of the send buffer.
use kcp_server.Base.{
  ℕ, suc, ◌+◌, ◌≤◌, ◌<◌, ◌≡◌, ◌^◌, refl, ap, List, [], ◌∷◌, ◌++◌, arith, as_u32, ltb, Bool-cases,
  inl, inr, ltb_ℤ, pos, ltb→lt, ltb_false→le,
}
use kcp_server.Segment.{KcpSegment}
use kcp_server.Control.{Kcp, timediff}
use kcp_server.Control.Serial.{diff_pos}
use kcp_server.Receive.Buffer.{Numbered, Buffered}
use kcp_server.Ack.{drop_before, parse_una, shrink_buf, front_sn}

-- From `k` to `k'` the buffer lost the segments below `u` and no other, and `snd_una` stands for
-- the first that is left, or for the next to be sent.
-- `una` is the number of the first segment of the buffer, or the next one where it is empty.
abbrev pub StartsAt : ℕ → ℕ → List KcpSegment → Type 0
StartsAt nxt una [] = una ≡ nxt
StartsAt nxt una (s ∷ b) = una ≡ s.sn

pub record Acknowledged (f : ℕ → KcpSegment) (lo u hi : ℕ) (k k' : Kcp) : Type 0 where
  pub taken : List KcpSegment
  pub split : k.snd_buf ≡ taken ++ k'.snd_buf
  pub below : Buffered f lo u taken
  pub left : Buffered f u hi k'.snd_buf
  pub starts : StartsAt k'.snd_nxt k'.snd_una k'.snd_buf
  pub same_nxt : k'.snd_nxt ≡ k.snd_nxt
  pub first : ℕ
  pub una : k'.snd_una ≡ as_u32 first
  pub bounds : (u ≤ first) × (first ≤ hi)

module _ (f : ℕ → KcpSegment) (num : Numbered f) (u hi : ℕ) where
  drop_before-split :
      (lo : ℕ) (b : List KcpSegment)
      → lo ≤ u
      → u ≤ hi
      → hi ≤ lo + 2 ^ 30
      → Buffered f lo hi b
      → (taken : List KcpSegment) × (b ≡ taken ++ drop_before (as_u32 u) b)
        × Buffered f lo u taken
        × Buffered f u hi (drop_before (as_u32 u) b)
  unfolding drop_before
  drop_before-split lo [] a c w h = ([], refl, tt, tt)
  drop_before-split lo (s ∷ b) a c w (n, e, l, v, rest) = elim (Bool-cases (ltb n u)) [
    | inl old ↦
        let lt : n < u = ltb→lt n u old in
        let (taken, split, below, left) =
          drop_before-split (suc n) b (omega (arith, lt)) c (omega (arith, l, w)) rest in
        rw (is_old, old) (s ∷ taken, ap (◌∷◌ s) split, (n, e, l, lt, below), left)
    | inr fresh ↦ rw (is_old, fresh) ([], refl, tt, (n, e, ltb_false→le n u fresh, v, rest))
  ]
    where
      is_old : ltb_ℤ (pos 0) (timediff (as_u32 u) s.sn) ≡ ltb n u
      is_old =
          rw (ap (λ x. x.sn) e, num.number n)
            (diff_pos u n (record {
              ahead = omega (arith, l, v, a, c, w);
              behind = omega (arith, l, v, a, c, w);
            }))

  -- A cumulative acknowledgement of all below `u`, between what the buffer starts with and what
  -- was sent: the buffer loses the segments below `u` and no other, and keeps its order; `snd_una`
  -- becomes the number of the first segment left, or of the next to be sent where none is left.
  pub parse_una-Acknowledged :
      (lo : ℕ) (k : Kcp)
      → lo ≤ u
      → u ≤ hi
      → hi ≤ lo + 2 ^ 30
      → k.snd_nxt ≡ as_u32 hi
      → Buffered f lo hi k.snd_buf
      → Acknowledged f lo u hi k (shrink_buf (parse_una k (as_u32 u)))
  unfolding parse_una shrink_buf front_sn
  parse_una-Acknowledged lo k a c w nxt h =
      let (taken, split, below, left) = drop_before-split lo k.snd_buf a c w h in
      let (first, una, low, high) = front (drop_before (as_u32 u) k.snd_buf) left in
      record {
        taken = taken;
        split = split;
        below = below;
        left = left;
        starts = starts (drop_before (as_u32 u) k.snd_buf);
        same_nxt = refl;
        first = first;
        una = una;
        bounds = (low, high);
      }
    where
      starts : (b : List KcpSegment) → StartsAt k.snd_nxt (front_sn b k.snd_nxt) b
      starts [] = refl
      starts (s ∷ b) = refl

      front :
          (b : List KcpSegment)
          → Buffered f u hi b
          → (n : ℕ) × (front_sn b k.snd_nxt ≡ as_u32 n) × (u ≤ n) × (n ≤ hi)
      front [] v = (hi, nxt, c, omega arith)
      front (s ∷ b) (n, e, l, v, rest) =
          (n, rw (ap (λ x. x.sn) e) (num.number n), l, omega (arith, v))
