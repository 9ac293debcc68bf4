-- ===== src/Control/Serial.antt =====
-- `timediff` as serial-number arithmetic: what the wrapped difference says of unbounded counters.
use kcp_server.Base.{
  ℕ, ◌+◌, ◌-◌, ◌≤◌, ◌<◌, ◌^◌, ◌≡◌, ◌∙◌, arith, ltb, leb, ◌==◌, pos, negsuc, ltb_ℤ, leb_ℤ, as_u32,
  sub_u32, u32_mod, as_i32,
}
use kcp_server.Control.{timediff}

-- The subtraction of the two's complement patterns gives the pattern of the difference.
pub timediff-sub_u32 : (a b : ℕ) → a < u32_mod → b < u32_mod → timediff a b ≡ as_i32 (sub_u32 a b)
unfolding timediff
timediff-sub_u32 a b ha hb = ground arith

pub as_i32_nonneg : (w : ℕ) → w < u32_mod → leb_ℤ (pos 0) (as_i32 w) ≡ ltb w (2 ^ 31)
as_i32_nonneg w h = ground arith

-- Counters less than half the number space apart.
pub record Near (a b : ℕ) : Type 0 where
  pub ahead : a < b + 2 ^ 31
  pub behind : b < a + 2 ^ 31

-- For near counters that are seen only modulo 2 ^ 32, `timediff` has the sign and the size of their
-- true difference, also across the wrap.
pub timediff_above : (a b : ℕ) → Near a b → b ≤ a → timediff (as_u32 a) (as_u32 b) ≡ pos (a - b)
timediff_above a b n h =
    timediff-sub_u32 (as_u32 a) (as_u32 b) (omega arith) (omega arith)
    ∙ (let e : sub_u32 (as_u32 a) (as_u32 b) ≡ a - b = omega arith in rw e (ground arith))

pub timediff_below :
    (a b : ℕ) → Near a b → a < b → timediff (as_u32 a) (as_u32 b) ≡ negsuc (b - a - 1)
timediff_below a b n h =
    timediff-sub_u32 (as_u32 a) (as_u32 b) (omega arith) (omega arith)
    ∙ (let e : sub_u32 (as_u32 a) (as_u32 b) ≡ u32_mod - (b - a) = omega arith in
        rw e (ground arith))

-- The three tests that the program makes of such a difference.
module _ (a b : ℕ) (n : Near a b) where
  pub diff_neg : ltb_ℤ (timediff (as_u32 a) (as_u32 b)) (pos 0) ≡ ltb a b
  diff_neg = ground (arith, timediff_above a b n, timediff_below a b n)

  pub diff_nonneg : leb_ℤ (pos 0) (timediff (as_u32 a) (as_u32 b)) ≡ leb b a
  diff_nonneg = ground (arith, timediff_above a b n, timediff_below a b n)

  pub diff_pos : ltb_ℤ (pos 0) (timediff (as_u32 a) (as_u32 b)) ≡ ltb b a
  diff_pos = ground (arith, timediff_above a b n, timediff_below a b n)

  pub eq_mod : (as_u32 a == as_u32 b) ≡ (a == b)
  eq_mod = ground arith

-- The three tests that the program makes of `timediff` order two counters as the counters
-- themselves are ordered, where these are less than 2 ^ 31 apart and only seen modulo 2 ^ 32.
pub timediff_order :
    (a b : ℕ)
    → Near a b
    → (ltb_ℤ (timediff (as_u32 a) (as_u32 b)) (pos 0) ≡ ltb a b)
      × (leb_ℤ (pos 0) (timediff (as_u32 a) (as_u32 b)) ≡ leb b a)
      × (ltb_ℤ (pos 0) (timediff (as_u32 a) (as_u32 b)) ≡ ltb b a)
timediff_order a b n = (diff_neg a b n, diff_nonneg a b n, diff_pos a b n)
