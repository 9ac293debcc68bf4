-- ===== src/Timer/Schedule.antt =====
-- When `update` flushes next, and what `check` says of it.
use kcp_server.Base.{
  ℕ, ◌≤◌, ◌<◌, ◌≡◌, ◌^◌, refl, Bool, true, false, ◌||◌, some, List, [], ◌∷◌, ltb, arith, inl, inr,
  if◌then◌else◌, ltb_ℤ, leb_ℤ, ℤ, pos, negsuc, pos_part, add_u32, u32_mod, u32_max, Bool-cases, All,
  Option-cases, lt→ltb, le→ltb_false, sub_u32, ◌⊎◌,
}
use native.Mathlib.Decide.{dec_lt}
use kcp_server.Segment.{KcpSegment}
use kcp_server.Control.{Kcp, timediff}
use kcp_server.Control.Serial.{timediff-sub_u32, as_i32_nonneg}
use kcp_server.Timer.{
  check, time_left, shortest, next_resend, advance_clock, schedule, next_flush, first_update,
  in_slack,
}

-- Milliseconds from `current` to a wrapped time: is the time still ahead by more than `delay`?
abbrev pub After : ℕ → ℕ → ℕ → Type 0
After current delay t = leb_ℤ (pos delay) (timediff t current) ≡ true

next_resend-least :
    (current : ℕ) (b : List KcpSegment) (tm : ℕ) {d : ℕ}
    → next_resend current b tm ≡ some d
    → (d ≤ tm) × All (λ s. After current d s.resendts) b × ((0 < tm) → 0 < d)
unfolding next_resend
next_resend-least current [] tm e = ground arith
next_resend-least current (s ∷ b) tm {d} e = elim (Bool-cases (leb_ℤ diff (pos 0))) [
  | inl due ↦ absurd (never due)
  | inr later ↦ step later (next_resend-least current b nearer (picked later))
]
  where
    diff : ℤ
    diff = timediff s.resendts current

    nearer : ℕ
    nearer = (if ltb (pos_part diff) tm then pos_part diff else tm)

    never : leb_ℤ diff (pos 0) ≡ true → ⊥
    never due = ground arith

    picked : leb_ℤ diff (pos 0) ≡ false → next_resend current b nearer ≡ some d
    picked later = ground arith

    step :
        leb_ℤ diff (pos 0) ≡ false
        → (d ≤ nearer) × All (λ s. After current d s.resendts) b × ((0 < nearer) → 0 < d)
        → (d ≤ tm) × All (λ s. After current d s.resendts) (s ∷ b) × ((0 < tm) → 0 < d)
    step later (a, rest, p) = (ground arith, (ground arith, rest), λ z. p (ground arith))

timediff_self : (t : ℕ) → timediff t t ≡ pos 0
unfolding timediff
timediff_self t = ground arith

After-mono : (current d e t : ℕ) → d ≤ e → After current e t → After current d t
After-mono current d e t h a = ground arith

All-After-mono :
    (current d e : ℕ) (b : List KcpSegment)
    → d ≤ e
    → All (λ s. After current e s.resendts) b
    → All (λ s. After current d s.resendts) b
All-After-mono current d e [] h a = tt
All-After-mono current d e (s ∷ b) h a =
    (After-mono current d e s.resendts h a.0, All-After-mono current d e b h a.1)

-- For `d` milliseconds from `current` no segment of the send buffer is due, and no flush.
pub record Quiet (k : Kcp) (current d : ℕ) : Type 0 where
  pub within : d ≤ k.interval
  pub no_resend : All (λ s. After current d s.resendts) k.snd_buf
  pub no_flush : After current d k.ts_flush

time_left-Quiet :
    (k : Kcp) (current : ℕ)
    → 0 < time_left k current k.ts_flush
    → Quiet k current (time_left k current k.ts_flush)
unfolding time_left shortest
time_left-Quiet k current h = elim (Bool-cases (leb_ℤ (pos 0) (timediff current k.ts_flush))) [
  | inl due ↦ absurd (ground arith)
  | inr ahead ↦ elim (Option-cases (next_resend current k.snd_buf u32_max)) [
    | inl e ↦ absurd (ground arith)
    | inr (tm, e) ↦
        let wait = rw (ahead, e, shortest) at h in
        let least = next_resend-least current k.snd_buf u32_max e in
        rw (ahead, e, shortest)
          (record {
            within = omega arith;
            no_resend = All-After-mono current _ tm k.snd_buf (omega arith) least.1;
            no_flush = ground arith;
          })
  ]
]

-- A positive answer of `check` can be slept through: for so long no segment of the send buffer is
-- due and no flush, and it is no more than the interval.
pub check-Quiet : (k : Kcp) (current : ℕ) → 0 < check k current → Quiet k current (check k current)
unfolding check
check-Quiet k current h = elim (Bool-cases k.updated) [
  | inl e ↦ elim (Bool-cases off) [
    | inl far ↦ absurd (reset far)
    | inr near ↦
        let now : check k current ≡ time_left k current k.ts_flush = rw (e, near) in
        rw now (time_left-Quiet k current (rw now at h))
  ]
  | inr e ↦ absurd (ground arith)
]
  where
    off : Bool
    off =
        leb_ℤ (pos 10000) (timediff current k.ts_flush)
        || ltb_ℤ (timediff current k.ts_flush) (negsuc 9999)

    none_left : time_left k current current ≡ 0
    none_left = unfold time_left in rw (timediff_self current)

    reset : off ≡ true → ⊥
    reset far = ground (arith, none_left)

-- The flush time that `update` sets lies ahead by at most one interval, if the old one was due and
-- no more than ten seconds ago.
next_flush-ahead :
    (current ts interval : ℕ)
    → current < u32_mod
    → ts < u32_mod
    → 0 < interval
    → interval < 2 ^ 30
    → sub_u32 current ts < 10000
    → (sub_u32 (next_flush current ts interval) current ≤ interval)
      × (0 < sub_u32 (next_flush current ts interval) current)
      × (next_flush current ts interval < u32_mod)
unfolding next_flush
next_flush-ahead current ts interval hc ht hi lo hs =
    let d = timediff-sub_u32 current (add_u32 ts interval) hc (omega arith) in
    elim (dec_lt (sub_u32 current ts) interval) [
      | yes early ↦
          let ahead : leb_ℤ (pos 0) (timediff current (add_u32 ts interval)) ≡ false =
            rw (d, as_i32_nonneg (sub_u32 current (add_u32 ts interval)) (omega arith))
              (le→ltb_false _ _ (omega arith)) in
          rw ahead (omega arith)
      | no late ↦
          let past : leb_ℤ (pos 0) (timediff current (add_u32 ts interval)) ≡ true =
            rw (d, as_i32_nonneg (sub_u32 current (add_u32 ts interval)) (omega arith))
              (lt→ltb _ _ (omega arith)) in
          rw past (omega arith)
    ]

-- The flush times that `update` leaves: ahead of its clock, by at most one interval where it
-- flushes, and by at most ten seconds, unchanged, where it does not.
pub record Scheduled (current old interval : ℕ) (out : ℕ × Bool) : Type 0 where
  pub ahead : 0 < sub_u32 out.0 current
  pub flushed : out.1 ≡ true → sub_u32 out.0 current ≤ interval
  pub waited : out.1 ≡ false → (sub_u32 out.0 current ≤ 10000) × (out.0 ≡ old)

slack-cases :
    (current ts : ℕ)
    → current < u32_mod
    → ts < u32_mod
    → in_slack (timediff current ts) ≡ true
    → ((leb_ℤ (pos 0) (timediff current ts) ≡ true) × (sub_u32 current ts < 10000))
      ⊎ ((leb_ℤ (pos 0) (timediff current ts) ≡ false)
          × (0 < sub_u32 ts current)
          × (sub_u32 ts current ≤ 10000))
unfolding in_slack
slack-cases current ts hc ht h = ground (arith, timediff-sub_u32 current ts hc ht)

schedule-Scheduled :
    (current ts interval : ℕ)
    → current < u32_mod
    → ts < u32_mod
    → 0 < interval
    → interval < 2 ^ 30
    → Scheduled current ts interval (schedule current ts interval)
unfolding schedule
schedule-Scheduled current ts interval hc ht hi lo =
    elim (Bool-cases (in_slack (timediff current ts))) [
      | inl near ↦ elim (slack-cases current ts hc ht near) [
        | inl (past, few) ↦
            let a = next_flush-ahead current ts interval hc ht hi lo few in
            rw (near, past) (record { ahead = a.1; flushed = λ _. a.0; waited = λ e. cc })
        | inr (future, more, most) ↦
            rw (near, future)
              (record { ahead = more; flushed = λ e. cc; waited = λ _. (most, refl) })
      ]
      | inr far ↦
          let a = next_flush-ahead current current interval hc hc hi lo (omega arith) in
          rw far (record { ahead = a.1; flushed = λ _. a.0; waited = λ e. cc })
    ]

-- The clock of `update` after the first call, where the interval is above 0 and below 2 ^ 30: the
-- next flush lies ahead, at most one interval away if it flushes now; if not, the flush time stays
-- as it was and is at most ten seconds away.
pub advance_clock-Scheduled :
    (k : Kcp) (current : ℕ)
    → current < u32_mod
    → k.ts_flush < u32_mod
    → 0 < k.interval
    → k.interval < 2 ^ 30
    → k.updated ≡ true
    → let (k', due) = advance_clock k current in
      (k'.current ≡ current) × Scheduled current k.ts_flush k.interval (k'.ts_flush, due)
unfolding advance_clock first_update
advance_clock-Scheduled k current hc ht hi lo u =
    rw u (refl, schedule-Scheduled current k.ts_flush k.interval hc ht hi lo)
