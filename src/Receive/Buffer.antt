-- ===== src/Receive/Buffer.antt =====
-- The receive buffer holds segments of a numbered sequence in rising order: the search from the
-- back, the insertion, and the move into the queue.
use mathlib.Core.List.{reverse-cons, reverse-reverse, reverse-append}
use kcp_server.Base.{
  ℕ, zero, suc, ◌+◌, ◌-◌, ◌≤◌, ◌<◌, ◌≡◌, ◌^◌, refl, ◌∙◌, sym, ap, ◌⊎◌, inl, inr, Bool, true, false,
  List, [], ◌∷◌, ◌++◌, reverse, length, length-reverse, take-append, drop-append, insert_at, arith,
  as_u32, ltb, ◌==◌, ltb_ℤ, pos, Bool-cases, if◌then◌else◌,
}
use kcp_server.Segment.{KcpSegment}
use kcp_server.Control.{timediff}
use kcp_server.Control.Serial.{diff_pos, eq_mod}
use kcp_server.Receive.{find_slot, insert_segment}

-- A numbered sequence: the n-th segment carries n modulo 2 ^ 32.
pub record Numbered (f : ℕ → KcpSegment) : Type 0 where
  pub number : (n : ℕ) → (f n).sn ≡ as_u32 n

-- `count` segments from the `r`-th on.
abbrev pub segments : (ℕ → KcpSegment) → ℕ → ℕ → List KcpSegment
segments f r zero = []
segments f r (suc count) = f r ∷ segments f (suc r) count

-- A rising choice of the segments from `lo` up to `hi`.
abbrev pub Buffered : (ℕ → KcpSegment) → ℕ → ℕ → List KcpSegment → Type 0
Buffered f lo hi [] = Unit {0}
Buffered f lo hi (s ∷ b) = (n : ℕ) × (s ≡ f n) × (lo ≤ n) × (n < hi) × Buffered f (suc n) hi b

-- The same, from the back.
abbrev Falling : (ℕ → KcpSegment) → ℕ → ℕ → List KcpSegment → Type 0
Falling f lo hi [] = Unit {0}
Falling f lo hi (s ∷ r) = (n : ℕ) × (s ≡ f n) × (lo ≤ n) × (n < hi) × Falling f lo n r

module _ (f : ℕ → KcpSegment) where
  pub Buffered-widen :
      (lo lo' hi hi' : ℕ) (b : List KcpSegment)
      → lo' ≤ lo
      → hi ≤ hi'
      → Buffered f lo hi b
      → Buffered f lo' hi' b
  Buffered-widen lo lo' hi hi' [] p q h = tt
  Buffered-widen lo lo' hi hi' (s ∷ b) p q (n, e, l, u, rest) =
      (n, e, omega arith, omega arith, Buffered-widen (suc n) (suc n) hi hi' b (omega arith) q rest)

  Falling-widen :
      (lo lo' hi hi' : ℕ) (b : List KcpSegment)
      → lo' ≤ lo
      → hi ≤ hi'
      → Falling f lo hi b
      → Falling f lo' hi' b
  Falling-widen lo lo' hi hi' [] p q h = tt
  Falling-widen lo lo' hi hi' (s ∷ b) p q (n, e, l, u, rest) =
      (n, e, omega arith, omega arith, Falling-widen lo lo' n n b p (omega arith) rest)

  pub Buffered-append :
      (lo mid hi : ℕ) (b c : List KcpSegment)
      → mid ≤ hi
      → lo ≤ mid
      → Buffered f lo mid b
      → Buffered f mid hi c
      → Buffered f lo hi (b ++ c)
  Buffered-append lo mid hi [] c p q hb hc = Buffered-widen mid lo hi hi c q (omega arith) hc
  Buffered-append lo mid hi (s ∷ b) c p q (n, e, l, u, rest) hc =
      (n, e, l, omega arith, Buffered-append (suc n) mid hi b c p u rest hc)

  Falling-append :
      (lo mid hi : ℕ) (b c : List KcpSegment)
      → lo ≤ mid
      → mid ≤ hi
      → Falling f mid hi b
      → Falling f lo mid c
      → Falling f lo hi (b ++ c)
  Falling-append lo mid hi [] c p q hb hc = Falling-widen lo lo mid hi c (omega arith) q hc
  Falling-append lo mid hi (s ∷ b) c p q (n, e, l, u, rest) hc =
      (n, e, omega arith, u, Falling-append lo mid n b c p l rest hc)

  reverse-Falling :
      (lo hi : ℕ) (b : List KcpSegment) → lo ≤ hi → Buffered f lo hi b → Falling f lo hi (reverse b)
  reverse-Falling lo hi [] p h = tt
  reverse-Falling lo hi (s ∷ b) p (n, e, l, u, rest) = rw (reverse-cons s b) (
      Falling-append lo (suc n) hi (reverse b) (s ∷ []) (omega arith) u
        (reverse-Falling (suc n) hi b u rest) (n, e, l, omega arith, tt))

  reverse-Buffered :
      (lo hi : ℕ) (r : List KcpSegment) → lo ≤ hi → Falling f lo hi r → Buffered f lo hi (reverse r)
  reverse-Buffered lo hi [] p h = tt
  reverse-Buffered lo hi (s ∷ r) p (n, e, l, u, rest) = rw (reverse-cons s r) (
      Buffered-append lo n hi (reverse r) (s ∷ []) (omega arith) l (reverse-Buffered lo n r l rest)
        (n, e, omega arith, u, tt))

insert_at-reverse :
    (upper lower : List KcpSegment) (x : KcpSegment)
    → insert_at (length lower) x (reverse lower ++ reverse upper)
      ≡ reverse lower ++ x ∷ reverse upper
insert_at-reverse upper lower x = rw (← length-reverse lower) (rw (take-append, drop-append))

-- A segment is among those of a list.
abbrev pub Holds : KcpSegment → List KcpSegment → Type 0
Holds x [] = ⊥
Holds x (s ∷ b) = (s ≡ x) ⊎ Holds x b

pub Holds-left : (x : KcpSegment) (b c : List KcpSegment) → Holds x b → Holds x (b ++ c)
Holds-left x [] c h = absurd h
Holds-left x (s ∷ b) c (inl e) = inl e
Holds-left x (s ∷ b) c (inr h) = inr (Holds-left x b c h)

pub Holds-right : (x : KcpSegment) (b c : List KcpSegment) → Holds x c → Holds x (b ++ c)
Holds-right x [] c h = h
Holds-right x (s ∷ b) c h = inr (Holds-right x b c h)

pub Holds-append :
    (x : KcpSegment) (b c : List KcpSegment) → Holds x (b ++ c) → Holds x b ⊎ Holds x c
Holds-append x [] c h = inr h
Holds-append x (s ∷ b) c (inl e) = inl (inl e)
Holds-append x (s ∷ b) c (inr h) = elim (Holds-append x b c h) [
  | inl k ↦ inl (inr k)
  | inr k ↦ inr k
]

Holds-reverse : (x : KcpSegment) (b : List KcpSegment) → Holds x (reverse b) → Holds x b
Holds-reverse x [] h = h
Holds-reverse x (s ∷ b) h = elim (Holds-append x (reverse b) (s ∷ []) (rw reverse-cons at h)) [
  | inl k ↦ inr (Holds-reverse x b k)
  | inr k ↦ inl (only k)
]
  where
    only : Holds x (s ∷ []) → s ≡ x
    only (inl e) = e
    only (inr k) = absurd k

-- Where the search stops: at the number itself, or between the higher and the lower ones.
abbrev Slot : (ℕ → KcpSegment) → ℕ → ℕ → ℕ → List KcpSegment → Bool × ℕ → Type 0
Slot f n lo hi r out =
    ((out.0 ≡ true) × Holds (f n) r)
    ⊎ ((upper lower : List KcpSegment) × (r ≡ upper ++ lower)
        × (out ≡ (false, length lower))
        × Falling f (suc n) hi upper
        × Falling f lo n lower)

module _ (f : ℕ → KcpSegment) (num : Numbered f) (n lo : ℕ) where
  test_same :
      (m hi : ℕ)
      → lo ≤ m
      → m < hi
      → lo ≤ n
      → n < hi
      → hi ≤ lo + 2 ^ 31
      → ((f m).sn == (f n).sn) ≡ (m == n)
  test_same m hi a b c d w = rw (num.number m, num.number n) (eq_mod m n (omega arith))

  test_later :
      (m hi : ℕ)
      → lo ≤ m
      → m < hi
      → lo ≤ n
      → n < hi
      → hi ≤ lo + 2 ^ 31
      → ltb_ℤ (pos 0) (timediff (f n).sn (f m).sn) ≡ ltb m n
  test_later m hi a b c d w = rw (num.number m, num.number n) (diff_pos n m (omega arith))

  find_slot-Slot :
      (hi top : ℕ) (r : List KcpSegment)
      → top ≤ hi
      → lo ≤ n
      → n < hi
      → hi ≤ lo + 2 ^ 31
      → Falling f lo top r
      → Slot f n lo top r (find_slot (f n).sn r (length r))
  unfolding find_slot
  find_slot-Slot hi top [] t a b w h = inr ([], [], refl, refl, tt, tt)
  find_slot-Slot hi top (s ∷ r) t a b w (m, e, l, u, rest) =
      rw (e, find_slot, test_same m hi l (omega arith) a b w, test_later m hi l (omega arith) a b w)
        (elim (Bool-cases (m == n)) [
          | inl same ↦ inl (rw same, inl (ap f (ground arith)))
          | inr other ↦ elim (Bool-cases (ltb m n)) [
            | inl after ↦
                rw (other, after)
                  (inr ([], f m ∷ r, refl, refl, tt, (m, refl, l, ground arith, rest)))
            | inr before ↦
                let back : suc (length r) - 1 ≡ length r = omega arith in
                rw (other, before, back)
                  (past (ground arith) (find_slot (f n).sn r (length r))
                    (find_slot-Slot hi m r (omega arith) a b w rest))
          ]
        ])
    where
      past : n < m → (out : Bool × ℕ) → Slot f n lo m r out → Slot f n lo top (f m ∷ r) out
      past lt out (inl (h, k)) = inl (h, inr k)
      past lt out (inr (upper, lower, p, q, hu, hl)) =
          inr (f m ∷ upper, lower, ap (◌∷◌ (f m)) p, q, (m, refl, lt, u, hu), hl)

  -- The insertion keeps the buffer a rising choice, adds the segment, and loses none.
  abbrev pub Inserted : ℕ → List KcpSegment → List KcpSegment → Type 0
  Inserted hi b c = Buffered f lo hi c × Holds (f n) c × ((x : KcpSegment) → Holds x b → Holds x c)

  pub insert_segment-Inserted :
      (hi : ℕ) (b : List KcpSegment)
      → lo ≤ n
      → n < hi
      → hi ≤ lo + 2 ^ 31
      → Buffered f lo hi b
      → Inserted hi b (insert_segment (f n) b)
  unfolding insert_segment
  insert_segment-Inserted hi b a c w h = place (find_slot (f n).sn (reverse b) (length b)) (
      rw length-reverse at (
        find_slot-Slot hi hi (reverse b) (omega arith) a c w
          (reverse-Falling f lo hi b (omega arith) h)))
    where
      widen :
          (x : KcpSegment) (lower upper : List KcpSegment)
          → Holds x (reverse lower) ⊎ Holds x (reverse upper)
          → Holds x (reverse lower ++ f n ∷ reverse upper)
      widen x lower upper (inl k) = Holds-left x (reverse lower) (f n ∷ reverse upper) k
      widen x lower upper (inr k) = Holds-right x (reverse lower) (f n ∷ reverse upper) (inr k)

      split :
          (upper lower : List KcpSegment)
          → reverse b ≡ upper ++ lower
          → b ≡ reverse lower ++ reverse upper
      split upper lower p = sym (reverse-reverse b) ∙ (ap reverse p ∙ reverse-append upper lower)

      place :
          (out : Bool × ℕ)
          → Slot f n lo hi (reverse b) out
          → Inserted hi b (if out.0 then b else insert_at out.1 (f n) b)
      place out (inl (e, k)) = rw e (h, Holds-reverse (f n) b k, λ x held. held)
      place out (inr (upper, lower, p, q, hu, hl)) =
          rw (q, split upper lower p, insert_at-reverse upper lower (f n))
            (
              Buffered-append f lo n hi (reverse lower) (f n ∷ reverse upper) (omega arith) a
                  (reverse-Buffered f lo n lower a hl)
                  (n, refl, omega arith, c, reverse-Buffered f (suc n) hi upper c hu),
              Holds-right (f n) (reverse lower) (f n ∷ reverse upper) (inl refl),
              λ x held. widen x lower upper (Holds-append x (reverse lower) (reverse upper) held),
            )

-- What the move into the queue does from the `r`-th segment on: it takes the `count` segments that
-- follow one another, in order, and stops at a full queue or at a gap.
pub record Moved (f : ℕ → KcpSegment) (wnd r hi : ℕ) (b q : List KcpSegment)
    (out : ℕ × List KcpSegment × List KcpSegment) : Type 0 where
  pub count : ℕ
  pub next : out.0 ≡ as_u32 (r + count)
  pub bounded : r + count ≤ hi
  pub queued : out.2 ≡ q ++ segments f r count
  pub taken : b ≡ segments f r count ++ out.1
  pub left : Buffered f (r + count) hi out.1
  pub stopped : (wnd ≤ length out.2) ⊎ Buffered f (suc (r + count)) hi out.1
