-- ===== src/Receive/Order.antt =====
-- The receiver of a numbered sequence: what it moves on and what it keeps as segments arrive.
use kcp_server.Base.{
  ℕ, suc, ◌+◌, ◌≤◌, ◌<◌, ◌≡◌, ◌^◌, refl, ◌∙◌, sym, ap, subst, ◌⊎◌, inl, inr, ◌||◌, ltb_ℤ, leb_ℤ,
  leb, false, ◌&&◌, List, [], ◌∷◌, ◌++◌, append_assoc, append-nil, length, arith, as_u32, add_u32,
  ltb, ◌==◌, pos, Bool-cases,
}
use native.Mathlib.Nat.{add-zero}
use kcp_server.Segment.{KcpSegment}
use kcp_server.Control.Serial.{diff_neg, diff_nonneg, eq_mod}
use kcp_server.Control.{Kcp, timediff}
use kcp_server.Receive.{move_ready, move_available, insert_segment, parse_data}
use kcp_server.Receive.Buffer.{
  Numbered, segments, Buffered, Moved, Buffered-widen, Holds, Inserted, insert_segment-Inserted,
}

module _ (f : ℕ → KcpSegment) (num : Numbered f) (wnd hi : ℕ) where
  move_ready-Moved :
      (r : ℕ) (b q : List KcpSegment)
      → r ≤ hi
      → hi ≤ r + 2 ^ 30
      → Buffered f r hi b
      → Moved f wnd r hi b q (move_ready wnd (as_u32 r) b q)
  unfolding move_ready
  move_ready-Moved r [] q a w h = record {
    count = 0;
    next = omega arith;
    bounded = omega arith;
    queued = sym (append-nil q);
    taken = refl;
    left = tt;
    stopped = inr tt;
  }
  move_ready-Moved r (s ∷ b) q a w (n, e, l, u, rest) =
      elim (Bool-cases ((s.sn == as_u32 r) && ltb (length q) wnd)) [
        | inl go ↦
            let here : n ≡ r = ground (arith, is_next) in
            let wrap : add_u32 (as_u32 r) 1 ≡ as_u32 (suc r) = omega arith in
            rw (go, move_ready, wrap)
              (step (e ∙ ap f here) (
                move_ready-Moved (suc r) b (q ++ s ∷ []) (omega arith) (omega arith)
                  (Buffered-widen f (suc n) (suc r) hi hi b (omega arith) (omega arith) rest)))
        | inr stay ↦
            rw (stay, move_ready)
              (record {
                count = 0;
                next = omega arith;
                bounded = omega arith;
                queued = sym (append-nil q);
                taken = refl;
                left = (n, e, omega arith, u, rest);
                stopped = halt stay;
              })
      ]
    where
      is_next : (s.sn == as_u32 r) ≡ (n == r)
      is_next = rw (e, num.number n) (eq_mod n r (omega arith))

      halt :
          (s.sn == as_u32 r) && ltb (length q) wnd ≡ false
          → (wnd ≤ length q) ⊎ Buffered f (suc (r + 0)) hi (s ∷ b)
      halt stay = elim (Bool-cases (ltb (length q) wnd)) [
        | inl room ↦ inr (n, e, ground (arith, is_next), u, rest)
        | inr full ↦ inl (ground arith)
      ]

      step :
          {out : ℕ × List KcpSegment × List KcpSegment}
          → s ≡ f r
          → Moved f wnd (suc r) hi b (q ++ s ∷ []) out
          → Moved f wnd r hi (s ∷ b) q out
      step {out} here m =
          let shift : suc r + m.count ≡ r + suc m.count = omega arith in
          record {
            count = suc m.count;
            next = m.next ∙ ap as_u32 shift;
            bounded = omega (arith, m.bounded);
            queued =
                m.queued
                ∙ (append_assoc q (s ∷ []) (segments f (suc r) m.count)
                    ∙ ap (λ x. q ++ x ∷ segments f (suc r) m.count) here);
            taken = ap (◌∷◌ s) m.taken ∙ ap (λ x. x ∷ segments f (suc r) m.count ++ out.1) here;
            left = rw (← shift) m.left;
            stopped = rw (← shift) m.stopped;
          }

-- The receiver has moved on the first `r` segments of the sequence, and buffers later ones.
pub record Tracks (f : ℕ → KcpSegment) (r : ℕ) (k : Kcp) : Type 0 where
  pub next : k.rcv_nxt ≡ as_u32 r
  pub window : k.rcv_wnd < 2 ^ 16
  pub buffered : Buffered f r (r + k.rcv_wnd) k.rcv_buf

-- It waits only for room in its queue, or for the segment that comes next.
abbrev pub IsSettled : (ℕ → KcpSegment) → ℕ → Kcp → Type 0
IsSettled f r k = (k.rcv_wnd ≤ length k.rcv_queue) ⊎ Buffered f (suc r) (r + k.rcv_wnd) k.rcv_buf

pub record IsReceiver (f : ℕ → KcpSegment) (r : ℕ) (k : Kcp) : Type 0 where
  pub tracks : Tracks f r k
  pub settled : IsSettled f r k

-- A segment that is not so old, or so early, that its number has come round.
pub record Recent (n r : ℕ) : Type 0 where
  pub not_early : n < r + 2 ^ 31
  pub not_late : r + 2 ^ 16 ≤ n + 2 ^ 31

-- From `k` to `k'` the receiver has moved on the `count` segments that come next, in order, and
-- all that it held is either among them or still held.
pub record Advances (f : ℕ → KcpSegment) (r : ℕ) (k k' : Kcp) : Type 0 where
  pub count : ℕ
  pub bounded : count < 2 ^ 16
  pub receiver : IsReceiver f (r + count) k'
  pub appended : k'.rcv_queue ≡ k.rcv_queue ++ segments f r count
  pub kept : (x : KcpSegment) → Holds x k.rcv_buf → Holds x (segments f r count ++ k'.rcv_buf)

module _ (f : ℕ → KcpSegment) (num : Numbered f) where
  pub move_available-Advances : (r : ℕ) (k : Kcp) → Tracks f r k → Advances f r k (move_available k)
  unfolding move_available
  move_available-Advances r k v = build (
      rw (← v.next) at (
        move_ready-Moved f num k.rcv_wnd (r + k.rcv_wnd) r k.rcv_buf k.rcv_queue (omega arith)
          (omega arith) v.buffered))
    where
      open k use {rcv_wnd, rcv_nxt, rcv_buf, rcv_queue}

      build :
          Moved f rcv_wnd r
            (r + rcv_wnd)
            rcv_buf
            rcv_queue
            (move_ready rcv_wnd rcv_nxt rcv_buf rcv_queue)
          → Advances f r k (move_available k)
      build m = record {
        count = m.count;
        bounded = omega (arith, m.bounded);
        receiver = record {
          tracks = record {
            next = m.next;
            window = v.window;
            buffered =
                Buffered-widen f (r + m.count) (r + m.count) (r + rcv_wnd) (r + m.count + rcv_wnd) _
                  (omega arith) (omega arith) m.left;
          };
          settled = elim m.stopped [
            | inl full ↦ inl full
            | inr gap ↦ inr (
                Buffered-widen f (suc (r + m.count)) (suc (r + m.count)) (r + rcv_wnd)
                  (r + m.count + rcv_wnd) _ (omega arith) (omega arith) gap)
          ];
        };
        appended = m.queued;
        kept = λ x held. subst (Holds x) m.taken held;
      }

  -- What the arrival of the n-th segment does.
  pub record Accepts (r n : ℕ) (k k' : Kcp) : Type 0 where
    pub advance : Advances f r k k'
    pub accepted :
        r ≤ n → n < r + k.rcv_wnd → Holds (f n) (segments f r advance.count ++ k'.rcv_buf)
    pub ignored : (n < r) ⊎ (r + k.rcv_wnd ≤ n) → k' ≡ k

  outside :
      (r n : ℕ) (k : Kcp)
      → Tracks f r k
      → Recent n r
      → (leb_ℤ (pos 0) (timediff (f n).sn (add_u32 k.rcv_nxt k.rcv_wnd))
          || ltb_ℤ (timediff (f n).sn k.rcv_nxt) (pos 0))
        ≡ (leb (r + k.rcv_wnd) n || ltb n r)
  outside r n k t c =
      let wrap : add_u32 k.rcv_nxt k.rcv_wnd ≡ as_u32 (r + k.rcv_wnd) = omega arith in
      rw (
        wrap,
        t.next,
        num.number n,
        diff_nonneg n (r + k.rcv_wnd) (omega arith),
        diff_neg n r (omega arith),
      )

  enter :
      (r n : ℕ) (k : Kcp)
      → Tracks f r k
      → r ≤ n
      → n < r + k.rcv_wnd
      → Accepts r n k (move_available (record k { rcv_buf = insert_segment (f n) k.rcv_buf }))
  enter r n k t a b = record {
    advance = record {
      count = adv.count;
      bounded = adv.bounded;
      receiver = adv.receiver;
      appended = adv.appended;
      kept = λ x held. adv.kept x (ins.2 x held);
    };
    accepted = λ _ _. adv.kept (f n) ins.1;
    ignored = λ out. absurd (omega arith);
  }
    where
      open k use {rcv_wnd, rcv_buf}

      ins : Inserted f num n r (r + rcv_wnd) rcv_buf (insert_segment (f n) rcv_buf)
      ins = insert_segment-Inserted f num n r (r + rcv_wnd) rcv_buf a b (omega arith) t.buffered

      k1 : Kcp
      k1 = record k { rcv_buf = insert_segment (f n) rcv_buf }

      adv : Advances f r k1 (move_available k1)
      adv =
          move_available-Advances r k1
            (record { next = t.next; window = t.window; buffered = ins.0 })

  -- The arrival of the n-th segment at a receiver that moved on the first `r`, where its number has
  -- not come round: inside the window the segment is moved on or kept, outside the window nothing
  -- changes; the segments that come next move on in order, as far as they are there and the queue
  -- has room, what was kept stays kept or moves on, and the receiver's invariant holds again.
  pub parse_data-Accepts :
      (r n : ℕ) (k : Kcp) → IsReceiver f r k → Recent n r → Accepts r n k (parse_data k (f n))
  unfolding parse_data
  parse_data-Accepts r n k v c =
      rw (outside r n k v.tracks c) (elim (Bool-cases (leb (r + k.rcv_wnd) n || ltb n r)) [
        | inl out ↦ rw out (record {
          advance = record {
            count = 0;
            bounded = omega arith;
            receiver = rw add-zero v;
            appended = sym (append-nil k.rcv_queue);
            kept = λ x held. held;
          };
          accepted = λ a b. absurd (ground arith);
          ignored = λ _. refl;
        })
        | inr in_window ↦ rw in_window (enter r n k v.tracks (ground arith) (ground arith))
      ])
