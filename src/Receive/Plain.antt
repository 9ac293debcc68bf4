-- ===== src/Receive/Plain.antt =====
-- What of a segment the receiving half of Kcp looks at: its number, its fragment number and its
-- payload. The other fields of a segment that arrives again may have changed.
use kcp_server.Base.{
  ℕ, zero, suc, ◌-◌, ◌≡◌, refl, ap, sym, ◌∙◌, Bool, List, [], ◌∷◌, ◌++◌, reverse, length, take,
  drop, insert_at, arith, ltb, leb, ◌==◌, ltb_ℤ, leb_ℤ, pos, ◌||◌, ◌&&◌, Bool-cases, inl, inr,
  add_u32,
}
use mathlib.Core.List.{reverse-cons}
use kcp_server.Segment.{KcpSegment, new_with_data}
use kcp_server.Control.{Kcp, timediff}
use kcp_server.Receive.{
  find_slot, insert_segment, move_ready, move_available, parse_data, fast_recover,
}
use kcp_server.Receive.Messages.{payloads, after_message, refilled}

abbrev pub plain : KcpSegment → KcpSegment
plain s = record (new_with_data s.payload) { sn = s.sn; frg = s.frg }

abbrev pub plains : List KcpSegment → List KcpSegment
plains [] = []
plains (s ∷ q) = plain s ∷ plains q

abbrev pub bare : Kcp → Kcp
bare k = record k { rcv_buf = plains k.rcv_buf; rcv_queue = plains k.rcv_queue }

pub length-plains : (q : List KcpSegment) → length (plains q) ≡ length q
length-plains [] = refl
length-plains (s ∷ q) = ap suc (length-plains q)

plains-append : (p q : List KcpSegment) → plains (p ++ q) ≡ plains p ++ plains q
plains-append [] q = refl
plains-append (s ∷ p) q = ap (◌∷◌ (plain s)) (plains-append p q)

plains-reverse : (q : List KcpSegment) → plains (reverse q) ≡ reverse (plains q)
plains-reverse [] = refl
plains-reverse (s ∷ q) =
    rw (reverse-cons s q, reverse-cons (plain s) (plains q))
      (plains-append (reverse q) (s ∷ []) ∙ ap (λ x. x ++ plain s ∷ []) (plains-reverse q))

plains-take : (i : ℕ) (q : List KcpSegment) → plains (take i q) ≡ take i (plains q)
plains-take zero q = refl
plains-take (suc i) [] = refl
plains-take (suc i) (s ∷ q) = ap (◌∷◌ (plain s)) (plains-take i q)

plains-drop : (i : ℕ) (q : List KcpSegment) → plains (drop i q) ≡ drop i (plains q)
plains-drop zero q = refl
plains-drop (suc i) [] = refl
plains-drop (suc i) (s ∷ q) = plains-drop i q

plains-insert_at :
    (i : ℕ) (s : KcpSegment) (q : List KcpSegment)
    → plains (insert_at i s q) ≡ insert_at i (plain s) (plains q)
plains-insert_at i s q =
    plains-append (take i q) (s ∷ drop i q)
    ∙ (λ j. plains-take i q j ++ plain s ∷ plains-drop i q j)

find_slot-plains :
    (sn : ℕ) (q : List KcpSegment) (i : ℕ) → find_slot sn (plains q) i ≡ find_slot sn q i
unfolding find_slot
find_slot-plains sn [] i = refl
find_slot-plains sn (s ∷ q) i = ground (arith, find_slot-plains sn q (i - 1))

insert_segment-plains :
    (s : KcpSegment) (b : List KcpSegment)
    → insert_segment (plain s) (plains b) ≡ plains (insert_segment s b)
unfolding insert_segment
insert_segment-plains s b =
    rw (← plains-reverse b, find_slot-plains s.sn (reverse b) (length (plains b)), length-plains b)
      (elim (Bool-cases (find_slot s.sn (reverse b) (length b)).0) [
        | inl repeat ↦ rw repeat refl
        | inr new ↦ rw new (sym (plains-insert_at (find_slot s.sn (reverse b) (length b)).1 s b))
      ])

move_ready-plains :
    (wnd nxt : ℕ) (b q : List KcpSegment)
    → let (n, b', q') = move_ready wnd nxt b q in
      move_ready wnd nxt (plains b) (plains q) ≡ (n, plains b', plains q')
unfolding move_ready
move_ready-plains wnd nxt [] q = refl
move_ready-plains wnd nxt (s ∷ b) q = elim (Bool-cases ((s.sn == nxt) && ltb (length q) wnd)) [
  | inl go ↦
      rw (length-plains q, go, ← plains-append q (s ∷ []))
        (move_ready-plains wnd (add_u32 nxt 1) b (q ++ s ∷ []))
  | inr stay ↦ rw (length-plains q, stay) refl
]

move_available-bare : (k : Kcp) → move_available (bare k) ≡ bare (move_available k)
unfolding move_available
move_available-bare k = rw (move_ready-plains k.rcv_wnd k.rcv_nxt k.rcv_buf k.rcv_queue) refl

pub parse_data-bare :
    (k : Kcp) (s : KcpSegment) → parse_data (bare k) (plain s) ≡ bare (parse_data k s)
unfolding parse_data
parse_data-bare k s =
    elim (Bool-cases (
      leb_ℤ (pos 0) (timediff s.sn (add_u32 k.rcv_nxt k.rcv_wnd))
      || ltb_ℤ (timediff s.sn k.rcv_nxt) (pos 0))) [
        | inl out ↦ rw out refl
        | inr inside ↦
            rw (inside, insert_segment-plains s k.rcv_buf)
              (move_available-bare (record k { rcv_buf = insert_segment s k.rcv_buf }))
      ]

pub payloads-plains : (q : List KcpSegment) → payloads (plains q) ≡ payloads q
payloads-plains [] = refl
payloads-plains (s ∷ q) = ap (λ x. s.payload ++ x) (payloads-plains q)

pub after_message-plains :
    (q : List KcpSegment) → after_message (plains q) ≡ plains (after_message q)
unfolding after_message
after_message-plains [] = refl
after_message-plains (s ∷ q) = elim (Bool-cases (s.frg == 0)) [
  | inl last ↦ rw last refl
  | inr more ↦ rw more (after_message-plains q)
]

fast_recover-bare :
    (recover : Bool) (k : Kcp) → fast_recover recover (bare k) ≡ bare (fast_recover recover k)
unfolding fast_recover
fast_recover-bare recover k = elim (Bool-cases (ltb (length k.rcv_queue) k.rcv_wnd && recover)) [
  | inl opens ↦ rw (length-plains k.rcv_queue, opens) refl
  | inr closed ↦ rw (length-plains k.rcv_queue, closed) refl
]

pub refilled-bare : (k : Kcp) → refilled (bare k) ≡ bare (refilled k)
refilled-bare k =
    rw (length-plains k.rcv_queue, after_message-plains k.rcv_queue)
      (ap (fast_recover (leb k.rcv_wnd (length k.rcv_queue)))
          (move_available-bare (record k { rcv_queue = after_message k.rcv_queue }))
        ∙ fast_recover-bare (leb k.rcv_wnd (length k.rcv_queue))
            (move_available (record k { rcv_queue = after_message k.rcv_queue })))
