-- ===== src/Flush/Window.antt =====
-- The send window: which queued segments `flush` takes into the send buffer, under which numbers.
use kcp_server.Base.{
  ℕ, suc, ◌+◌, ◌≤◌, ◌<◌, ◌≡◌, ◌^◌, refl, ◌∙◌, sym, ap, ◌⊎◌, inl, inr, true, List, [], ◌∷◌, ◌++◌,
  append_assoc, append-nil, length, arith, max, as_u32, add_u32, ltb, ltb_ℤ, pos, Bool-cases,
}
use kcp_server.Segment.{KcpSegment, cmd_push}
use kcp_server.Control.{Kcp, timediff}
use kcp_server.Control.Serial.{diff_neg}
use kcp_server.Transmit.Message.{contents}
use kcp_server.Flush.{fill_window, outgoing}

-- Push segments of one conversation that carry `n`, `n + 1`, … modulo 2 ^ 32 and were never sent.
abbrev pub Consecutive : ℕ → ℕ → List KcpSegment → Type 0
Consecutive conv n [] = Unit {0}
Consecutive conv n (s ∷ q) =
    (s.sn ≡ as_u32 n)
    × (s.conv ≡ conv)
    × (s.cmd ≡ cmd_push)
    × (s.xmit ≡ 0)
    × Consecutive conv (suc n) q

-- From `k` to `k'` the front of the queue `q` went to the buffer: `una` and `nxt` are the numbers
-- that the wrapped `snd_una` and `snd_nxt` stand for.
pub record Filled (una nxt cwnd : ℕ) (q : List KcpSegment) (k k' : Kcp) : Type 0 where
  pub taken : List KcpSegment
  pub sent : List KcpSegment
  pub queue : q ≡ taken ++ k'.snd_queue
  pub buffer : k'.snd_buf ≡ k.snd_buf ++ sent
  pub carried : contents sent ≡ contents taken
  pub numbered : Consecutive k.conv nxt sent
  pub next : k'.snd_nxt ≡ as_u32 (nxt + length sent)
  pub within : nxt + length sent ≤ max nxt (una + cwnd)
  pub stopped : (k'.snd_queue ≡ []) ⊎ (una + cwnd ≤ nxt + length sent)

unmoved :
    (una nxt cwnd : ℕ) (q : List KcpSegment) (k : Kcp)
    → k.snd_queue ≡ q
    → k.snd_nxt ≡ as_u32 nxt
    → (k.snd_queue ≡ []) ⊎ (una + cwnd ≤ nxt)
    → Filled una nxt cwnd q k k
unmoved una nxt cwnd q k eq e why = record {
  taken = [];
  sent = [];
  queue = sym eq;
  buffer = sym (append-nil _);
  carried = refl;
  numbered = tt;
  next = e ∙ ap as_u32 (omega arith);
  within = omega arith;
  stopped = elim why [ inl done ↦ inl done | inr full ↦ inr (omega arith) ];
}

-- `flush` moves queued segments in order, numbers them one after another, keeps their contents, and
-- stops when the queue is empty or the window is full: what is in flight never passes the window,
-- unless it did before.
pub fill_window-Filled :
    (una nxt wnd cwnd : ℕ) (q : List KcpSegment) (k : Kcp)
    → k.snd_queue ≡ q
    → k.snd_una ≡ as_u32 una
    → k.snd_nxt ≡ as_u32 nxt
    → una ≤ nxt
    → nxt ≤ una + 2 ^ 30
    → cwnd < 2 ^ 16
    → Filled una nxt cwnd q k (fill_window wnd cwnd q k)
unfolding fill_window outgoing
fill_window-Filled una nxt wnd cwnd [] k eq eu en a b c = unmoved una nxt cwnd [] k eq en (inl eq)
fill_window-Filled una nxt wnd cwnd (s ∷ q) k eq eu en a b c =
    elim (Bool-cases (ltb_ℤ (timediff k.snd_nxt (add_u32 k.snd_una cwnd)) (pos 0))) [
      | inl room ↦
          rw (room, fill_window)
            (one_more room (
              fill_window-Filled una (suc nxt) wnd cwnd q k1 refl eu (omega arith) (omega arith)
                (ground (arith, in_window)) c))
      | inr full ↦
          rw (full, fill_window)
            (unmoved una nxt cwnd (s ∷ q) k eq en (inr (ground (arith, in_window))))
    ]
  where
    k1 : Kcp
    k1 = record k {
      snd_queue = q;
      snd_nxt = add_u32 k.snd_nxt 1;
      snd_buf = k.snd_buf ++ outgoing wnd k s ∷ [];
    }

    in_window : ltb_ℤ (timediff k.snd_nxt (add_u32 k.snd_una cwnd)) (pos 0) ≡ ltb nxt (una + cwnd)
    in_window =
        let wrap : add_u32 k.snd_una cwnd ≡ as_u32 (una + cwnd) = omega arith in
        rw (wrap, en) (diff_neg nxt (una + cwnd) (omega arith))

    one_more :
        {k' : Kcp}
        → ltb_ℤ (timediff k.snd_nxt (add_u32 k.snd_una cwnd)) (pos 0) ≡ true
        → Filled una (suc nxt) cwnd q k1 k'
        → Filled una nxt cwnd (s ∷ q) k k'
    one_more room f =
        let shift : suc nxt + length f.sent ≡ nxt + suc (length f.sent) = omega arith in
        record {
          taken = s ∷ f.taken;
          sent = outgoing wnd k s ∷ f.sent;
          queue = ap (◌∷◌ s) f.queue;
          buffer = f.buffer ∙ append_assoc k.snd_buf (outgoing wnd k s ∷ []) f.sent;
          carried = ap (◌∷◌ (s.frg, s.payload)) f.carried;
          numbered = (en, refl, refl, refl, f.numbered);
          next = f.next ∙ ap as_u32 shift;
          within = ground (arith, f.within, in_window, room);
          stopped = elim f.stopped [ inl done ↦ inl done | inr full ↦ inr (omega arith) ];
        }
