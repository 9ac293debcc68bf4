-- ===== src/Flush/Numbers.antt =====
-- `flush` gives the queued segments their numbers: the log of `Frames` grows by them.
use kcp_server.Base.{
  ℕ, ◌≡◌, refl, ap, sym, ◌∙◌, List, [], ◌∷◌, ◌++◌, append_assoc, append-nil, length, length-append,
  get_elem?-append, get_elem?-length, All, All-map, All-append, arith, as_u8, add_u32, ltb_ℤ, pos,
  Bool-cases, inl, inr,
}
use kcp_server.Segment.{Bytes, KcpSegment}
use kcp_server.Control.{Kcp, timediff}
use kcp_server.Receive.Messages.{payloads}
use kcp_server.Flush.Frames.{
  Longer, Moved, Moved-refl, entries, Log, Terms, Logged, IsFormed, IsFrame, log_bytes,
}
use kcp_server.Flush.Datagrams.{Waits, Framed, Tidy, FitsMtu}
use kcp_server.Flush.{fill_window, outgoing}

-- One more segment has a number.
abbrev later : Log → ℕ × Bytes → List (ℕ × Bytes) → Log
later L x q = record L { numbered = L.numbered ++ x ∷ []; waiting = q }

log_bytes-append :
    (p : List (ℕ × Bytes)) (frg : ℕ) (payload : Bytes)
    → log_bytes (p ++ (frg, payload) ∷ []) ≡ log_bytes p ++ payload
log_bytes-append [] frg payload = append-nil payload
log_bytes-append ((g, b) ∷ p) frg payload =
    ap (λ x. b ++ x) (log_bytes-append p frg payload) ∙ sym (append_assoc b (log_bytes p) payload)

-- The state is tidy with a log that has perhaps more numbers, of the same bytes.
abbrev pub Renewed : ℕ → Terms → Log → Kcp → Type 0
Renewed mtu C L k = (L' : Log) × Moved L L' × (L'.given ≡ L.given) × Tidy mtu C L' k

Renewed-later :
    (mtu : ℕ) (C : Terms) (L : Log) (x : ℕ × Bytes) (k : Kcp) (q : List (ℕ × Bytes))
    → L.waiting ≡ x ∷ q
    → Renewed mtu C (later L x q) k
    → Renewed mtu C L k
Renewed-later mtu C L x k q first (L', (m, e, w), given, t) =
    (L', (x ∷ m, e ∙ append_assoc L.numbered (x ∷ []) m, first ∙ ap (◌∷◌ x) w), given, t)

module _ (mtu : ℕ) (C : Terms) where
  Logged-Longer :
      (L L' : Log) (sn frg : ℕ) (payload : Bytes)
      → Longer L L'
      → Logged L sn frg payload
      → Logged L' sn frg payload
  Logged-Longer L L' sn frg payload (more, longer) (n, e, m) =
      (n, rw longer (get_elem?-append L.numbered more n _ e), m)

  pub Waits-Longer :
      (L L' : Log) → Longer L L' → (s : KcpSegment) → Waits mtu C L s → Waits mtu C L' s
  Waits-Longer L L' l s w = (w.0, w.1, w.2, Logged-Longer L L' s.sn (as_u8 s.frg) s.payload l w.3)

  IsFormed-Longer : (L L' : Log) → Longer L L' → (s : KcpSegment) → IsFormed C L s → IsFormed C L' s
  IsFormed-Longer L L' l s v = record {
    fits = v.fits;
    conv = v.conv;
    command = v.command;
    from_log = λ e. Logged-Longer L L' s.sn s.frg s.payload l (v.from_log e);
  }

  IsFrame-Longer : (L L' : Log) → Longer L L' → (d : Bytes) → IsFrame C L d → IsFrame C L' d
  IsFrame-Longer L L' l d (q, e, some_there, v) =
      (q, e, some_there, All-map (IsFormed C L) (IsFormed C L') (IsFormed-Longer L L' l) q v)

  pub Framed-Longer : (L L' : Log) → Longer L L' → (k : Kcp) → Framed C L k → Framed C L' k
  Framed-Longer L L' l k (admitted, taken, (q, e, v), frames, key) = (
    admitted,
    taken,
    (q, e, All-map (IsFormed C L) (IsFormed C L') (IsFormed-Longer L L' l) q v),
    All-map (IsFrame C L) (IsFrame C L') (IsFrame-Longer L L' l) k.output.sent frames,
    key,
  )

  -- The first of the queue gets the next number.
  numbered-Tidy :
      (L : Log) (wnd : ℕ) (s : KcpSegment) (q : List KcpSegment) (k : Kcp)
      → k.snd_queue ≡ s ∷ q
      → Tidy mtu C L k
      → Tidy mtu C (later L (as_u8 s.frg, s.payload) (entries q)) (record k {
        snd_queue = q;
        snd_nxt = add_u32 k.snd_nxt 1;
        snd_buf = k.snd_buf ++ outgoing wnd k s ∷ [];
      })
  unfolding outgoing
  numbered-Tidy L wnd s q k e t = record {
    same_mtu = t.same_mtu;
    mss_bounds = t.mss_bounds;
    mtu_bounds = t.mtu_bounds;
    buf_fits = t.buf_fits;
    buf_whole = t.buf_whole;
    sent_fit = t.sent_fit;
    framed = Framed-Longer L (later L x (entries q)) (x ∷ [], refl) k t.framed;
    queue_fits = all.1;
    buffer_fits =
        All-append (Waits mtu C (later L x (entries q))) k.snd_buf (outgoing wnd k s ∷ [])
          (All-map (Waits mtu C L) (Waits mtu C (later L x (entries q)))
            (Waits-Longer L (later L x (entries q)) (x ∷ [], refl)) k.snd_buf t.buffer_fits)
          ((all.0, C.admits_cut _ t.framed.0, refl, here), tt);
    logged = (
      omega (arith, t.logged.0, length-append L.numbered (x ∷ [])),
      ap (λ b. b ++ payloads q) (log_bytes-append L.numbered (as_u8 s.frg) s.payload)
          ∙ (append_assoc (log_bytes L.numbered) s.payload (payloads q) ∙ whole),
      refl,
    );
  }
    where
      x : ℕ × Bytes
      x = (as_u8 s.frg, s.payload)

      all : All (FitsMtu mtu) (s ∷ q)
      all = rw e at t.queue_fits

      here : Logged (later L x (entries q)) k.snd_nxt (as_u8 s.frg) s.payload
      here = (length L.numbered, get_elem?-length L.numbered x, t.logged.0)

      whole : log_bytes L.numbered ++ payloads (s ∷ q) ≡ L.given
      whole = rw e at t.logged.1

  pub fill_window-Renewed :
      (L : Log) (wnd cwnd : ℕ) (q : List KcpSegment) (k : Kcp)
      → k.snd_queue ≡ q
      → Tidy mtu C L k
      → Renewed mtu C L (fill_window wnd cwnd q k)
  unfolding fill_window
  fill_window-Renewed L wnd cwnd [] k e t = (L, Moved-refl L, refl, t)
  fill_window-Renewed L wnd cwnd (s ∷ q) k e t =
      elim (Bool-cases (ltb_ℤ (timediff k.snd_nxt (add_u32 k.snd_una cwnd)) (pos 0))) [
        | inl room ↦
            rw (room, fill_window)
              (Renewed-later mtu C L (as_u8 s.frg, s.payload) _ (entries q)
                (sym t.logged.2 ∙ ap entries e)
                (fill_window-Renewed (later L (as_u8 s.frg, s.payload) (entries q)) wnd cwnd q _
                  refl (numbered-Tidy L wnd s q k e t)))
        | inr full ↦ rw (full, fill_window) (L, Moved-refl L, refl, t)
      ]
