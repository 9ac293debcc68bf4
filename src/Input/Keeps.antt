-- ===== src/Input/Keeps.antt =====
-- What holds of a state through the whole of `input`, on any bytes: its loop ends, and it does not
-- panic, where each part of it keeps a property and does not panic.
use kcp_server.Base.{
  ℕ, zero, suc, ◌+◌, ◌≤◌, ◌<◌, ◌≡◌, Bool, true, false, some, ◌++◌, length, length-append,
  length-take, length-drop, take, drop, arith, ltb, ◌==◌, if◌then◌else◌, Bool-cases, inl, inr,
  ltb_false→le, le→ltb_false, ◌⊎◌,
}
use kcp_server.Segment.{Bytes, KcpSegment, overhead}
use kcp_server.Cipher.{decode}
use kcp_server.Cipher.Laws.{length-decode}
use kcp_server.Control.{Kcp}
use kcp_server.Ack.{parse_fastack}
use kcp_server.Outcome.{ok, ◌>>=◌, Ends, >>=-Ends, Ends-mono}
use kcp_server.Input.{
  Reading, accept_conv, known_cmd, handle_segment, take_segment, read_segment, input_step,
  input_loop, input_plain, input, grow_cwnd,
}
use kcp_server.Input.Reads.{get_u32_le_lem, read_header_lem}
use kcp_server.Input.Loop.{start, position-handle_segment}

-- The parts of `input` keep `P`.
pub record IsKept (P : Kcp → Type 0) : Type 0 where
  pub handled : (s : KcpSegment) (r : Reading) → P r.kcp → P (handle_segment s r).kcp
  pub accepted :
      (k : Kcp) (conv : ℕ)
      → k.input_conv ≡ true
      → P k
      → P (record k { conv = conv; input_conv = false })
  pub counted_fast : (k : Kcp) (sn : ℕ) → P k → P (parse_fastack k sn)
  pub grows : (old : ℕ) (k : Kcp) → P k → Ends P P (grow_cwnd old k)

module _ (P : Kcp → Type 0) (kept : IsKept P) where
  accept_conv-Ends : (k : Kcp) (conv : ℕ) → P k → Ends P P (accept_conv k conv)
  unfolding accept_conv
  accept_conv-Ends k conv h = elim (Bool-cases (conv == k.conv)) [
    | inl e ↦ rw e h
    | inr e ↦ elim (Bool-cases k.input_conv) [
      | inl w ↦ simp (e, w) (kept.accepted k conv w h)
      | inr w ↦ simp (e, w) h
    ]
  ]

  -- A round keeps `P`, and passes bytes from those ahead to those behind.
  record Advanced (r r' : Reading) : Type 0 where
    holds : P r'.kcp
    total : r'.position + length r'.ahead ≡ r.position + length r.ahead
    less : length r'.ahead < length r.ahead

  take_segment-Advanced :
      (r : Reading) (k : Kcp) (s : KcpSegment) (len : ℕ) (rest : Bytes)
      → P k
      → length r.ahead ≡ overhead + length rest
      → Ends (Advanced r) P (take_segment k r (some (s, len, rest)))
  unfolding take_segment
  take_segment-Advanced r k s len rest h n = elim (Bool-cases (ltb (length rest) len)) [
    | inl short ↦ rw short h
    | inr enough ↦ elim (Bool-cases (known_cmd s.cmd)) [
      | inl known ↦
          let s' = record s { payload = take len rest } in
          let r0 = record r { kcp = k } in
          let left = length-drop len rest in
          let room = ltb_false→le (length rest) len enough in
          simp (enough, known)
            (record {
              holds = kept.handled s' r0 h;
              total = omega (arith, position-handle_segment s' r0, left, room, n);
              less = omega (arith, left, n);
            })
      | inr unknown ↦ simp (enough, unknown) h
    ]
  ]

  input_step-Advanced :
      (r : Reading) → P r.kcp → overhead ≤ length r.ahead → Ends (Advanced r) P (input_step r)
  unfolding input_step read_segment
  input_step-Advanced r holds h =
      let (conv, b, e, n) = get_u32_le_lem r.ahead (omega (arith, h)) in
      let (s, len, rest, e', n') = read_header_lem conv b (omega (arith, h, n)) in
      simp (e) (
        >>=-Ends P (Advanced r) P (accept_conv r.kcp conv) _ (accept_conv-Ends r.kcp conv holds)
          λ k same. rw e' (take_segment-Advanced r k s len rest same (omega (arith, n, n'))))

  -- The loop ends within its fuel.
  input_loop-Ends :
      (fuel : ℕ) (r : Reading)
      → P r.kcp
      → length r.ahead < fuel
      → Ends (λ r'. P r'.kcp × (r'.position ≤ r.position + length r.ahead)) P (input_loop fuel r)
  unfolding input_loop
  input_loop-Ends zero r holds h = absurd (omega (arith, h))
  input_loop-Ends (suc fuel) r holds h = elim (Bool-cases (ltb (length r.ahead) overhead)) [
    | inl short ↦ rw (short, input_loop) (holds, omega arith)
    | inr more ↦
        rw (more, input_loop)
          (>>=-Ends (Advanced r) _ _ (input_step r) (input_loop fuel)
            (input_step-Advanced r holds (ltb_false→le _ _ more))
            λ r' a.
              Ends-mono _ _ _ (input_loop fuel r') (λ x y. (y.0, omega (arith, y.1, a.total)))
                (input_loop-Ends fuel r' a.holds (omega (arith, h, a.less))))
  ]

  -- The state behind the loop, its fast acknowledgements counted.
  abbrev counted : Reading → Kcp
  counted r = if r.flag then parse_fastack r.kcp r.max_ack else r.kcp

  counted-Kept : (r : Reading) → P r.kcp → P (counted r)
  counted-Kept r h = elim (Bool-cases r.flag) [
    | inl e ↦ rw e (kept.counted_fast r.kcp r.max_ack h)
    | inr e ↦ rw e h
  ]

  abbrev Consumes : ℕ → ℕ × Kcp → Type 0
  Consumes size (n, k) = (n ≤ size) × P k

  input_plain-Kept :
      (k : Kcp) (buf : Bytes) → P k → Ends (Consumes (length buf)) P (input_plain k buf)
  unfolding input_plain
  input_plain-Kept k buf h = elim (Bool-cases (ltb (length buf) overhead)) [
    | inl short ↦ rw short h
    | inr whole ↦ rw whole (
        >>=-Ends (λ (r : Reading). P r.kcp × (r.position ≤ 0 + length buf)) (Consumes (length buf))
          P (input_loop (suc (length buf)) (start k buf))
          (λ r. grow_cwnd k.snd_una (counted r) >>= λ k2. ok (r.position, k2))
          (input_loop-Ends (suc (length buf)) (start k buf) h (omega arith))
          λ r a.
            >>=-Ends P (Consumes (length buf)) P (grow_cwnd k.snd_una (counted r))
              (λ k2. ok (r.position, k2)) (kept.grows k.snd_una (counted r) (counted-Kept r a.0))
              λ k' e. (omega (arith, a.1), e))
  ]

  pub input-Kept :
      (k : Kcp) (buf : Bytes) (decoding : Bool)
      → P k
      → (decoding ≡ false) ⊎ (4 ≤ length buf)
      → Ends (λ (x : ℕ × Kcp). (x.0 ≤ length buf) × P x.1) P (input k buf decoding)
  unfolding input
  input-Kept k buf false h d = input_plain-Kept k buf h
  input-Kept k buf true h (inl e) = absurd (ground (arith, e))
  input-Kept k buf true h (inr four) = rw (le→ltb_false (length buf) 4 four) (
      Ends-mono (Consumes (length plain)) _ P (input_plain k plain)
        (λ x y. (omega (arith, y.0, same), y.1)) (input_plain-Kept k plain h))
    where
      plain : Bytes
      plain = take 4 buf ++ decode k.output.key (drop 4 buf)

      same : length plain ≡ length buf
      same = omega (
        arith,
        four,
        length-append (take 4 buf) (decode k.output.key (drop 4 buf)),
        length-decode k.output.key (drop 4 buf),
        length-take 4 buf,
        length-drop 4 buf,
      )
