-- ===== src/Transmit/Stream.antt =====
-- Stream mode: `send` fills the last segment, then cuts the rest.
use kcp_server.Base.{
  ℕ, zero, suc, ◌-◌, ◌≤◌, ◌<◌, ◌≡◌, refl, ◌∙◌, sym, ap, inl, inr, true, false, ◌&&◌, not, is_empty,
  min, List, [], ◌∷◌, ◌++◌, append_assoc, append-nil, length, length-append, length-take,
  length-drop, take, drop, take-append-drop, arith, ltb, leb, ◌==◌, Bool-cases, if◌then◌else◌, All,
  All-append, lt→ltb,
}
use mathlib.Core.Path.{ap₂}
use kcp_server.Error.{Error}
use kcp_server.Segment.{Bytes, KcpSegment}
use kcp_server.Control.{Kcp, wnd_rcv}
use kcp_server.Outcome.{Outcome, ok, err, panic}
use kcp_server.Receive.Messages.{payloads, payloads-append}
use kcp_server.Transmit.{fragment_count, send_rest, send, extend_back}
use kcp_server.Transmit.Fragments.{
  cut, payloads-cut, fragment_count-IsLeast, send_rest_lem, send_rest_big,
}

is_empty-nil : (xs : Bytes) → is_empty xs ≡ true → xs ≡ []
is_empty-nil [] e = refl
is_empty-nil (x ∷ xs) e = cc

not_empty : (xs : Bytes) → 0 < length xs → is_empty xs ≡ false
not_empty [] h = absurd (omega arith)
not_empty (x ∷ xs) h = refl

-- A segment of a stream: at most `mss` bytes, with no fragments to follow.
abbrev pub IsPiece : ℕ → KcpSegment → Type 0
IsPiece mss s = (length s.payload ≤ mss) × (s.frg ≡ 0)

cut-IsPiece : (mss n : ℕ) (buf : Bytes) → All (IsPiece mss) (cut true mss n buf)
unfolding cut
cut-IsPiece mss zero buf = tt
cut-IsPiece mss (suc n) buf = (
  (omega (arith, length-take (min mss (length buf)) buf), refl),
  cut-IsPiece mss n (drop (min mss (length buf)) buf),
)

-- What the extension of the last segment takes from the buffer and leaves of it.
record Extended (mss : ℕ) (buf : Bytes) (q : List KcpSegment) (out : ℕ × Bytes × List KcpSegment)
    : Type 0 where
  bounded : out.0 ≤ length buf
  left : out.1 ≡ drop out.0 buf
  bytes : payloads out.2 ≡ payloads q ++ take out.0 buf
  pieces : All (IsPiece mss) q → All (IsPiece mss) out.2

extend_back-Extended :
    (mss : ℕ) (buf : Bytes) (q : List KcpSegment) → Extended mss buf q (extend_back mss buf q)
unfolding extend_back
extend_back-Extended mss buf [] = record {
  bounded = omega arith;
  left = refl;
  bytes = refl;
  pieces = λ h. h;
}
extend_back-Extended mss buf (s ∷ []) = elim (Bool-cases (ltb (length s.payload) mss)) [
  | inl room ↦ rw room (record {
    bounded = omega arith;
    left = refl;
    bytes = simp append-nil;
    pieces = λ h. (
      (
        omega (
          arith,
          length-append s.payload (take (min (length buf) (mss - length s.payload)) buf),
          length-take (min (length buf) (mss - length s.payload)) buf,
          h.0,
        ),
        refl,
      ),
      tt,
    );
  })
  | inr full ↦
      rw full
        (record { bounded = omega arith; left = refl; bytes = sym (append-nil _); pieces = λ h. h })
]
extend_back-Extended mss buf (s ∷ t ∷ q) =
    let e = extend_back-Extended mss buf (t ∷ q) in
    record {
      bounded = e.bounded;
      left = e.left;
      bytes = ap (◌++◌ s.payload) e.bytes ∙ sym (append_assoc s.payload (payloads (t ∷ q)) _);
      pieces = λ h. (h.0, e.pieces h.1);
    }

-- What a call of `send` comes to in stream mode.
abbrev pub SentStream : Kcp → Bytes → Outcome Kcp (ℕ × Kcp) → Type 0
SentStream k buf (ok (n, k')) =
    (n ≡ length buf)
    × (payloads k'.snd_queue ≡ payloads k.snd_queue ++ buf)
    × (All (IsPiece k.mss) k.snd_queue → All (IsPiece k.mss) k'.snd_queue)
    × (k' ≡ record k { snd_queue = k'.snd_queue })
SentStream k buf (err e k') =
    (e ≡ Error.user_buf_too_big)
    × ((n : ℕ) × (payloads k'.snd_queue ≡ payloads k.snd_queue ++ take n buf))
    × (k' ≡ record k { snd_queue = k'.snd_queue })
SentStream k buf panic = ⊥

send_rest-SentStream :
    (e : ℕ) (old : List KcpSegment) (buf : Bytes) (k : Kcp)
    → 0 < k.mss
    → k.stream ≡ true
    → e ≤ length buf
    → payloads k.snd_queue ≡ payloads old ++ take e buf
    → (All (IsPiece k.mss) old → All (IsPiece k.mss) k.snd_queue)
    → SentStream (record k { snd_queue = old }) buf (send_rest e (drop e buf) k)
send_rest-SentStream e old buf k h mode b bytes pieces =
    elim (Bool-cases (leb wnd_rcv (fragment_count k.mss (length (drop e buf))))) [
      | inl big ↦ rw (send_rest_big e (drop e buf) k (ground arith)) (refl, (e, bytes), refl)
      | inr fits ↦
          rw (send_rest_lem e (drop e buf) k h (ground arith), mode)
            (
              omega (arith, length-drop e buf),
              grown,
              λ old. All-append _ k.snd_queue _ (pieces old) (cut-IsPiece k.mss _ (drop e buf)),
              refl,
            )
    ]
  where
    count : ℕ
    count = fragment_count k.mss (length (drop e buf))

    grown : payloads (k.snd_queue ++ cut true k.mss count (drop e buf)) ≡ payloads old ++ buf
    grown =
        payloads-append k.snd_queue _
        ∙ (ap₂ (λ a b. a ++ b) bytes
              (payloads-cut true k.mss count (drop e buf)
                (fragment_count-IsLeast k.mss (length (drop e buf)) h).1)
            ∙ (append_assoc (payloads old) (take e buf) (drop e buf)
                ∙ ap (◌++◌ (payloads old)) (take-append-drop e buf)))

-- In stream mode `send` appends exactly the bytes of the buffer to those of the queue, cut into
-- pieces of at most one segment that end their messages. Where it refuses a buffer, some first part
-- of the buffer may stand in the queue all the same. It changes nothing else, and does not panic.
pub send-SentStream :
    (k : Kcp) (buf : Bytes) → 0 < k.mss → k.stream ≡ true → SentStream k buf (send k buf)
unfolding send
send-SentStream k buf h mode =
    let positive : (k.mss == 0) ≡ false = ground arith in
    elim (Bool-cases (is_empty k.snd_queue)) [
      | inl e ↦
          let skip : (k.stream && not (is_empty k.snd_queue)) ≡ false = rw (mode, e) refl in
          rw (positive, skip)
            (send_rest-SentStream 0 k.snd_queue buf k h mode (omega arith) (sym (append-nil _))
              (λ old. old))
      | inr e ↦
          let extends : (k.stream && not (is_empty k.snd_queue)) ≡ true = rw (mode, e) refl in
          rw (positive, extends)
            (extended (extend_back k.mss buf k.snd_queue)
              (extend_back-Extended k.mss buf k.snd_queue))
    ]
  where
    all_taken : (n : ℕ) → drop n buf ≡ [] → take n buf ≡ buf
    all_taken n e =
        sym (append-nil (take n buf)) ∙ (ap (◌++◌ (take n buf)) (sym e) ∙ take-append-drop n buf)

    extended :
        (out : ℕ × Bytes × List KcpSegment)
        → Extended k.mss buf k.snd_queue out
        → SentStream k buf (
            if is_empty out.1
            then ok (out.0, record k { snd_queue = out.2 })
            else send_rest out.0 out.1 (record k { snd_queue = out.2 }))
    extended out x = elim (Bool-cases (is_empty out.1)) [
      | inl e ↦
          let none_left = is_empty-nil (drop out.0 buf) (rw x.left at e) in
          rw e (
            omega (arith, ap length none_left, length-drop out.0 buf, x.bounded),
            x.bytes ∙ ap (◌++◌ (payloads k.snd_queue)) (all_taken out.0 none_left),
            x.pieces,
            refl,
          )
      | inr e ↦
          rw (e, x.left)
            (send_rest-SentStream out.0 k.snd_queue buf (record k { snd_queue = out.2 }) h mode
              x.bounded x.bytes x.pieces)
    ]

abbrev under : KcpSegment → ℕ × Bytes × List KcpSegment → ℕ × Bytes × List KcpSegment
under x (n, rest, q) = (n, rest, x ∷ q)

extend_back-room :
    (mss : ℕ) (buf : Bytes) (s : KcpSegment)
    → length s.payload < mss
    → mss - length s.payload < length buf
    → extend_back mss buf (s ∷ []) ≡ (
      mss - length s.payload,
      drop (mss - length s.payload) buf,
      record s { payload = s.payload ++ take (mss - length s.payload) buf; frg = 0 } ∷ [],
    )
unfolding extend_back
extend_back-room mss buf s room more =
    let e : min (length buf) (mss - length s.payload) ≡ mss - length s.payload = omega arith in
    rw (lt→ltb _ _ room, e)

-- The same behind other segments.
extend_back-last :
    (mss : ℕ) (buf : Bytes) (p : List KcpSegment) (s : KcpSegment)
    → length s.payload < mss
    → mss - length s.payload < length buf
    → extend_back mss buf (p ++ s ∷ []) ≡ (
      mss - length s.payload,
      drop (mss - length s.payload) buf,
      p ++ record s { payload = s.payload ++ take (mss - length s.payload) buf; frg = 0 } ∷ [],
    )
unfolding extend_back
extend_back-last mss buf [] s room more = extend_back-room mss buf s room more
extend_back-last mss buf (x ∷ []) s room more = ap (under x) (extend_back-room mss buf s room more)
extend_back-last mss buf (x ∷ y ∷ p) s room more =
    ap (under x) (extend_back-last mss buf (y ∷ p) s room more)

not_empty_append : (p : List KcpSegment) (s : KcpSegment) → not (is_empty (p ++ s ∷ [])) ≡ true
not_empty_append [] s = refl
not_empty_append (x ∷ p) s = refl

-- The error does not undo the extension: where the last segment of the queue has room, the buffer has
-- more bytes than fill it, and what remains is too large, `send` fails although it has queued the
-- bytes that filled that room, and the queue holds more bytes than before.
pub send_stream_partial :
    (k : Kcp) (buf : Bytes) (p : List KcpSegment) (s : KcpSegment)
    → 0 < k.mss
    → k.stream ≡ true
    → k.snd_queue ≡ p ++ s ∷ []
    → length s.payload < k.mss
    → wnd_rcv ≤ fragment_count k.mss (length buf - (k.mss - length s.payload))
    → k.mss - length s.payload < length buf
    → (k' : Kcp) × (send k buf ≡ err Error.user_buf_too_big k')
      × (payloads k'.snd_queue ≡ payloads k.snd_queue ++ take (k.mss - length s.payload) buf)
      × (length (payloads k.snd_queue) < length (payloads k'.snd_queue))
unfolding send
send_stream_partial k buf p s pos_mss mode queue room big more =
    let size = k.mss - length s.payload in
    let positive : (k.mss == 0) ≡ false = ground arith in
    let extends : (k.stream && not (is_empty k.snd_queue)) ≡ true =
      rw (mode, queue) (not_empty_append p s) in
    let ext = extend_back-last k.mss buf p s room more in
    let left = length-drop size buf in
    let grown = record s { payload = s.payload ++ take size buf; frg = 0 } in
    let last : payloads (grown ∷ []) ≡ payloads (s ∷ []) ++ take size buf = simp append-nil in
    let bytes : payloads (p ++ grown ∷ []) ≡ payloads (p ++ s ∷ []) ++ take size buf =
      payloads-append p (grown ∷ [])
      ∙ (ap (λ b. payloads p ++ b) last
          ∙ (sym (append_assoc (payloads p) (payloads (s ∷ [])) (take size buf))
              ∙ ap (λ b. b ++ take size buf) (sym (payloads-append p (s ∷ []))))) in
    (
      record k { snd_queue = p ++ grown ∷ [] },
      rw (positive, extends, queue, ext)
          (rw (not_empty (drop size buf) (omega arith))
            (send_rest_big size (drop size buf) _ (rw left big))),
      rw queue bytes,
      rw queue (
          omega (
            arith,
            ap length bytes,
            length-append (payloads (p ++ s ∷ [])) (take size buf),
            length-take size buf,
          )),
    )
