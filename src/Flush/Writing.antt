-- ===== src/Flush/Writing.antt =====
-- What a part of `flush` of src/kcp/kcp_module/kcp.rs writes, whatever the cuts into datagrams.
use kcp_server.Base.{
  ℕ, ◌+◌, ◌≡◌, refl, sym, ap, ◌∙◌, Option, none, some, List, [], ◌∷◌, ◌++◌, append_assoc,
  append-nil, length, ltb, Bool-cases, inl, inr, take-append-drop, ltb_false→le, ◌⊎◌, ◌-◌,
  usize_max,
}
use kcp_server.Error.{IoError}
use kcp_server.Segment.{Bytes, KcpSegment, encode, segment_bytes, encoded_len}
use kcp_server.Control.{Kcp, UdpSend, wire_bytes, answered, send_wire, send_buf}
use kcp_server.Cipher.{decode}
use kcp_server.Input.Loop.{datagram}
use kcp_server.Input.Wire.{masked, masked_twice, wire_bytes-masked}
use kcp_server.Outcome.{Outcome, ok, err, panic, ◌>>=◌}
use kcp_server.Flush.Frames.{datagram-append}
use kcp_server.Flush.Plan.{wired, unmasked}
use kcp_server.Flush.{make_room, encoded, append_segment}

-- The state without its buffer and what it has sent.
abbrev pub hollow : Kcp → Kcp
hollow k = record k { buf = []; output = record (k.output) { sent = [] } }

-- A call writes the segments `q` behind the bytes `w`; where it fails, a first part of them.
abbrev pub Writes :
    {A : Type 0} → (A → Kcp) → (A → Type 0) → List KcpSegment → Bytes → Outcome Kcp A → Type 0
Writes f P q w (ok a) = P a × (wired (f a) ≡ w ++ datagram q)
Writes f P q w (err e k) =
    (p : List KcpSegment) × (r : List KcpSegment) × (q ≡ p ++ r) × (wired k ≡ w ++ datagram p)
Writes f P q w panic = Unit

behind :
    (x y w : Bytes) (p q : List KcpSegment)
    → y ≡ w ++ datagram p
    → x ≡ y ++ datagram q
    → x ≡ w ++ datagram (p ++ q)
behind x y w p q e d =
    d
    ∙ (ap (λ b. b ++ datagram q) e
        ∙ (append_assoc w (datagram p) (datagram q) ∙ ap (λ b. w ++ b) (sym (datagram-append p q))))

Writes-behind :
    {A : Type 0} (f : A → Kcp) (P : A → Type 0) (p q : List KcpSegment) (w y : Bytes)
    (o : Outcome Kcp A)
    → y ≡ w ++ datagram p
    → Writes f P q y o
    → Writes f P (p ++ q) w o
Writes-behind f P p q w y (ok a) e (h, d) = (h, behind (wired (f a)) y w p q e d)
Writes-behind f P p q w y (err x k) e (a, b, split, d) =
    (p ++ a, b, ap (λ z. p ++ z) split ∙ sym (append_assoc p a b), behind (wired k) y w p a e d)
Writes-behind f P p q w y panic e h = tt

pub >>=-Writes :
    {A B : Type 0} (f : A → Kcp) (g : B → Kcp) (P : A → Type 0) (R : B → Type 0)
    (p q : List KcpSegment) (w : Bytes) (m : Outcome Kcp A) (next : A → Outcome Kcp B)
    → Writes f P p w m
    → ((a : A) → P a → Writes g R q (wired (f a)) (next a))
    → Writes g R (p ++ q) w (m >>= next)
>>=-Writes f g P R p q w (ok a) next (h, d) rest =
    Writes-behind g R p q w (wired (f a)) (next a) d (rest a h)
>>=-Writes f g P R p q w (err e k) next (a, b, split, d) rest =
    (a, b ++ q, ap (λ z. z ++ q) split ∙ append_assoc a b q, d)
>>=-Writes f g P R p q w panic next h rest = tt

pub Writes-map :
    {A : Type 0} (f : A → Kcp) (P R : A → Type 0) (q : List KcpSegment) (w : Bytes)
    (o : Outcome Kcp A)
    → ((a : A) → P a → R a)
    → Writes f P q w o
    → Writes f R q w o
Writes-map f P R q w (ok a) h (p, d) = (h a p, d)
Writes-map f P R q w (err e k) h t = t
Writes-map f P R q w panic h t = t

pub Writes-ok :
    {A B : Type 0} (f : A → Kcp) (g : B → Kcp) (P : A → Type 0) (R : B → Type 0)
    (q : List KcpSegment) (w : Bytes) (m : Outcome Kcp A) (h : A → B)
    → Writes f P q w m
    → ((a : A) → P a → R (h a))
    → ((a : A) → wired (g (h a)) ≡ wired (f a))
    → Writes g R q w (m >>= λ a. ok (h a))
Writes-ok f g P R q w (ok a) h (p, d) k e = (k a p, e a ∙ d)
Writes-ok f g P R q w (err x k') h t k e = t
Writes-ok f g P R q w panic h t k e = t

abbrev pub whole : Kcp → Kcp
whole k = k

abbrev pub beside : KcpSegment × Kcp → Kcp
beside (s, k) = k

-- But for the buffer and what was sent, the state is that of `k`.
abbrev pub Same : Kcp → Kcp → Type 0
Same k k' = hollow k' ≡ hollow k

unmasked-append :
    (key : Option Bytes) (ds : List Bytes) (d : Bytes)
    → unmasked key (ds ++ d ∷ []) ≡ unmasked key ds ++ masked key d
unmasked-append key [] d = append-nil (masked key d)
unmasked-append key (x ∷ ds) d =
    ap (λ b. masked key x ++ b) (unmasked-append key ds d)
    ∙ sym (append_assoc (masked key x) (unmasked key ds) (masked key d))

wire_bytes-undone :
    (key : Option Bytes) (b : Bytes)
    → (wire_bytes key b ≡ none) ⊎ ((d : Bytes) × (wire_bytes key b ≡ some d) × (masked key d ≡ b))
unfolding wire_bytes decode
wire_bytes-undone none b = inr (b, refl, take-append-drop 4 b)
wire_bytes-undone (some key) b = elim (Bool-cases (ltb (length b) 4)) [
  | inl short ↦ inl (rw short refl)
  | inr long ↦
      let h = ltb_false→le (length b) 4 long in
      inr (masked (some key) b, wire_bytes-masked (some key) b h, masked_twice (some key) b h)
]

module _ (udp : UdpSend) where
  -- A datagram that the key turns into the buffer, sent.
  answered-Writes :
      (k : Kcp) (d : Bytes) (a : Option IoError)
      → masked k.output.key d ≡ k.buf
      → Writes whole (λ k'. Same k k' × (k'.buf ≡ [])) [] (wired k) (answered k d a)
  unfolding answered
  answered-Writes k d (some e) h = ([], [], refl, sym (append-nil (wired k)))
  answered-Writes k d none h = (
    (refl, refl),
    ap (λ b. b ++ [])
        (unmasked-append k.output.key k.output.sent d
          ∙ ap (λ b. unmasked k.output.key k.output.sent ++ b) h),
  )

  pub send_buf-Writes :
      (k : Kcp) → Writes whole (λ k'. Same k k' × (k'.buf ≡ [])) [] (wired k) (send_buf udp k)
  unfolding send_buf send_wire
  send_buf-Writes k = elim (wire_bytes-undone k.output.key k.buf) [
    | inl short ↦ rw short tt
    | inr (d, e, undone) ↦ rw e (answered-Writes k d (udp k.output.sent d) undone)
  ]

  pub make_room-Writes : (n : ℕ) (k : Kcp) → Writes whole (Same k) [] (wired k) (make_room udp n k)
  unfolding make_room
  make_room-Writes n k = elim (Bool-cases (ltb k.mtu (length k.buf + n))) [
    | inl full ↦ rw full (
        Writes-map whole _ (Same k) [] (wired k) (send_buf udp k) (λ k' p. p.0) (send_buf-Writes k))
    | inr room ↦ rw room (refl, sym (append-nil (wired k)))
  ]

  append_segment-Writes :
      (s t : KcpSegment) (k : Kcp)
      → segment_bytes s ≡ segment_bytes t
      → Writes whole (Same k) (t ∷ []) (wired k) (append_segment s k)
  unfolding append_segment encoded encode
  append_segment-Writes s t k e =
      elim (Bool-cases (ltb (usize_max - length k.buf) (encoded_len s))) [
        | inl full ↦ rw full tt
        | inr room ↦ rw room (
          refl,
          ap (λ b. unmasked k.output.key k.output.sent ++ (k.buf ++ b))
                (e ∙ sym (append-nil (segment_bytes t)))
              ∙ sym (
                  append_assoc (unmasked k.output.key k.output.sent) k.buf (segment_bytes t ++ [])),
        )
      ]

  -- One segment, with the room made for it, and what follows; `t` has the same bytes.
  pub put_as-Writes :
      {A : Type 0} (f : A → Kcp) (R : A → Type 0) (n : ℕ) (s t : KcpSegment) (q : List KcpSegment)
      (k : Kcp) (next : Kcp → Outcome Kcp A)
      → segment_bytes s ≡ segment_bytes t
      → ((k' : Kcp) → Same k k' → Writes f R q (wired k') (next k'))
      → Writes f R (t ∷ q) (wired k) (make_room udp n k >>= λ k1. append_segment s k1 >>= next)
  put_as-Writes f R n s t q k next same rest =
      >>=-Writes whole f (Same k) R [] (t ∷ q) (wired k) (make_room udp n k) _
        (make_room-Writes n k)
        λ k1 e.
          >>=-Writes whole f (Same k1) R (t ∷ []) q (wired k1) (append_segment s k1) next
            (append_segment-Writes s t k1 same) λ k2 d. rest k2 (d ∙ e)

  pub put-Writes :
      {A : Type 0} (f : A → Kcp) (R : A → Type 0) (n : ℕ) (s : KcpSegment) (q : List KcpSegment)
      (k : Kcp) (next : Kcp → Outcome Kcp A)
      → ((k' : Kcp) → Same k k' → Writes f R q (wired k') (next k'))
      → Writes f R (s ∷ q) (wired k) (make_room udp n k >>= λ k1. append_segment s k1 >>= next)
  put-Writes f R n s q k next rest = put_as-Writes f R n s s q k next refl rest
