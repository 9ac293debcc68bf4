-- ===== src/Safety/Exchange.antt =====
-- Two ends of a connection: what the one hands to its UDP peer, as the other reads it. Both are a
-- Kcp of src/kcp/kcp_module/kcp.rs.
use kcp_server.Base.{
  ℕ, ◌≤◌, ◌<◌, ◌≡◌, ◌≢◌, refl, sym, ◌∙◌, ap, true, Option, List, [], ◌∷◌, ◌++◌, append-nil, u32_mod,
  length, All, All-map, if◌then◌else◌, arith,
}
use kcp_server.Segment.{cmd_push, Bytes, KcpSegment}
use kcp_server.Segment.RoundTrip.{on_wire}
use kcp_server.Control.{Kcp}
use kcp_server.Outcome.{Outcome, ok, err, panic, ◌>>=◌, Ends}
use kcp_server.Ack.{parse_fastack}
use kcp_server.Input.{Reading, input, input_plain, grow_cwnd, grow_slowly, cap_cwnd}
use kcp_server.Input.Loop.{
  IsValid, datagram, start, consumed, handle_all, concluded, length-datagram, input_plain-datagram,
}
use kcp_server.Input.Total.{mss-parse_fastack, mss-handle_segment}
use kcp_server.Input.Wire.{masked, length-masked, input-masked}
use kcp_server.Flush.Frames.{Log, Logged, Terms, IsFormed, IsFrame}

-- A push segment carries what the log has under its number.
abbrev pub Carries : Log → KcpSegment → Type 0
Carries L s = s.cmd ≡ cmd_push → Logged L s.sn s.frg s.payload

-- The end `k` takes the datagram in full: it is one of valid segments under the key, each push with
-- what the log has under its number, and `input`
-- handles each of them, once and in order, without an error or a panic.
pub record Takes (L : Log) (k : Kcp) (d : Bytes) : Type 0 where
  pub segments : List KcpSegment
  pub left : Kcp
  pub valid : All (IsValid k.conv) segments
  pub from_log : All (Carries L) segments
  pub under_key : d ≡ masked k.output.key (datagram segments)
  pub handled :
      concluded k (handle_all segments [] (start k (datagram segments))) ≡ ok (length d, left)
  pub answer : input k d true ≡ ok (length d, left)

-- The terms of one conversation and a key.
abbrev pub terms_of : (conv : ℕ) → conv < u32_mod → Option Bytes → Terms
terms_of conv h key = record {
  admits = λ c. c ≡ conv;
  admits_cut = λ c e. omega (arith, e, h);
  key = key;
}

-- A datagram on any terms holds a header at least.
pub IsFrame-long : (C : Terms) (L : Log) (d : Bytes) → IsFrame C L d → 4 ≤ length d
IsFrame-long C L d ([], e, some_there, formed) = absurd (some_there refl)
IsFrame-long C L d (s ∷ q, e, some_there, formed) =
    omega (arith, ap length e, length-masked C.key (datagram (s ∷ q)), length-datagram (s ∷ q))

-- The growth of the congestion window has no error of its own.
grow_cwnd-Ends : (old : ℕ) (k : Kcp) → 0 < k.mss → Ends (λ k'. Unit) (λ k'. ⊥) (grow_cwnd old k)
unfolding grow_cwnd grow_slowly cap_cwnd
grow_cwnd-Ends old k h = ground (arith, h)

succeeded {ℓ κ} :
    {S : Type ℓ} {A : Type κ} (o : Outcome S A) → Ends (λ a. Unit) (λ s. ⊥) o → (a : A) × (o ≡ ok a)
succeeded (ok a) e = (a, refl)
succeeded (err x s) e = absurd e
succeeded panic e = absurd e

pub mss-handle_all :
    (q : List KcpSegment) (tail : Bytes) (r : Reading) → (handle_all q tail r).kcp.mss ≡ r.kcp.mss
unfolding handle_all consumed
mss-handle_all [] tail r = refl
mss-handle_all (s ∷ q) tail r =
    mss-handle_all q tail (consumed s (datagram q ++ tail) r) ∙ mss-handle_segment (on_wire s) r

pub concluded-Succeeds :
    (k : Kcp) (r : Reading) → 0 < r.kcp.mss → (k' : Kcp) × (concluded k r ≡ ok (r.position, k'))
concluded-Succeeds k r h =
    let k1 = (if r.flag then parse_fastack r.kcp r.max_ack else r.kcp) in
    let (k2, e) =
      succeeded (grow_cwnd k.snd_una k1)
        (grow_cwnd-Ends k.snd_una k1 (ground (arith, h, mss-parse_fastack r.kcp r.max_ack))) in
    (k2, ap (λ o. o >>= λ k'. ok (r.position, k')) e)

module _ (L : Log) (conv : ℕ) (bound : conv < u32_mod) (key : Option Bytes) (k : Kcp)
    (same : k.conv ≡ conv) (same_key : k.output.key ≡ key) where
  abbrev agreed : Terms
  agreed = terms_of conv bound key

  formed-IsValid : (q : List KcpSegment) → All (IsFormed agreed L) q → All (IsValid k.conv) q
  formed-IsValid [] h = tt
  formed-IsValid (s ∷ q) h = (
    record { fits = h.0.fits; same_conv = h.0.conv ∙ sym same; command = h.0.command },
    formed-IsValid q h.1,
  )

  frame-Takes : (d : Bytes) → 0 < k.mss → IsFrame agreed L d → Takes L k d
  frame-Takes d h (q, wrapped, some_there, formed) =
      let e : d ≡ masked k.output.key (datagram q) =
        wrapped ∙ ap (λ x. masked x (datagram q)) (sym same_key) in
      let plain = datagram q ++ [] in
      let r = handle_all q [] (start k plain) in
      let valid = formed-IsValid q formed in
      let (read, position) = input_plain-datagram k q [] valid some_there (omega arith) in
      let (left, done) =
        concluded-Succeeds k r (omega (arith, h, mss-handle_all q [] (start k plain))) in
      let whole = append-nil (datagram q) in
      let size = ap length e ∙ length-masked k.output.key (datagram q) in
      let done' : concluded k r ≡ ok (length d, left) =
        done ∙ ap (λ n. ok (n, left)) (position ∙ sym size) in
      record {
        segments = q;
        left = left;
        valid = valid;
        from_log = All-map (IsFormed agreed L) (Carries L) (λ s v. v.from_log) q formed;
        under_key = e;
        handled = ap (λ b. concluded k (handle_all q [] (start k b))) (sym whole) ∙ done';
        answer =
            ap (λ b. input k b true) e
            ∙ (input-masked k (datagram q) (four q some_there)
                ∙ (ap (input_plain k) (sym whole) ∙ (read ∙ done')));
      }
    where
      four : (q : List KcpSegment) → q ≢ [] → 4 ≤ length (datagram q)
      four [] ne = absurd (ne refl)
      four (s ∷ q) ne = omega (arith, length-datagram (s ∷ q))

  pub frames-Takes : (ds : List Bytes) → 0 < k.mss → All (IsFrame agreed L) ds → All (Takes L k) ds
  frames-Takes [] h f = tt
  frames-Takes (d ∷ ds) h f = (frame-Takes d h f.0, frames-Takes ds h f.1)
