-- ===== src/Safety/Numbering.antt =====
-- What `flush` of src/kcp/kcp_module/kcp.rs has numbered, as a sequence of segments that a receiver can
-- be held against.
use kcp_server.Base.{
  ℕ, zero, suc, ◌+◌, ◌≤◌, ◌<◌, ◌≡◌, refl, sym, ap, ◌∙◌, inl, inr, Option, none, some, List, [], ◌∷◌,
  ◌++◌, append_assoc, length, take, drop, All, subst, ltb, Bool-cases, ltb→lt, ltb_false→le,
  get_elem?, get_elem?-append, arith, as_u32,
}
use kcp_server.Segment.{Bytes, KcpSegment, new_with_data}
use kcp_server.Receive.Buffer.{Numbered, segments, Buffered}
use kcp_server.Receive.Messages.{payloads}
use kcp_server.Receive.Plain.{plain, plains}
use kcp_server.Flush.Frames.{log_bytes}

-- The segment of an entry of the log; the mark `xmit` tells one past the end of the log.
abbrev entry : ℕ → Option (ℕ × Bytes) → KcpSegment
entry n (some (frg, payload)) = record (new_with_data payload) { sn = as_u32 n; frg = frg }
entry n none = record (new_with_data []) { sn = as_u32 n; xmit = 1 }

abbrev pub sequence : List (ℕ × Bytes) → ℕ → KcpSegment
sequence l n = entry n (get_elem? l n)

pub sequence-Numbered : (l : List (ℕ × Bytes)) → Numbered (sequence l)
sequence-Numbered l = record { number = λ n. number n (get_elem? l n) }
  where
    number : (n : ℕ) (e : Option (ℕ × Bytes)) → (entry n e).sn ≡ as_u32 n
    number n (some (frg, payload)) = refl
    number n none = refl

get_elem?-none : (l : List (ℕ × Bytes)) (n : ℕ) → length l ≤ n → get_elem? l n ≡ none
get_elem?-none [] n h = refl
get_elem?-none (x ∷ l) zero h = absurd (omega arith)
get_elem?-none (x ∷ l) (suc n) h = get_elem?-none l n (omega arith)

get_elem?-some :
    (l : List (ℕ × Bytes)) (n : ℕ)
    → n < length l
    → (x : ℕ × Bytes) × (get_elem? l n ≡ some x) × (drop n l ≡ x ∷ drop (suc n) l)
get_elem?-some [] n h = absurd (omega arith)
get_elem?-some (x ∷ l) zero h = (x, refl, refl)
get_elem?-some (x ∷ l) (suc n) h = get_elem?-some l n (omega arith)

-- The mark is past the end.
unmarked-inside : (l : List (ℕ × Bytes)) (n : ℕ) → (sequence l n).xmit ≡ 0 → n < length l
unmarked-inside l n e = elim (Bool-cases (ltb n (length l))) [
  | inl inside ↦ ltb→lt n (length l) inside
  | inr past ↦
      let out = get_elem?-none l n (ltb_false→le n (length l) past) in
      absurd (omega (arith, ap (λ x. (entry n x).xmit) out, e))
]

pub plain-inside :
    (l : List (ℕ × Bytes)) (n : ℕ) (s : KcpSegment) → plain s ≡ sequence l n → n < length l
plain-inside l n s e = unmarked-inside l n (sym (ap (λ x. x.xmit) e))

sequence-grows :
    (l m : List (ℕ × Bytes)) (n : ℕ) → n < length l → sequence l n ≡ sequence (l ++ m) n
sequence-grows l m n h =
    let (x, e, d) = get_elem?-some l n h in ap (entry n) (e ∙ sym (get_elem?-append l m n x e))

pub segments-grows :
    (l m : List (ℕ × Bytes)) (r c : ℕ)
    → r + c ≤ length l
    → segments (sequence l) r c ≡ segments (sequence (l ++ m)) r c
segments-grows l m r zero h = refl
segments-grows l m r (suc c) h =
    λ i. sequence-grows l m r (omega arith) i ∷ segments-grows l m (suc r) c (omega arith) i

pub Buffered-grows :
    (l m : List (ℕ × Bytes)) (lo hi : ℕ) (b : List KcpSegment)
    → Buffered (sequence l) lo hi (plains b)
    → Buffered (sequence (l ++ m)) lo hi (plains b)
Buffered-grows l m lo hi [] h = tt
Buffered-grows l m lo hi (s ∷ b) (n, e, a, c, rest) =
    (n, e ∙ sequence-grows l m n (plain-inside l n s e), a, c, Buffered-grows l m (suc n) hi b rest)

-- None of these is marked.
abbrev Unmarked : KcpSegment → Type 0
Unmarked s = s.xmit ≡ 0

plains-Unmarked : (q : List KcpSegment) → All Unmarked (plains q)
plains-Unmarked [] = tt
plains-Unmarked (s ∷ q) = (refl, plains-Unmarked q)

All-append-right : (p q : List KcpSegment) → All Unmarked (p ++ q) → All Unmarked q
All-append-right [] q h = h
All-append-right (s ∷ p) q h = All-append-right p q h.1

segments-inside :
    (l : List (ℕ × Bytes)) (r c : ℕ)
    → All Unmarked (segments (sequence l) r c)
    → r ≤ length l
    → r + c ≤ length l
segments-inside l r zero h a = omega arith
segments-inside l r (suc c) h a =
    let here = unmarked-inside l r h.0 in
    let rest = segments-inside l (suc r) c h.1 here in omega (arith, rest)

-- What moved into the queue is of the log.
pub moved-inside :
    (l : List (ℕ × Bytes)) (r c : ℕ) (q q' : List KcpSegment)
    → plains q' ≡ plains q ++ segments (sequence l) r c
    → r ≤ length l
    → r + c ≤ length l
moved-inside l r c q q' e a =
    segments-inside l r c
      (All-append-right (plains q) (segments (sequence l) r c)
        (subst (All Unmarked) e (plains-Unmarked q')))
      a

pub payloads-segments :
    (l : List (ℕ × Bytes)) (r c : ℕ)
    → r + c ≤ length l
    → payloads (segments (sequence l) r c) ≡ log_bytes (take c (drop r l))
payloads-segments l r zero h = refl
payloads-segments l r (suc c) h =
    let (x, e, d) = get_elem?-some l r (omega arith) in
    rw (e, d) (ap (λ b. x.1 ++ b) (payloads-segments l (suc r) c (omega arith)))

pub log_bytes-take :
    (l : List (ℕ × Bytes)) (n : ℕ) → log_bytes l ≡ log_bytes (take n l) ++ log_bytes (drop n l)
log_bytes-take l zero = refl
log_bytes-take [] (suc n) = refl
log_bytes-take ((frg, b) ∷ l) (suc n) =
    ap (λ x. b ++ x) (log_bytes-take l n)
    ∙ sym (append_assoc b (log_bytes (take n l)) (log_bytes (drop n l)))
