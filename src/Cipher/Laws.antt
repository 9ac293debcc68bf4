-- ===== src/Cipher/Laws.antt =====
-- The cipher is its own inverse, and each byte meets the key byte of its place.
use native.Mathlib.Nat.{mod-lt, suc-mod, mod_self, mod-eq_of_lt}
use native.Mathlib.Numerals.{add-one}
use kcp_server.Base.{
  ℕ, suc, ◌+◌, ◌%◌, ◌<◌, ◌≡◌, refl, ◌∙◌, sym, ap, Option, none, some, [], ◌∷◌, arith, length, leb,
  if◌then◌else◌, is_empty, bit_xor, Bool-cases, inl, inr,
}
use kcp_server.Segment.{Bytes}
use kcp_server.Cipher.Xor.{bit_xor_twice}
use kcp_server.Cipher.{decode, xor_from, key_at}

xor_from_twice :
    (key : Bytes) (j : ℕ) (bytes : Bytes) → xor_from key j (xor_from key j bytes) ≡ bytes
unfolding xor_from
xor_from_twice key j [] = refl
xor_from_twice key j (b ∷ bytes) =
    rw (bit_xor_twice b (key_at key j))
      (ap (◌∷◌ b) (xor_from_twice key (if leb (length key) (j + 1) then 0 else j + 1) bytes))

-- To decode what was encoded under the same key gives the bytes back.
pub decode-decode : (key : Option Bytes) (bytes : Bytes) → decode key (decode key bytes) ≡ bytes
unfolding decode
decode-decode none bytes = refl
decode-decode (some key) bytes = elim (Bool-cases (is_empty key)) [
  | inl e ↦ rw e
  | inr e ↦ rw e (xor_from_twice key 0 bytes)
]

-- Each byte from the `i`-th on, under the key byte of its place modulo the key's length.
pub xor_cyclic : Bytes → ℕ → Bytes → Bytes
xor_cyclic key i [] = []
xor_cyclic key i (b ∷ bytes) =
    bit_xor b (key_at key (i % length key)) ∷ xor_cyclic key (suc i) bytes

next_index : (n i : ℕ) → 0 < n → (if leb n (i % n + 1) then 0 else i % n + 1) ≡ suc i % n
next_index n i h = elim (Bool-cases (leb n (i % n + 1))) [
  | inl e ↦
      let full : suc (i % n) ≡ n = ground (arith, mod-lt i h) in
      rw e (sym (suc-mod i n ∙ (ap (λ x. x % n) full ∙ mod_self n)))
  | inr e ↦
      let below : suc (i % n) < n = ground arith in
      rw e (add-one (i % n) ∙ sym (suc-mod i n ∙ mod-eq_of_lt below))
]

xor_from-cyclic :
    (key : Bytes) (i : ℕ) (bytes : Bytes)
    → 0 < length key
    → xor_from key (i % length key) bytes ≡ xor_cyclic key i bytes
unfolding xor_from xor_cyclic
xor_from-cyclic key i [] h = refl
xor_from-cyclic key i (b ∷ bytes) h = ap (◌∷◌ (bit_xor b (key_at key (i % length key)))) (
    ap (λ j. xor_from key j bytes) (next_index (length key) i h)
    ∙ xor_from-cyclic key (suc i) bytes h)

-- The loop over the key's index gives each byte the key byte of its place.
pub decode-cyclic :
    (key bytes : Bytes) → 0 < length key → decode (some key) bytes ≡ xor_cyclic key 0 bytes
unfolding decode
decode-cyclic [] bytes h = absurd (omega arith)
decode-cyclic (b ∷ key) bytes h =
    let zero_index : 0 % length (b ∷ key) ≡ 0 = omega arith in
    ap (λ j. xor_from (b ∷ key) j bytes) (sym zero_index) ∙ xor_from-cyclic (b ∷ key) 0 bytes h

-- The cipher leaves the length alone.
length-xor_from :
    (key : Bytes) (j : ℕ) (bytes : Bytes) → length (xor_from key j bytes) ≡ length bytes
unfolding xor_from
length-xor_from key j [] = refl
length-xor_from key j (b ∷ bytes) =
    ap suc (length-xor_from key (if leb (length key) (j + 1) then 0 else j + 1) bytes)

pub length-decode : (key : Option Bytes) (bytes : Bytes) → length (decode key bytes) ≡ length bytes
unfolding decode
length-decode none bytes = refl
length-decode (some key) bytes = elim (Bool-cases (is_empty key)) [
  | inl e ↦ rw e
  | inr e ↦ rw e (length-xor_from key 0 bytes)
]
