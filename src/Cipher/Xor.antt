-- ===== src/Cipher/Xor.antt =====
-- The exclusive or of two numbers of any size: a second one with the same number undoes the first.
use Prim.Native.Nat.{digits, differ, bit_xor-bitwise}
use kcp_server.Base.{ℕ, zero, suc, ◌+◌, ◌*◌, ◌/◌, ◌%◌, ◌≤◌, ◌<◌, ◌≡◌, refl, ◌∙◌, ap, arith, bit_xor}

-- The definition of `bit_xor` with a count of digits to go.
abbrev xor_digits : ℕ → ℕ → ℕ → ℕ
xor_digits count x y = digits (λ y. y) differ count x y

-- Any count serves that the first number does not pass.
xor_digits-count : (i j x y : ℕ) → x ≤ i → x ≤ j → xor_digits i x y ≡ xor_digits j x y
xor_digits-count zero zero x y h k = refl
xor_digits-count zero (suc j) zero y h k = refl
xor_digits-count (suc i) zero zero y h k = refl
xor_digits-count (suc i) (suc j) zero y h k = refl
xor_digits-count zero j (suc x) y h k = absurd (omega (arith, h))
xor_digits-count (suc i) zero (suc x) y h k = absurd (omega (arith, k))
xor_digits-count (suc i) (suc j) (suc x) y h k =
    ap (λ above. above * 2 + differ (suc x % 2) (y % 2))
      (xor_digits-count i j (suc x / 2) (y / 2) (omega (arith, h)) (omega (arith, k)))

zero-bit_xor : (y : ℕ) → bit_xor 0 y ≡ y
zero-bit_xor y = bit_xor-bitwise 0 y

differ_bits : (x y : ℕ) → x < 2 → y < 2 → (differ x y < 2) × (differ (differ x y) y ≡ x)
differ_bits zero zero h k = (omega arith, refl)
differ_bits zero (suc zero) h k = (omega arith, refl)
differ_bits (suc zero) zero h k = (omega arith, refl)
differ_bits (suc zero) (suc zero) h k = (omega arith, refl)
differ_bits (suc (suc x)) y h k = absurd (omega (arith, h))
differ_bits zero (suc (suc y)) h k = absurd (omega (arith, k))
differ_bits (suc zero) (suc (suc y)) h k = absurd (omega (arith, k))

zero-differ : (y : ℕ) → differ 0 y ≡ y
zero-differ y = refl

-- The lowest digit, and those above it.
bit_xor-half : (x y : ℕ) → bit_xor x y ≡ bit_xor (x / 2) (y / 2) * 2 + differ (x % 2) (y % 2)
bit_xor-half zero y = omega (arith, zero-bit_xor y, zero-bit_xor (y / 2), zero-differ (y % 2))
bit_xor-half (suc x) y = omega (
  arith,
  bit_xor-bitwise (suc x) y,
  bit_xor-bitwise (suc x / 2) (y / 2),
  xor_digits-count x (suc x / 2) (suc x / 2) (y / 2) (omega arith) (omega arith),
)

bit_xor_digits :
    (x y : ℕ)
    → (bit_xor x y / 2 ≡ bit_xor (x / 2) (y / 2)) × (bit_xor x y % 2 ≡ differ (x % 2) (y % 2))
bit_xor_digits x y =
    let bits = differ_bits (x % 2) (y % 2) (omega arith) (omega arith) in
    (omega (arith, bit_xor-half x y, bits.0), omega (arith, bit_xor-half x y, bits.0))

bit_xor_twice_below : (bound x y : ℕ) → x ≤ bound → y ≤ bound → bit_xor (bit_xor x y) y ≡ x
bit_xor_twice_below zero x y h k =
    let e : x ≡ 0 = omega arith in
    let e' : y ≡ 0 = omega arith in rw (e, e', zero-bit_xor) (zero-bit_xor 0)
bit_xor_twice_below (suc bound) x y h k =
    let (above, lowest) = bit_xor_digits x y in
    let bits = differ_bits (x % 2) (y % 2) (omega arith) (omega arith) in
    bit_xor-half (bit_xor x y) y
    ∙ rw
        (
          above,
          lowest,
          bit_xor_twice_below bound (x / 2) (y / 2) (omega (arith, h)) (omega (arith, k)),
          bits.1,
        )
        (omega arith)

pub bit_xor_twice : (x y : ℕ) → bit_xor (bit_xor x y) y ≡ x
bit_xor_twice x y = bit_xor_twice_below (x + y) x y (omega arith) (omega arith)
