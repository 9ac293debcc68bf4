-- ===== src/Outcome.antt =====
-- KcpResult of an operation on a state: the value (which holds the new state), an error beside the
-- state that the operation leaves behind, or a panic.
use kcp_server.Error.{Error}

pub data Outcome {ℓ κ} (S : Type κ) (A : Type ℓ) : Type (ℓ ⊔ κ) where
  ok : A → Outcome S A
  err : Error → S → Outcome S A
  panic : Outcome S A

infixl 5 ◌>>=◌
abbrev pub ◌>>=◌ {ℓ κ} : {S : Type ℓ} {A B : Type κ} → Outcome S A → (A → Outcome S B) → Outcome S B
ok a >>= f = f a
err e s >>= f = err e s
panic >>= f = panic

-- What holds of every end that is not a panic; of a panic nothing does.
abbrev pub Ends {ℓ κ} :
    {S : Type ℓ} {A : Type κ} → (A → Type 0) → (S → Type 0) → Outcome S A → Type 0
Ends P Q (ok a) = P a
Ends P Q (err e s) = Q s
Ends P Q panic = ⊥

-- The rule for a chain of steps.
pub >>=-Ends {ℓ κ} :
    {S : Type ℓ} {A B : Type κ} (P : A → Type 0) (R : B → Type 0) (Q : S → Type 0) (m : Outcome S A)
    (f : A → Outcome S B)
    → Ends P Q m
    → ((a : A) → P a → Ends R Q (f a))
    → Ends R Q (m >>= f)
>>=-Ends P R Q (ok a) f h k = k a h
>>=-Ends P R Q (err e s) f h k = h
>>=-Ends P R Q panic f h k = h

pub Ends-mono {ℓ κ} :
    {S : Type ℓ} {A : Type κ} (P R : A → Type 0) (Q : S → Type 0) (m : Outcome S A)
    → ((a : A) → P a → R a)
    → Ends P Q m
    → Ends R Q m
Ends-mono P R Q (ok a) f h = f a h
Ends-mono P R Q (err e s) f h = h
Ends-mono P R Q panic f h = h

-- The same, on both ends.
pub Ends-map {ℓ κ} :
    {S : Type ℓ} {A : Type κ} (P R : A → Type 0) (Q T : S → Type 0) (m : Outcome S A)
    → ((a : A) → P a → R a)
    → ((s : S) → Q s → T s)
    → Ends P Q m
    → Ends R T m
Ends-map P R Q T (ok a) f g h = f a h
Ends-map P R Q T (err e s) f g h = g s h
Ends-map P R Q T panic f g h = h
