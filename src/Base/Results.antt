-- ===== src/Base/Results.antt =====
-- What a kernel function does: it returns, it calls `panic`, or it follows a pointer that points
-- at nothing.
use mathlib.Core.Path.{◌≡◌, refl}

pub data Outcome {ℓ} (A : Type ℓ) : Type ℓ where
  ok : A → Outcome A
  panic : Outcome A
  fault : Outcome A

-- A function over the state `S`, with its result and the state that it leaves.
abbrev pub Cmd : Type 0 → Type 0 → Type 0
Cmd S A = S → Outcome (A × S)

abbrev pub pure : {S A : Type 0} → A → Cmd S A
pure a s = ok (a, s)

abbrev pub and_then : {S A B : Type 0} → Outcome (A × S) → (A → Cmd S B) → Outcome (B × S)
and_then (ok (a, s)) k = k a s
and_then panic k = panic
and_then fault k = fault

infixl 5 ◌>>=◌ ◌>>◌
abbrev pub ◌>>=◌ : {S A B : Type 0} → Cmd S A → (A → Cmd S B) → Cmd S B
m >>= k = λ s. and_then (m s) k

abbrev pub ◌>>◌ : {S B : Type 0} → Cmd S (Unit {0}) → Cmd S B → Cmd S B
m >> n = m >>= λ _. n

pub and_then-ext :
    {S A B : Type 0} (o : Outcome (A × S)) (k k' : A → Cmd S B)
    → ((a : A) (s : S) → k a s ≡ k' a s)
    → and_then o k ≡ and_then o k'
and_then-ext (ok (a, s)) k k' h = h a s
and_then-ext panic k k' h = refl
and_then-ext fault k k' h = refl
