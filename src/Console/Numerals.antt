-- ===== src/Console/Numerals.antt =====
-- The text of a number, by its digits, and that `printnum` prints it.
use cute_core.Base.{
  ℕ, zero, suc, ◌+◌, ◌-◌, ◌*◌, ◌/◌, ◌%◌, ◌^◌, ◌<◌, ◌≤◌, ◌≡◌, ◌⊎◌, inl, inr, refl, sym, subst, true,
  false, List, [], ◌∷◌, ◌++◌, length, arith, leb, ◌==◌, Bool-cases,
}
use cute_core.Base.Int.{ℤ, pos, negsuc, as_i64}
use cute_core.Console.{Console, digit_char, digits_of, printnum, negative}
use cute_core.Console.Numbers.{IsBase, reversed, printed, printnum_run}

-- The character of a digit: `0` to `9`, or `a` to `f`.
abbrev pub IsDigit : ℕ → ℕ → Type 0
IsDigit r c = ((r < 10) × (c ≡ 48 + r)) ⊎ ((10 ≤ r) × (c ≡ 87 + r))

-- The text of a number in a base, without zeros at its begin: a digit, or the text of the number
-- without its last digit, and that digit.
pub data IsNumeral (base : ℕ) : ℕ → List ℕ → Type 0 where
  one_digit :
      {n : ℕ} {text : List ℕ} (c : ℕ)
      → n < base
      → IsDigit n c
      → text ≡ c ∷ []
      → IsNumeral base n text
  last_digit :
      {n : ℕ} {text : List ℕ} (q r c : ℕ) (front : List ℕ)
      → 0 < q
      → r < base
      → n ≡ q * base + r
      → IsDigit r c
      → IsNumeral base q front
      → text ≡ front ++ (c ∷ [])
      → IsNumeral base n text

-- The text of a signed number in base 10.
abbrev pub IsSigned : ℤ → List ℕ → Type 0
IsSigned (pos n) text = IsNumeral 10 n text
IsSigned (negsuc n) text = (digits : List ℕ) × (text ≡ 45 ∷ digits) × IsNumeral 10 (suc n) digits

digit_char-IsDigit : (r c : ℕ) → IsDigit r c → digit_char r ≡ c
digit_char-IsDigit r c (inl (low, e)) = ground arith
digit_char-IsDigit r c (inr (high, e)) = ground arith

-- the quotient and the remainder by the base
divides :
    (base n q r : ℕ) → IsBase base → r < base → n ≡ q * base + r → (n / base ≡ q) × (n % base ≡ r)
divides base n q r (inl b) =
    subst (λ x. r < x → n ≡ q * x + r → (n / x ≡ q) × (n % x ≡ r)) (sym b)
      (λ low e. (omega (arith, low, e), omega (arith, low, e)))
divides base n q r (inr b) =
    subst (λ x. r < x → n ≡ q * x + r → (n / x ≡ q) × (n % x ≡ r)) (sym b)
      (λ low e. (omega (arith, low, e), omega (arith, low, e)))

-- the quotient is smaller, so that less fuel is enough for it
smaller : (base n q r : ℕ) → IsBase base → 0 < q → n ≡ q * base + r → q < n
smaller base n q r (inl b) =
    subst (λ x. 0 < q → n ≡ q * x + r → q < n) (sym b) (λ some e. omega (arith, some, e))
smaller base n q r (inr b) =
    subst (λ x. 0 < q → n ≡ q * x + r → q < n) (sym b) (λ some e. omega (arith, some, e))

digits_of-IsNumeral :
    (base : ℕ) (n : ℕ) (text : List ℕ)
    → IsBase base
    → IsNumeral base n text
    → (fuel : ℕ) → n < fuel
    → reversed (digits_of fuel n base) ≡ text
unfolding digits_of
digits_of-IsNumeral base n text b num zero h = absurd (omega arith)
digits_of-IsNumeral base n text b (one_digit c low digit e) (suc fuel) h =
    let (none, last) = divides base n 0 n b low (omega arith) in
    let stop : (n / base == 0) ≡ true = ground (arith, none) in
    rw (stop, last, digit_char-IsDigit n c digit) (sym e)
digits_of-IsNumeral base n text b (last_digit q r c front some low whole digit num e) (suc fuel) h =
    let (before, last) = divides base n q r b low whole in
    let on : (q == 0) ≡ false = ground (arith, some) in
    let rest =
      digits_of-IsNumeral base q front b num fuel
        (omega (arith, h, smaller base n q r b some whole)) in
    rw (before, on, last, digit_char-IsDigit r c digit, rest) (sym e)

-- `printnum` of a number that is not negative
pub printnum_plain :
    (val base : ℕ) (text : List ℕ) (s : Console)
    → IsBase base
    → IsNumeral base val text
    → printnum val base false false s ≡ printed (length text) text s
printnum_plain val base text s b num =
    printnum_run val base false false s text
      (digits_of-IsNumeral base val text b num (suc val) (omega arith))

pub printnum_signed :
    (val : ℕ) (text : List ℕ) (s : Console)
    → val < 2 ^ 64
    → IsSigned (as_i64 val) text
    → printnum val 10 true (negative val) s ≡ printed (length text) text s
printnum_signed val text s in_range is = elim (Bool-cases (leb (2 ^ 63) val)) [
  | inr small ↦
      (let same : as_i64 val ≡ pos val = ground arith in
        rw (small) (
          printnum_run val 10 true false s text (
            digits_of-IsNumeral 10 val text (inl refl) (subst (λ z. IsSigned z text) same is)
              (suc val) (omega arith))))
  | inl large ↦
      (let same : as_i64 val ≡ negsuc (2 ^ 64 - 1 - val) = ground arith in
        let (digits, e, num) = subst (λ z. IsSigned z text) same is in
        let n : (2 ^ 64 - val) % 2 ^ 64 ≡ suc (2 ^ 64 - 1 - val) = ground arith in
        rw (large, e)
          (printnum_run val 10 true true s digits (
            rw (n) (
              digits_of-IsNumeral 10 (suc (2 ^ 64 - 1 - val)) digits (inl refl) num
                (suc (suc (2 ^ 64 - 1 - val))) (omega arith)))))
]
