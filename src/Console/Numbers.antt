-- ===== src/Console/Numbers.antt =====
-- `printnum`: the text that it prints reads back as the number, and fits in its buffer.
use cute_core.Base.{
  ℕ, zero, suc, ◌+◌, ◌-◌, ◌*◌, ◌/◌, ◌%◌, ◌^◌, ◌<◌, ◌≤◌, ◌≡◌, ◌⊎◌, inl, inr, refl, ◌∙◌, sym, ap,
  Bool, true, false, ◌&&◌, List, [], ◌∷◌, ◌++◌, length, append_nil, arith, ltb, ◌==◌, if◌then◌else◌,
  Outcome, ok, Bool-cases,
}
use cute_core.Console.{Console, digit_char, digits_of, num_buf, uart_putc, put_back, printnum}

abbrev pub digit_value : ℕ → ℕ
digit_value c = if ltb c 0x3a then c - 0x30 else c - 0x57

-- The number that a text stands for, behind the digits read so far.
abbrev pub read : ℕ → ℕ → List ℕ → ℕ
read base acc [] = acc
read base acc (c ∷ cs) = read base (acc * base + digit_value c) cs

abbrev pub reversed : List ℕ → List ℕ
reversed [] = []
reversed (c ∷ cs) = reversed cs ++ (c ∷ [])

-- The text with its sign.
abbrev pub signed : Bool → List ℕ → List ℕ
signed neg text = if neg then 0x2d ∷ text else text

abbrev pub IsBase : ℕ → Type 0
IsBase base = (base ≡ 10) ⊎ (base ≡ 16)

div_mod : (a base : ℕ) → IsBase base → a / base * base + a % base ≡ a
div_mod a base (inl e) = rw e (omega arith)
div_mod a base (inr e) = rw e (omega arith)

div_le : (a base : ℕ) → IsBase base → a / base ≤ a / 10
div_le a base (inl e) = rw e (omega arith)
div_le a base (inr e) = rw e (omega arith)

digit_value-digit_char : (a base : ℕ) → IsBase base → digit_value (digit_char (a % base)) ≡ a % base
digit_value-digit_char a base (inl e) = rw e (ground arith)
digit_value-digit_char a base (inr e) = rw e (ground arith)

read_snoc :
    (base acc : ℕ) (cs : List ℕ) (c : ℕ)
    → read base acc (cs ++ (c ∷ [])) ≡ read base acc cs * base + digit_value c
read_snoc base acc [] c = refl
read_snoc base acc (d ∷ cs) c = read_snoc base (acc * base + digit_value d) cs c

read-digits_of :
    (fuel val base : ℕ)
    → IsBase base
    → val < fuel
    → read base 0 (reversed (digits_of fuel val base)) ≡ val
unfolding digits_of
read-digits_of zero val base is_base h = absurd (omega arith)
read-digits_of (suc fuel) val base is_base h =
    let last = digit_value-digit_char val base is_base in
    let whole = div_mod val base is_base in
    elim (Bool-cases (val / base == 0)) [
      | inl e ↦
          (let none_left : val / base ≡ 0 = ground arith in
            rw e (omega (arith, last, ap (λ q. q * base + val % base) none_left, whole)))
      | inr e ↦
          (let smaller : val / base < fuel = ground (arith, div_le val base is_base) in
            rw e (
              read_snoc base 0 (reversed (digits_of fuel (val / base) base))
                (digit_char (val % base))
              ∙ rw (read-digits_of fuel (val / base) base is_base smaller, last) whole))
    ]

-- 10 to the power of k
abbrev ten : ℕ → ℕ
ten zero = 1
ten (suc k) = 10 * ten k

length-digits_of :
    (k fuel val base : ℕ)
    → IsBase base
    → val < ten (suc k)
    → length (digits_of fuel val base) ≤ suc k
unfolding digits_of
length-digits_of k zero val base is_base h = omega arith
length-digits_of zero (suc fuel) val base is_base h =
    let none_left : (val / base == 0) ≡ true = ground (arith, div_le val base is_base) in
    rw none_left (omega arith)
length-digits_of (suc k) (suc fuel) val base is_base h =
    let smaller : val / base < ten (suc k) = omega (arith, div_le val base is_base) in
    elim (Bool-cases (val / base == 0)) [
      | inl e ↦ rw e (omega arith)
      | inr e ↦ rw e (omega (arith, length-digits_of k fuel (val / base) base is_base smaller))
    ]

pub snoc-++ : (xs ys : List ℕ) (c : ℕ) → xs ++ (ys ++ (c ∷ [])) ≡ (xs ++ ys) ++ (c ∷ [])
snoc-++ [] ys c = refl
snoc-++ (x ∷ xs) ys c = ap (◌∷◌ x) (snoc-++ xs ys c)

pub append_assoc : (xs : List ℕ) (c : ℕ) (ys : List ℕ) → (xs ++ (c ∷ [])) ++ ys ≡ xs ++ (c ∷ ys)
append_assoc [] c ys = refl
append_assoc (x ∷ xs) c ys = ap (◌∷◌ x) (append_assoc xs c ys)

pub append_append : (xs ys zs : List ℕ) → (xs ++ ys) ++ zs ≡ xs ++ (ys ++ zs)
append_append [] ys zs = refl
append_append (x ∷ xs) ys zs = ap (◌∷◌ x) (append_append xs ys zs)

pub length-append : (xs ys : List ℕ) → length (xs ++ ys) ≡ length xs + length ys
length-append [] ys = omega arith
length-append (x ∷ xs) ys = omega (arith, length-append xs ys)

reversed_snoc : (cs : List ℕ) (c : ℕ) → reversed (cs ++ (c ∷ [])) ≡ c ∷ reversed cs
reversed_snoc [] c = refl
reversed_snoc (d ∷ cs) c = ap (λ xs. xs ++ (d ∷ [])) (reversed_snoc cs c)

length-reversed : (cs : List ℕ) → length (reversed cs) ≡ length cs
length-reversed [] = refl
length-reversed (c ∷ cs) = omega (arith, length-append (reversed cs) (c ∷ []), length-reversed cs)

-- `text` was printed, and so many characters were counted.
abbrev pub printed : ℕ → List ℕ → Console → Outcome (ℕ × Console)
printed cnt text s = ok (cnt, record s { sent = s.sent ++ text })

put_back_lem : (buf : List ℕ) (s : Console) → put_back buf s ≡ printed (length buf) (reversed buf) s
unfolding put_back uart_putc
put_back_lem [] s = rw (append_nil s.sent) refl
put_back_lem (c ∷ buf) s = rw (put_back_lem buf s, snoc-++ s.sent (reversed buf) c) refl

printed_sign :
    (neg : Bool) (digits : List ℕ) (s : Console)
    → printed
        (length (digits ++ (if neg then 0x2d ∷ [] else [])))
        (reversed (digits ++ (if neg then 0x2d ∷ [] else [])))
        s
      ≡ printed (length (signed neg (reversed digits))) (signed neg (reversed digits)) s
printed_sign true digits s =
    let count : length (digits ++ (0x2d ∷ [])) ≡ suc (length (reversed digits)) =
      omega (arith, length-append digits (0x2d ∷ []), length-reversed digits) in
    rw (reversed_snoc digits 0x2d, count) refl
printed_sign false digits s =
    let all : digits ++ [] ≡ digits = append_nil digits in
    rw (all, sym (length-reversed digits)) refl

-- the number that is printed
abbrev pub magnitude : Bool → Bool → ℕ → ℕ
magnitude is_signed neg val = if is_signed && neg then (2 ^ 64 - val) % 2 ^ 64 else val

pub printnum_run :
    (val base : ℕ) (is_signed neg : Bool) (s : Console) (text : List ℕ)
    → reversed (digits_of (suc (magnitude is_signed neg val)) (magnitude is_signed neg val) base)
      ≡ text
    → printnum val base is_signed neg s ≡ printed (length (signed neg text)) (signed neg text) s
unfolding printnum num_buf
printnum_run val base is_signed neg s text e =
    put_back_lem _ s
    ∙ printed_sign neg _ s
    ∙ ap (λ t. printed (length (signed neg t)) (signed neg t) s) e

-- `printnum` of a 64-bit number in base 10 or 16, here the number printed is `2 ^ 64 - val` for a
-- negative one, and `val` else. It prints the number's digits, which read back as that number, behind
-- a minus sign if `neg`, returns how many characters these are, and these fit in the buffer of 32.
pub printnum_lem :
    (val base : ℕ) (is_signed neg : Bool) (s : Console)
    → val < 2 ^ 64
    → IsBase base
    → (text : List ℕ) × (printnum val base is_signed neg s
        ≡ printed (length (signed neg text)) (signed neg text) s)
      × (read base 0 text ≡ (if is_signed && neg then (2 ^ 64 - val) % 2 ^ 64 else val))
      × (length (signed neg text) ≤ 32)
unfolding printnum num_buf
printnum_lem val base is_signed neg s in_val is_base =
    let n : ℕ = if is_signed && neg then (2 ^ 64 - val) % 2 ^ 64 else val in
    let in_n : n < 2 ^ 64 = ground arith in
    let digits : List ℕ = digits_of (suc n) n base in
    let few : length digits ≤ 20 = length-digits_of 19 (suc n) n base is_base (omega arith) in
    (
      reversed digits,
      printnum_run val base is_signed neg s (reversed digits) refl,
      read-digits_of (suc n) n base is_base (omega arith),
      fits neg digits few,
    )
  where
    fits :
        (b : Bool) (digits : List ℕ) → length digits ≤ 20 → length (signed b (reversed digits)) ≤ 32
    fits true digits few = omega (arith, few, length-reversed digits)
    fits false digits few = omega (arith, few, length-reversed digits)
