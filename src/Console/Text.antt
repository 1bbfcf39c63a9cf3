-- ===== src/Console/Text.antt =====
-- The text that a directive of `vprintf` stands for, and that `directive` prints it.
use cute_core.Base.{
  ℕ, zero, suc, ◌+◌, ◌%◌, ◌^◌, ◌<◌, ◌≡◌, ◌≢◌, inl, inr, refl, sym, subst, ◌∙◌, Bool, true, false,
  List, [], ◌∷◌, ◌++◌, length, append_nil, arith, ◌==◌, if◌then◌else◌, ok,
}
use cute_core.Base.Int.{as_i32, as_i64}
use cute_core.Str.{Memory}
use cute_core.Str.Nul.{IsString, strlen-length}
use cute_core.Console.{Console, uart_putc, put_string, printstr, va_arg, sext, directive}
use cute_core.Console.Numbers.{printed, append_assoc}
use cute_core.Console.Numerals.{IsNumeral, IsSigned, printnum_plain, printnum_signed}

-- what a run of `directive` leaves
abbrev pub carried : List ℕ → List ℕ → Console → Console
carried text rest s = record s { sent = s.sent ++ text; args = rest }

-- The text that the directive `c`, with or without `l`, stands for with the arguments `args`, and the
-- arguments that it leaves. A pointer to a string points to one shorter than `limit`, or is null.
pub data Directive (limit : ℕ) (m : Memory) (long : Bool) (c : ℕ) (args text rest : List ℕ)
    : Type 0 where
  signed_arg :
      (a : ℕ)
      → c ≡ 100
      → args ≡ a ∷ rest
      → IsSigned (if long then as_i64 a else as_i32 a) text
      → Directive limit m long c args text rest
  unsigned_arg :
      (a : ℕ)
      → c ≡ 117
      → args ≡ a ∷ rest
      → IsNumeral 10 (if long then a % 2 ^ 64 else a % 2 ^ 32) text
      → Directive limit m long c args text rest
  hex_arg :
      (a : ℕ)
      → c ≡ 120
      → args ≡ a ∷ rest
      → IsNumeral 16 (if long then a % 2 ^ 64 else a % 2 ^ 32) text
      → Directive limit m long c args text rest
  pointer :
      (a : ℕ) (digits : List ℕ)
      → c ≡ 112
      → args ≡ a ∷ rest
      → IsNumeral 16 (a % 2 ^ 64) digits
      → text ≡ 48 ∷ 120 ∷ digits
      → Directive limit m long c args text rest
  character :
      (a : ℕ)
      → c ≡ 99
      → args ≡ a ∷ rest
      → text ≡ a % 256 ∷ []
      → Directive limit m long c args text rest
  string :
      (a : ℕ)
      → c ≡ 115
      → args ≡ a ∷ rest
      → a ≢ 0
      → IsString m a text
      → length text < limit
      → Directive limit m long c args text rest
  null_string : c ≡ 115 → args ≡ 0 ∷ rest → text ≡ [] → Directive limit m long c args text rest
  percent : c ≡ 37 → args ≡ rest → text ≡ 37 ∷ [] → Directive limit m long c args text rest
  unknown :
      c ≢ 100
      → c ≢ 117
      → c ≢ 120
      → c ≢ 112
      → c ≢ 99
      → c ≢ 115
      → c ≢ 37
      → args ≡ rest
      → text ≡ 37 ∷ c ∷ []
      → Directive limit m long c args text rest

word_in_range : (a : ℕ) (long : Bool) → (if long then a % 2 ^ 64 else sext a) < 2 ^ 64
word_in_range a true = omega arith
word_in_range a false = ground arith

word_value :
    (a : ℕ) (long : Bool)
    → as_i64 (if long then a % 2 ^ 64 else sext a) ≡ (if long then as_i64 a else as_i32 a)
word_value a true = let same : a % 2 ^ 64 % 2 ^ 64 ≡ a % 2 ^ 64 = omega arith in rw (same) refl
word_value a false = ground arith

put_string_lem :
    (fuel p : ℕ) (m : Memory) (xs : List ℕ) (s : Console)
    → IsString m p xs
    → length xs < fuel
    → put_string fuel p m s ≡ ok (tt, record s { sent = s.sent ++ xs })
unfolding put_string uart_putc
put_string_lem zero p m xs s text h = absurd (omega arith)
put_string_lem (suc fuel) p m [] s text h = rw (text, append_nil s.sent) refl
put_string_lem (suc fuel) p m (x ∷ xs) s (at, ne, text) h =
    let on : (x == 0) ≡ false = ground (arith, ne) in
    rw (at, on)
      (put_string_lem fuel (p + 1) m xs (record s { sent = s.sent ++ (x ∷ []) }) text (omega arith)
        ∙ rw (append_assoc s.sent x xs) refl)

printstr_lem :
    (fuel p : ℕ) (m : Memory) (xs : List ℕ) (s : Console)
    → p ≢ 0
    → IsString m p xs
    → length xs < fuel
    → printstr fuel m p s ≡ printed (length xs) xs s
unfolding printstr
printstr_lem fuel p m xs s ne text h =
    let some_string : (p == 0) ≡ false = ground (arith, ne) in
    rw (some_string, strlen-length fuel p m xs text h, put_string_lem fuel p m xs s text h) refl

pub directive_lem :
    (limit : ℕ) (m : Memory) (long : Bool) (c : ℕ) (text rest : List ℕ) (s : Console)
    → Directive limit m long c s.args text rest
    → directive limit m long c s ≡ ok (length text, carried text rest s)
unfolding directive va_arg uart_putc printstr
directive_lem limit m long c text rest s (signed_arg a e arg is) =
    rw (e, arg)
      (printnum_signed (if long then a % 2 ^ 64 else sext a) text (record s { args = rest })
        (word_in_range a long) (subst (λ z. IsSigned z text) (sym (word_value a long)) is))
directive_lem limit m long c text rest s (unsigned_arg a e arg num) =
    rw (e, arg) (printnum_plain _ 10 text (record s { args = rest }) (inl refl) num)
directive_lem limit m long c text rest s (hex_arg a e arg num) =
    rw (e, arg) (printnum_plain _ 16 text (record s { args = rest }) (inr refl) num)
directive_lem limit m long c text rest s (pointer a digits e arg num t) =
    let two : 2 + length digits ≡ suc (suc (length digits)) = omega arith in
    rw
      (
        e,
        arg,
        t,
        printnum_plain (a % 2 ^ 64) 16 digits
            (record s { args = rest; sent = (s.sent ++ (48 ∷ [])) ++ (120 ∷ []) }) (inr refl) num,
        append_assoc (s.sent ++ (48 ∷ [])) 120 digits,
        append_assoc s.sent 48 (120 ∷ digits),
        two,
      )
      refl
directive_lem limit m long c text rest s (character a e arg t) = rw (e, arg, t) refl
directive_lem limit m long c text rest s (string a e arg ne is few) =
    rw (e, arg) (printstr_lem limit a m text (record s { args = rest }) ne is few)
directive_lem limit m long c text rest s (null_string e arg t) =
    rw (e, arg, t, append_nil s.sent) refl
directive_lem limit m long c text rest s (percent e arg t) = rw (e, ← arg, t) refl
directive_lem limit m long c text rest s (unknown n0 n1 n2 n3 n4 n5 n6 arg t) =
    let e0 : (c == 100) ≡ false = ground (arith, n0) in
    let e1 : (c == 117) ≡ false = ground (arith, n1) in
    let e2 : (c == 120) ≡ false = ground (arith, n2) in
    let e3 : (c == 112) ≡ false = ground (arith, n3) in
    let e4 : (c == 99) ≡ false = ground (arith, n4) in
    let e5 : (c == 115) ≡ false = ground (arith, n5) in
    let e6 : (c == 37) ≡ false = ground (arith, n6) in
    rw (e0, e1, e2, e3, e4, e5, e6, t, ← arg, append_assoc s.sent 37 (c ∷ [])) refl
