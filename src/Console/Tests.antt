-- ===== src/Console/Tests.antt =====
-- The theorems of the console at a number and a short format.
use cute_core.Base.{
  ℕ, ◌-◌, ◌^◌, ◌≡◌, ◌≤◌, refl, inl, true, false, List, [], ◌∷◌, length, arith, ◌==◌, if◌then◌else◌,
  ok,
}
use cute_core.Base.Int.{pos, as_i32}
use cute_core.Str.{Memory}
use cute_core.Str.Nul.{IsString}
use cute_core.Console.{
  Console, uart_putc, put_back, num_buf, digits_of, va_arg, directive, printnum, vprintf_from,
  vprintf, uart_read,
}
use cute_core.Console.Numbers.{signed, read, printed, printnum_lem}
use cute_core.Console.Numerals.{IsNumeral, one_digit, last_digit}
use cute_core.Console.Text.{signed_arg, carried}
use cute_core.Console.Format.{Part, plain, arg, IsFormat, encode, Prints, vprintf_lem}
use cute_core.Console.Line.{Received, uart_read_lem}

-- "a%d" from 8 on
abbrev text : Memory
text i = if i == 8 then 0x61 else if i == 9 then 0x25 else if i == 10 then 0x64 else 0

abbrev console : Console
console = record { sent = 0x3e ∷ []; ready = 0x68 ∷ 0x69 ∷ []; args = (2 ^ 32 - 15) ∷ [] }

abbrev parts : List Part
parts = plain 0x61 ∷ arg false 0x64 ∷ []

-- "a-15"
prints :
    vprintf 8 8 text 8 console
    ≡ ok (
      pos 4,
      record { sent = 0x3e ∷ 0x61 ∷ 0x2d ∷ 0x31 ∷ 0x35 ∷ []; ready = 0x68 ∷ 0x69 ∷ []; args = [] },
    )
unfolding vprintf vprintf_from directive va_arg printnum num_buf digits_of put_back uart_putc
prints = refl

parts-IsFormat : IsFormat parts
parts-IsFormat = ((λ e. omega (arith, e)), ((λ e. omega (arith, e)), tt))

text-IsString : IsString text 8 (encode parts)
text-IsString = (
  refl,
  (λ e. omega (arith, e)),
  (refl, (λ e. omega (arith, e)), (refl, (λ e. omega (arith, e)), refl)),
)

-- "15"
fifteen : IsNumeral 10 15 (0x31 ∷ 0x35 ∷ [])
fifteen =
    last_digit 1 5 0x35 (0x31 ∷ []) (omega arith) (omega arith) refl (inl (omega arith, refl))
      (one_digit 0x31 (omega arith) (inl (omega arith, refl)) refl) refl

-- "a-15"
abbrev shown : List ℕ
shown = 0x61 ∷ 0x2d ∷ 0x31 ∷ 0x35 ∷ []

parts-Prints : Prints 8 text parts ((2 ^ 32 - 15) ∷ []) shown []
parts-Prints = (
  0x2d ∷ 0x31 ∷ 0x35 ∷ [],
  refl,
  (
    0x2d ∷ 0x31 ∷ 0x35 ∷ [],
    [],
    [],
    refl,
    signed_arg (2 ^ 32 - 15) refl refl (0x31 ∷ 0x35 ∷ [], refl, fifteen),
    (refl, refl),
  ),
)

vprintf_lem_example :
    vprintf 8 8 text 8 console ≡ ok (as_i32 (length shown), carried shown [] console)
vprintf_lem_example =
    vprintf_lem 8 8 text 8 parts shown [] console parts-IsFormat text-IsString parts-Prints
      (omega arith)

printnum_lem_example :
    (digits : List ℕ) × (printnum (2 ^ 64 - 15) 10 true true console
      ≡ printed (length (signed true digits)) (signed true digits) console)
    × (read 10 0 digits ≡ 15)
    × (length (signed true digits) ≤ 32)
printnum_lem_example = printnum_lem (2 ^ 64 - 15) 10 true true console (omega arith) (inl refl)

uart_read_lem_example :
    (taken rest : List ℕ) × (m' : Memory) × (uart_read 64 1 text console
      ≡ ok ((as_i32 (length taken), m'), record console { ready = rest }))
    × Received 1 64 text (0x68 ∷ 0x69 ∷ []) taken rest m'
uart_read_lem_example = uart_read_lem 64 1 text console
