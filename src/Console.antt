-- ===== src/Console.antt =====
-- kernel/console.c: printing to the serial line, and driver/uart.c under it. The device takes a
-- character once it is idle, so that `sent` holds the characters in the order of the calls.
pub mod Format
pub mod Line
pub mod Numbers
pub mod Numerals
pub mod Text
mod Tests
use cute_core.Base.{
  ℕ, zero, suc, ◌+◌, ◌-◌, ◌*◌, ◌/◌, ◌%◌, ◌^◌, Bool, true, false, not, ◌&&◌, ◌||◌, Option, none,
  some, List, [], ◌∷◌, ◌++◌, length, ltb, leb, ◌==◌, if◌then◌else◌, Cmd, pure, ok, fault, ◌>>=◌,
  ◌>>◌,
}
use cute_core.Base.Int.{ℤ, as_i32}
use cute_core.Str.{Memory, store, strlen}

-- The line, with the characters that it has ready, and the arguments that `va_arg` has not taken yet.
pub record Console : Type 0 where
  pub sent : List ℕ
  pub ready : List ℕ
  pub args : List ℕ

unfoldable pub uart_putc : ℕ → Cmd Console (Unit {0})
uart_putc c s = ok (tt, record s { sent = s.sent ++ (c ∷ []) })

-- The loop of `uart_read`, with the rounds left: how many characters were read, and the memory.
unfoldable pub uart_read_from : ℕ → ℕ → ℕ → Memory → Cmd Console (ℕ × Memory)
uart_read_from zero n p m s = ok ((n, m), s)
uart_read_from (suc left) n p m s = elim s.ready [
  | [] ↦ ok ((n, m), s)
  | c ∷ rest ↦ uart_read_from left (n + 1) p (store m (p + n) (c % 256)) (record s { ready = rest })
]

-- `return (i32)n;`
unfoldable pub uart_read : ℕ → ℕ → Memory → Cmd Console (ℤ × Memory)
uart_read buf len m = uart_read_from len 0 buf m >>= λ (n, m'). pure (as_i32 n, m')

-- The loop of `uart_write`, with the rounds left.
unfoldable pub uart_write_from : ℕ → ℕ → ℕ → Memory → Cmd Console (Unit {0})
uart_write_from zero i p m s = ok (tt, s)
uart_write_from (suc left) i p m s = (uart_putc (m (p + i)) >> uart_write_from left (i + 1) p m) s

-- `return (i32)len;`
unfoldable pub uart_write : ℕ → ℕ → Memory → Cmd Console ℤ
uart_write buf len m = uart_write_from len 0 buf m >> pure (as_i32 len)

-- `while (*s) uart_putc(*s++)`, with fuel
unfoldable pub put_string : ℕ → ℕ → Memory → Cmd Console (Unit {0})
put_string zero p m s = fault
put_string (suc fuel) p m s =
    let rest : Cmd Console (Unit {0}) = put_string fuel (p + 1) m in
    if m p == 0 then ok (tt, s) else (uart_putc (m p) >> rest) s

-- A string without an end among the bytes that the fuel allows is a fault.
unfoldable pub printstr : ℕ → Memory → ℕ → Cmd Console ℕ
printstr fuel m p =
    if p == 0
    then pure 0
    else elim (strlen fuel p m) [ none ↦ λ s. fault | some len ↦ put_string fuel p m >> pure len ]

abbrev pub digit_char : ℕ → ℕ
digit_char digit = if ltb digit 10 then 0x30 + digit else 0x61 + digit - 10

-- The digits that `printnum` puts in `buf`, the lowest first; `val` rounds are enough.
unfoldable pub digits_of : ℕ → ℕ → ℕ → List ℕ
digits_of zero val base = []
digits_of (suc fuel) val base =
    let rest = digits_of fuel (val / base) base in
    digit_char (val % base) ∷ (if val / base == 0 then [] else rest)

-- `buf` when it is printed.
unfoldable pub num_buf : ℕ → ℕ → Bool → Bool → List ℕ
num_buf val base is_signed neg =
    let magnitude = if is_signed && neg then (2 ^ 64 - val) % 2 ^ 64 else val in
    digits_of (suc magnitude) magnitude base ++ (if neg then 0x2d ∷ [] else [])

-- `while (--i >= 0) { uart_putc(buf[i]); cnt++; }`
unfoldable pub put_back : List ℕ → Cmd Console ℕ
put_back [] s = pure 0 s
put_back (c ∷ buf) s = (put_back buf >>= λ cnt. uart_putc c >> pure (suc cnt)) s

unfoldable pub printnum : ℕ → ℕ → Bool → Bool → Cmd Console ℕ
printnum val base is_signed neg = put_back (num_buf val base is_signed neg)

-- An argument that is not there is a fault.
unfoldable pub va_arg : Cmd Console ℕ
va_arg s = elim s.args [ [] ↦ fault | a ∷ rest ↦ ok (a, record s { args = rest }) ]

-- An `i32` as a 64-bit number, and whether a 64-bit number is negative.
abbrev pub sext : ℕ → ℕ
sext a = if ltb (a % 2 ^ 32) (2 ^ 31) then a % 2 ^ 32 else a % 2 ^ 32 + (2 ^ 64 - 2 ^ 32)

abbrev pub negative : ℕ → Bool
negative a = leb (2 ^ 63) a

-- The `switch` of `vprintf` on the character of a directive: what it adds to the count.
unfoldable pub directive : ℕ → Memory → Bool → ℕ → Cmd Console ℕ
directive fuel m long c =
    if c == 0x64
    then (va_arg >>= λ a.
        let sval = if long then a % 2 ^ 64 else sext a in printnum sval 10 true (negative sval))
    else if c == 0x75
    then (va_arg >>= λ a. printnum (if long then a % 2 ^ 64 else a % 2 ^ 32) 10 false false)
    else if c == 0x78
    then (va_arg >>= λ a. printnum (if long then a % 2 ^ 64 else a % 2 ^ 32) 16 false false)
    else if c == 0x70
    then (va_arg >>= λ a. (uart_putc 0x30 >> uart_putc 0x78 >> pure 2) >>= λ cnt.
        printnum (a % 2 ^ 64) 16 false false >>= λ cnt'. pure (cnt + cnt'))
    else if c == 0x63
    then (va_arg >>= λ a. uart_putc (a % 256) >> pure 1)
    else if c == 0x73
    then (va_arg >>= λ a. printstr fuel m a)
    else if c == 0x25
    then uart_putc 0x25 >> pure 1
    else uart_putc 0x25 >> uart_putc c >> pure 2

-- What follows a `%`: whether the argument is long, and where the character of the directive is.
abbrev pub length_flags : Memory → ℕ → Bool × ℕ
length_flags m p =
    if m p == 0x6c then (if m (p + 1) == 0x6c then (true, p + 2) else (true, p + 1)) else (false, p)

-- The loop of `vprintf`, with fuel; `limit` is the fuel for each string argument. `cnt` is an `i32`, by
-- its 32 bits, as a compiler makes it wrap around.
unfoldable pub vprintf_from : ℕ → ℕ → Memory → ℕ → ℕ → Cmd Console ℕ
vprintf_from zero limit m fmt cnt s = fault
vprintf_from (suc fuel) limit m fmt cnt s =
    let rest : ℕ → ℕ → Cmd Console ℕ =
      λ fmt' cnt'. vprintf_from fuel limit m fmt' (cnt' % 2 ^ 32) in
    let flags = length_flags m (fmt + 1) in
    if m fmt == 0
    then ok (cnt, s)
    else if not (m fmt == 0x25)
    then (uart_putc (m fmt) >> rest (fmt + 1) (cnt + 1)) s
    else if m (fmt + 1) == 0
    then (uart_putc 0x25 >> pure cnt) s
    else (directive limit m (flags.0) (m (flags.1)) >>= λ n. rest (flags.1 + 1) (cnt + n)) s

unfoldable pub vprintf : ℕ → ℕ → Memory → ℕ → Cmd Console ℤ
vprintf fuel limit m fmt = vprintf_from fuel limit m fmt 0 >>= λ cnt. pure (as_i32 cnt)
