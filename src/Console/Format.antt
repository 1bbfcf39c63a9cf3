-- ===== src/Console/Format.antt =====
-- `vprintf`: what it prints for a format and the arguments.
use cute_core.Base.{
  ℕ, zero, suc, ◌+◌, ◌%◌, ◌^◌, ◌<◌, ◌≡◌, ◌≢◌, refl, ◌∙◌, Bool, true, false, List, [], ◌∷◌, ◌++◌,
  append_nil, length, arith, ◌==◌, if◌then◌else◌, Outcome, ok,
}
use cute_core.Base.Int.{as_i32}
use cute_core.Str.{Memory}
use cute_core.Str.Nul.{IsString}
use cute_core.Console.{Console, uart_putc, vprintf_from, vprintf}
use cute_core.Console.Numbers.{length-append, append_append}
use cute_core.Console.Text.{Directive, carried, directive_lem}

-- A part of a format: a character, or a directive of the last two kinds of length.
pub data Part : Type 0 where
  plain : ℕ → Part
  arg : Bool → ℕ → Part

abbrev pub encode : List Part → List ℕ
encode [] = []
encode (plain c ∷ parts) = c ∷ encode parts
encode (arg long c ∷ parts) =
    if long then 0x25 ∷ 0x6c ∷ c ∷ encode parts else 0x25 ∷ c ∷ encode parts

-- A plain character is no `%`, and that of a directive no `l`.
abbrev pub IsFormat : List Part → Type 0
IsFormat [] = Unit
IsFormat (plain c ∷ parts) = (c ≢ 0x25) × IsFormat parts
IsFormat (arg long c ∷ parts) = (c ≢ 0x6c) × IsFormat parts

-- The text that the parts stand for, one after the other, with the arguments `args`, of which `rest`
-- are left.
abbrev pub Prints : ℕ → Memory → List Part → List ℕ → List ℕ → List ℕ → Type 0
Prints limit m [] args text rest = (text ≡ []) × (args ≡ rest)
Prints limit m (plain c ∷ parts) args text rest =
    (tail : List ℕ) × (text ≡ c ∷ tail) × Prints limit m parts args tail rest
Prints limit m (arg long c ∷ parts) args text rest =
    (now tail left : List ℕ) × (text ≡ now ++ tail)
    × Directive limit m long c args now left
    × Prints limit m parts left tail rest

-- What a run of the loop leaves, that has counted `cnt` before.
abbrev after : ℕ → List ℕ → List ℕ → Console → Outcome (ℕ × Console)
after cnt text rest s = ok ((cnt + length text) % 2 ^ 32, carried text rest s)

after_part :
    (cnt : ℕ) (now tail rest : List ℕ) (s : Console) (left : List ℕ) (text : List ℕ)
    → text ≡ now ++ tail
    → after ((cnt + length now) % 2 ^ 32) tail rest (carried now left s) ≡ after cnt text rest s
after_part cnt now tail rest s left text e =
    let count : ((cnt + length now) % 2 ^ 32 + length tail) % 2 ^ 32
        ≡ (cnt + length (now ++ tail)) % 2 ^ 32 =
      omega (arith, length-append now tail) in
    rw (e, count, append_append s.sent now tail) refl

vprintf_from_lem :
    (fuel limit : ℕ) (m : Memory) (fmt cnt : ℕ) (parts : List Part) (text rest : List ℕ)
    (s : Console)
    → IsFormat parts
    → IsString m fmt (encode parts)
    → Prints limit m parts s.args text rest
    → cnt < 2 ^ 32
    → length parts < fuel
    → vprintf_from fuel limit m fmt cnt s ≡ after cnt text rest s
unfolding vprintf_from uart_putc
vprintf_from_lem zero limit m fmt cnt parts text rest s format at_fmt prints small h =
    absurd (omega arith)
vprintf_from_lem (suc fuel) limit m fmt cnt [] text rest s format at_fmt (none, all) small h =
    let count : (cnt + 0) % 2 ^ 32 ≡ cnt = omega arith in
    rw (at_fmt, none, ← all, append_nil s.sent, count) refl
vprintf_from_lem (suc fuel) limit m fmt cnt (plain c ∷ parts) text rest s (no_percent, format)
      (at, ne, at_fmt) (tail, e, prints) small h =
    let e0 : (c == 0) ≡ false = ground (arith, ne) in
    let e1 : (c == 0x25) ≡ false = ground (arith, no_percent) in
    rw (at, e0, e1)
      (vprintf_from_lem fuel limit m (fmt + 1) ((cnt + 1) % 2 ^ 32) parts tail rest _ format at_fmt
          prints (omega arith) (omega arith)
        ∙ after_part cnt (c ∷ []) tail rest s s.args text e)
vprintf_from_lem (suc fuel) limit m fmt cnt (arg true c ∷ parts) text rest s (no_l, format)
      (at, _, (at_l, _, (at_c, ne, at_fmt))) (now, tail, left, e, does, prints) small h =
    let e0 : (c == 0) ≡ false = ground (arith, ne) in
    let e1 : (c == 0x6c) ≡ false = ground (arith, no_l) in
    let next : m (fmt + 1 + 1) ≡ c = at_c in
    rw (at, at_l, next, e1, next, directive_lem limit m true c now left s does)
      (vprintf_from_lem fuel limit m (fmt + 1 + 1 + 1) ((cnt + length now) % 2 ^ 32) parts tail rest
          (carried now left s) format at_fmt prints (omega arith) (omega arith)
        ∙ after_part cnt now tail rest s left text e)
vprintf_from_lem (suc fuel) limit m fmt cnt (arg false c ∷ parts) text rest s (no_l, format)
      (at, _, (at_c, ne, at_fmt)) (now, tail, left, e, does, prints) small h =
    let e0 : (c == 0) ≡ false = ground (arith, ne) in
    let e1 : (c == 0x6c) ≡ false = ground (arith, no_l) in
    rw (at, at_c, e0, e1, at_c, directive_lem limit m false c now left s does)
      (vprintf_from_lem fuel limit m (fmt + 1 + 1) ((cnt + length now) % 2 ^ 32) parts tail rest
          (carried now left s) format at_fmt prints (omega arith) (omega arith)
        ∙ after_part cnt now tail rest s left text e)

-- `vprintf` of a format without a single `%` at its end, nor `ll` or a mere `l` in a directive, with
-- more fuel than it has parts and arguments enough for it: it prints the text that the format stands
-- for, the characters and for each directive the text of its argument, takes those arguments, and
-- returns the number of characters printed, as an `i32`.
pub vprintf_lem :
    (fuel limit : ℕ) (m : Memory) (fmt : ℕ) (parts : List Part) (text rest : List ℕ) (s : Console)
    → IsFormat parts
    → IsString m fmt (encode parts)
    → Prints limit m parts s.args text rest
    → length parts < fuel
    → vprintf fuel limit m fmt s ≡ ok (as_i32 (length text), carried text rest s)
unfolding vprintf
vprintf_lem fuel limit m fmt parts text rest s format at_fmt prints h =
    let wrapped : (0 + length text) % 2 ^ 32 % 2 ^ 32 ≡ length text % 2 ^ 32 = omega arith in
    rw
      (
        vprintf_from_lem fuel limit m fmt 0 parts text rest s format at_fmt prints (omega arith) h,
        wrapped,
      )
      refl
