-- ===== src/Base/Words.antt =====
-- Little-endian fields in a range of bytes, and a range copied into another.
use Prim.Native.Nat.{ℕ, zero, suc, ◌+◌, ◌-◌, ◌*◌, ◌/◌, ◌%◌, ◌^◌, ◌≤◌, ◌<◌}
use mathlib.Core.Path.{◌≡◌, refl, ◌∙◌}
use mathlib.Core.Logic.{◌⊎◌, inl, inr}
use mathlib.Core.Bool.{◌&&◌}
use native.Mathlib.Omega.{arith}
use cute_core.Base.Tests.{ltb, leb, ◌==◌, if◌then◌else◌, Bool-cases}

-- Bytes by their offset.
abbrev pub Bytes : Type 0
Bytes = ℕ → ℕ

unfoldable pub get_u16 : ℕ → Bytes → ℕ
get_u16 o b = b o + 256 * b (o + 1)

unfoldable pub get_u32 : ℕ → Bytes → ℕ
get_u32 o b = b o + 256 * b (o + 1) + 65536 * b (o + 2) + 16777216 * b (o + 3)

unfoldable pub put_u8 : ℕ → ℕ → Bytes → Bytes
put_u8 o v b i = if o == i then v % 256 else b i

unfoldable pub put_u16 : ℕ → ℕ → Bytes → Bytes
put_u16 o v b i = if o == i then v % 256 else if (o + 1) == i then v / 256 % 256 else b i

unfoldable pub put_u32 : ℕ → ℕ → Bytes → Bytes
put_u32 o v b i =
    if o == i
    then v % 256
    else if (o + 1) == i
    then v / 256 % 256
    else if (o + 2) == i
    then v / 65536 % 256
    else if (o + 3) == i
    then v / 16777216 % 256
    else b i

-- `memcpy(b + o, src, n)`
unfoldable pub put_bytes : ℕ → ℕ → Bytes → Bytes → Bytes
put_bytes o n src b i = if leb o i && ltb i (o + n) then src (i - o) else b i

pub get_u32-put_u32 : (o v : ℕ) (b : Bytes) → v < 2 ^ 32 → get_u32 o (put_u32 o v b) ≡ v
unfolding get_u32 put_u32
get_u32-put_u32 o v b h = ground arith

pub get_u32-put_u32_ne :
    (o p v : ℕ) (b : Bytes) → (o + 4 ≤ p) ⊎ (p + 4 ≤ o) → get_u32 o (put_u32 p v b) ≡ get_u32 o b
unfolding get_u32 put_u32
get_u32-put_u32_ne o p v b h = ground arith

-- `w[0] .. w[n - 1]` from offset `o` on
unfoldable pub put_words : ℕ → ℕ → (ℕ → ℕ) → Bytes → Bytes
put_words zero o w b = b
put_words (suc n) o w b = put_u32 (o + 4 * n) (w n) (put_words n o w b)

pub put_words_ne :
    (n o : ℕ) (w : ℕ → ℕ) (b : Bytes) (i : ℕ)
    → (i < o) ⊎ (o + 4 * n ≤ i)
    → put_words n o w b i ≡ b i
unfolding put_words put_u32
put_words_ne zero o w b i h = refl
put_words_ne (suc n) o w b i h = ground (arith, put_words_ne n o w b i)

pub get_u32-put_words :
    (n o : ℕ) (w : ℕ → ℕ) (b : Bytes) (i : ℕ)
    → i < n
    → w i < 2 ^ 32
    → get_u32 (o + 4 * i) (put_words n o w b) ≡ w i
unfolding put_words
get_u32-put_words zero o w b i lt h = absurd (omega arith)
get_u32-put_words (suc n) o w b i lt h = elim (Bool-cases (i == n)) [
  | inl e ↦
      (let same : i ≡ n = ground arith in
        rw (← same) (get_u32-put_u32 (o + 4 * i) (w i) (put_words i o w b) h))
  | inr ne ↦
      get_u32-put_u32_ne (o + 4 * i) (o + 4 * n) (w n) (put_words n o w b) (ground arith)
      ∙ get_u32-put_words n o w b i (ground arith) h
]

pub put_u32_ne : (o v : ℕ) (b : Bytes) (i : ℕ) → (i < o) ⊎ (o + 4 ≤ i) → put_u32 o v b i ≡ b i
unfolding put_u32
put_u32_ne o v b i h = ground arith

pub put_u16_ne : (o v : ℕ) (b : Bytes) (i : ℕ) → (i < o) ⊎ (o + 2 ≤ i) → put_u16 o v b i ≡ b i
unfolding put_u16
put_u16_ne o v b i h = ground arith

unfoldable pub get_u64 : ℕ → Bytes → ℕ
unfolding get_u32
get_u64 o b = get_u32 o b + 2 ^ 32 * get_u32 (o + 4) b

unfoldable pub put_u64 : ℕ → ℕ → Bytes → Bytes
unfolding put_u32
put_u64 o v b = put_u32 (o + 4) (v / 2 ^ 32) (put_u32 o (v % 2 ^ 32) b)

pub get_u64-put_u64 : (o v : ℕ) (b : Bytes) → v < 2 ^ 64 → get_u64 o (put_u64 o v b) ≡ v
unfolding get_u64 put_u64
get_u64-put_u64 o v b h =
    let high = get_u32-put_u32 (o + 4) (v / 2 ^ 32) (put_u32 o (v % 2 ^ 32) b) (omega arith) in
    let kept =
      get_u32-put_u32_ne o (o + 4) (v / 2 ^ 32) (put_u32 o (v % 2 ^ 32) b) (inl (omega arith)) in
    let low = get_u32-put_u32 o (v % 2 ^ 32) b (omega arith) in omega (arith, high, kept, low)

pub put_u64_ne : (o v : ℕ) (b : Bytes) (i : ℕ) → (i < o) ⊎ (o + 8 ≤ i) → put_u64 o v b i ≡ b i
unfolding put_u64
put_u64_ne o v b i h =
    put_u32_ne (o + 4) (v / 2 ^ 32) (put_u32 o (v % 2 ^ 32) b) i (omega arith)
    ∙ put_u32_ne o (v % 2 ^ 32) b i (omega arith)

-- A word depends on its eight bytes alone.
pub get_u64_ext :
    (o : ℕ) (b c : Bytes) → ((i : ℕ) → o ≤ i → i < o + 8 → b i ≡ c i) → get_u64 o b ≡ get_u64 o c
unfolding get_u64 get_u32
get_u64_ext o b c h =
    let e0 = h o (omega arith) (omega arith) in
    let e1 = h (o + 1) (omega arith) (omega arith) in
    let e2 = h (o + 2) (omega arith) (omega arith) in
    let e3 = h (o + 3) (omega arith) (omega arith) in
    let e4 = h (o + 4) (omega arith) (omega arith) in
    let e5 = h (o + 4 + 1) (omega arith) (omega arith) in
    let e6 = h (o + 4 + 2) (omega arith) (omega arith) in
    let e7 = h (o + 4 + 3) (omega arith) (omega arith) in rw (e0, e1, e2, e3, e4, e5, e6, e7) refl

pub get_u32_ext :
    (o : ℕ) (b c : Bytes) → ((i : ℕ) → o ≤ i → i < o + 4 → b i ≡ c i) → get_u32 o b ≡ get_u32 o c
unfolding get_u32
get_u32_ext o b c h =
    let e0 = h o (omega arith) (omega arith) in
    let e1 = h (o + 1) (omega arith) (omega arith) in
    let e2 = h (o + 2) (omega arith) (omega arith) in
    let e3 = h (o + 3) (omega arith) (omega arith) in rw (e0, e1, e2, e3) refl

-- A word that does not overlap one that is written is as it was.
pub get_u64-put_u64_ne :
    (o p v : ℕ) (b : Bytes) → (o + 8 ≤ p) ⊎ (p + 8 ≤ o) → get_u64 o (put_u64 p v b) ≡ get_u64 o b
get_u64-put_u64_ne o p v b h =
    get_u64_ext o (put_u64 p v b) b (λ i lo hi. put_u64_ne p v b i (omega arith))

pub get_u64-put_u32_ne :
    (o p v : ℕ) (b : Bytes) → (o + 8 ≤ p) ⊎ (p + 4 ≤ o) → get_u64 o (put_u32 p v b) ≡ get_u64 o b
get_u64-put_u32_ne o p v b h =
    get_u64_ext o (put_u32 p v b) b (λ i lo hi. put_u32_ne p v b i (omega arith))

pub get_u32-put_u64_ne :
    (o p v : ℕ) (b : Bytes) → (o + 4 ≤ p) ⊎ (p + 8 ≤ o) → get_u32 o (put_u64 p v b) ≡ get_u32 o b
get_u32-put_u64_ne o p v b h =
    get_u32_ext o (put_u64 p v b) b (λ i lo hi. put_u64_ne p v b i (omega arith))
