-- ===== src/Console/Line.antt =====
-- The serial line as a device file: `uart_read` and `uart_write`.
use cute_core.Base.{
  ℕ, zero, suc, ◌+◌, ◌%◌, ◌<◌, ◌≤◌, ◌≡◌, refl, ◌∙◌, ap, List, [], ◌∷◌, ◌++◌, length, append_nil,
  arith, ◌⊎◌, inl, inr, subst, ok,
}
use cute_core.Base.Int.{as_i32}
use cute_core.Str.{Memory, store}
use cute_core.Console.Numbers.{append_assoc}
use cute_core.Console.{Console, uart_putc, uart_read_from, uart_read, uart_write_from, uart_write}

-- `n` bytes from `p` on
abbrev pub bytes_at : ℕ → ℕ → Memory → List ℕ
bytes_at zero p m = []
bytes_at (suc n) p m = m p ∷ bytes_at n (p + 1) m

abbrev pub low_bytes : List ℕ → List ℕ
low_bytes [] = []
low_bytes (c ∷ cs) = c % 256 ∷ low_bytes cs

-- The characters `taken` of those that were ready are in the memory from `q` on, in order, and no
-- other byte has changed.
pub record Received (left q : ℕ) (m : Memory) (cs taken rest : List ℕ) (m' : Memory) : Type 0 where
  pub all : cs ≡ taken ++ rest
  pub full : (length taken ≡ left) ⊎ ((length taken < left) × (rest ≡ []))
  pub bytes : bytes_at (length taken) q m' ≡ low_bytes taken
  pub elsewhere : (i : ℕ) → (i < q) ⊎ (q + length taken ≤ i) → m' i ≡ m i

Received-none : (left q : ℕ) (m : Memory) → Received left q m [] [] [] m
Received-none left q m = record {
  all = refl;
  full = ground arith;
  bytes = refl;
  elsewhere = λ i out. refl;
}

Received-suc :
    (left q : ℕ) (m : Memory) (c : ℕ) (cs taken rest : List ℕ) (m' : Memory)
    → Received left (q + 1) (store m q (c % 256)) cs taken rest m'
    → Received (suc left) q m (c ∷ cs) (c ∷ taken) rest m'
Received-suc left q m c cs taken rest m' got =
    let here : m' q ≡ c % 256 = got.elsewhere q (inl (omega arith)) ∙ ground arith in
    record {
      all = ap (◌∷◌ c) got.all;
      full = elim got.full [
        | inl e ↦ inl (omega (arith, e))
        | inr (lt, e) ↦ inr (omega (arith, lt), e)
      ];
      bytes = rw (here, got.bytes) refl;
      elsewhere = λ i out. ground (arith, got.elsewhere i (omega (arith, out)));
    }

uart_read_from_lem :
    (left n p : ℕ) (m : Memory) (cs sent args : List ℕ)
    → (taken rest : List ℕ) × (m' : Memory) × (uart_read_from left n p m
          (record { sent = sent; ready = cs; args = args })
        ≡ ok ((n + length taken, m'), record { sent = sent; ready = rest; args = args }))
      × Received left (p + n) m cs taken rest m'
unfolding uart_read_from
uart_read_from_lem zero n p m cs sent args =
    let none : n + 0 ≡ n = omega arith in
    (
      [],
      cs,
      m,
      rw none refl,
      record { all = refl; full = inl refl; bytes = refl; elsewhere = λ i out. refl },
    )
uart_read_from_lem (suc left) n p m [] sent args =
    let none : n + 0 ≡ n = omega arith in
    ([], [], m, rw none refl, Received-none (suc left) (p + n) m)
uart_read_from_lem (suc left) n p m (c ∷ cs) sent args =
    let (taken, rest, m', run, got) =
      uart_read_from_lem left (n + 1) p (store m (p + n) (c % 256)) cs sent args in
    let count : n + 1 + length taken ≡ n + suc (length taken) = omega arith in
    let place : p + (n + 1) ≡ p + n + 1 = omega arith in
    (
      c ∷ taken,
      rest,
      m',
      run ∙ rw count refl,
      Received-suc left (p + n) m c cs taken rest m'
          (subst (λ q. Received left q (store m (p + n) (c % 256)) cs taken rest m') place got),
    )

-- `uart_read` takes the characters that are ready, `len` at most, and stops when none is left: it
-- returns how many it took as an `i32`, puts their low bytes in the buffer in order, and changes no other byte.
pub uart_read_lem :
    (buf len : ℕ) (m : Memory) (s : Console)
    → (taken rest : List ℕ) × (m' : Memory) × (uart_read buf len m s
        ≡ ok ((as_i32 (length taken), m'), record s { ready = rest }))
      × Received len buf m s.ready taken rest m'
unfolding uart_read
uart_read_lem buf len m s =
    let (taken, rest, m', run, got) = uart_read_from_lem len 0 buf m s.ready s.sent s.args in
    let count : 0 + length taken ≡ length taken = omega arith in
    let place : buf + 0 ≡ buf = omega arith in
    (
      taken,
      rest,
      m',
      rw (run, count) refl,
      subst (λ q. Received len q m s.ready taken rest m') place got,
    )

uart_write_from_lem :
    (left i p : ℕ) (m : Memory) (s : Console)
    → uart_write_from left i p m s ≡ ok (tt, record s { sent = s.sent ++ bytes_at left (p + i) m })
unfolding uart_write_from uart_putc
uart_write_from_lem zero i p m s = rw (append_nil s.sent) refl
uart_write_from_lem (suc left) i p m s =
    let place : p + (i + 1) ≡ p + i + 1 = omega arith in
    uart_write_from_lem left (i + 1) p m (record s { sent = s.sent ++ (m (p + i) ∷ []) })
    ∙ rw (place, append_assoc s.sent (m (p + i)) (bytes_at left (p + i + 1) m)) refl

-- `uart_write` sends the `len` bytes in order and returns `len` as an `i32`.
pub uart_write_lem :
    (buf len : ℕ) (m : Memory) (s : Console)
    → uart_write buf len m s ≡ ok (as_i32 len, record s { sent = s.sent ++ bytes_at len buf m })
unfolding uart_write
uart_write_lem buf len m s =
    let place : buf + 0 ≡ buf = omega arith in rw (uart_write_from_lem len 0 buf m s, place) refl
