-- ===== src/Str/Compare.antt =====
-- `memcmp`: 0 for equal ranges, otherwise the difference of the first two bytes that differ.
use cute_core.Base.{ℕ, zero, suc, ◌+◌, ◌<◌, ◌≡◌, ◌≢◌, ◌↔◌, refl, sym, ap, ◌∙◌, arith}
use cute_core.Base.Int.{pos, sub_ℕ}
use cute_core.Str.{Memory, memcmp_from, memcmp}

module _ (p1 p2 : ℕ) (m : Memory) where
  abbrev Agree : ℕ → ℕ → Type 0
  Agree i n = (k : ℕ) → k < n → m (p1 + i + k) ≡ m (p2 + i + k)

  one_on : (p i k : ℕ) → m (p + (i + 1) + k) ≡ m (p + i + suc k)
  one_on p i k = ap m (omega arith)

  Agree-tail : (n i : ℕ) → Agree i (suc n) → Agree (i + 1) n
  Agree-tail n i same k h = one_on p1 i k ∙ same (suc k) (omega arith) ∙ sym (one_on p2 i k)

  at_first : (p i : ℕ) → m (p + i + 0) ≡ m (p + i)
  at_first p i = ap m (omega arith)

  differ_from :
      (n i k : ℕ)
      → k < n
      → Agree i k
      → m (p1 + i + k) ≢ m (p2 + i + k)
      → memcmp_from n i p1 p2 m ≡ sub_ℕ (m (p1 + i + k)) (m (p2 + i + k))
  unfolding memcmp_from
  differ_from zero i k lt same ne = absurd (omega arith)
  differ_from (suc n) i zero lt same ne = ground (arith, at_first p1 i, at_first p2 i)
  differ_from (suc n) i (suc k) lt same ne =
      let rest =
        differ_from n (i + 1) k (omega arith) (Agree-tail k i same)
          (λ e. ne (sym (one_on p1 i k) ∙ e ∙ one_on p2 i k)) in
      ground (arith, same 0, at_first p1 i, at_first p2 i, one_on p1 i k, one_on p2 i k, rest)

  Agree-from : (n i : ℕ) → Agree i n → memcmp_from n i p1 p2 m ≡ pos 0
  unfolding memcmp_from
  Agree-from zero i same = refl
  Agree-from (suc n) i same =
      ground
        (arith, same 0, at_first p1 i, at_first p2 i, Agree-from n (i + 1) (Agree-tail n i same))

  zero_from : (n i : ℕ) → memcmp_from n i p1 p2 m ≡ pos 0 → Agree i n
  unfolding memcmp_from
  zero_from zero i e k h = absurd (omega arith)
  zero_from (suc n) i e zero h = ground (arith, at_first p1 i, at_first p2 i)
  zero_from (suc n) i e (suc k) h =
      sym (one_on p1 i k) ∙ zero_from n (i + 1) (ground arith) k (omega arith) ∙ one_on p2 i k

module _ (s1 s2 n : ℕ) (m : Memory) where
  abbrev pub Same : ℕ → Type 0
  Same k = (i : ℕ) → i < k → m (s1 + i) ≡ m (s2 + i)

  from_zero : (p i : ℕ) → m (p + 0 + i) ≡ m (p + i)
  from_zero p i = ap m (omega arith)

  -- `memcmp` returns 0 exactly when the two ranges are equal.
  pub memcmp-zero : (memcmp s1 s2 n m ≡ pos 0) ↔ Same n
  unfolding memcmp
  memcmp-zero = (
    λ e i h. sym (from_zero s1 i) ∙ zero_from s1 s2 m n 0 e i h ∙ from_zero s2 i,
    λ same. Agree-from s1 s2 m n 0 (λ k h. from_zero s1 k ∙ same k h ∙ sym (from_zero s2 k)),
  )

  -- If the ranges differ, `memcmp` returns the difference of the first pair of bytes that differ.
  pub memcmp-differ :
      (k : ℕ)
      → k < n
      → Same k
      → m (s1 + k) ≢ m (s2 + k)
      → memcmp s1 s2 n m ≡ sub_ℕ (m (s1 + k)) (m (s2 + k))
  unfolding memcmp
  memcmp-differ k lt same ne =
      rw (← from_zero s1 k, ← from_zero s2 k)
        (differ_from s1 s2 m n 0 k lt (λ j h. from_zero s1 j ∙ same j h ∙ sym (from_zero s2 j))
          (λ e. ne (sym (from_zero s1 k) ∙ e ∙ from_zero s2 k)))
