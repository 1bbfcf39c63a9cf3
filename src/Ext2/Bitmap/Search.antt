-- ===== src/Ext2/Bitmap/Search.antt =====
-- The search finds the first clear bit below the limit, if there is one.
use cute_core.Base.{
  ℕ, zero, suc, ◌+◌, ◌-◌, ◌*◌, ◌/◌, ◌%◌, ◌≤◌, ◌<◌, ◌≡◌, refl, ◌∙◌, inl, inr, true, false, Option,
  none, some, arith, leb, ltb, ◌==◌, Bool-cases, Option-cases,
}
use cute_core.Base.Words.{Bytes}
use cute_core.Base.Bytes.{bit_test, every_upto, every_upto-at}
use cute_core.Ext2.Bitmap.{bit_at, scan_bits, scan_bytes, find_clear}

-- What a search among the bits from `lo` to `hi` and below the limit may answer.
abbrev pub IsFirst : Bytes → ℕ → ℕ → ℕ → Option ℕ → Type 0
IsFirst b limit lo hi none = (i : ℕ) → lo ≤ i → i < hi → i < limit → bit_at b i ≡ true
IsFirst b limit lo hi (some bit) =
    (lo ≤ bit)
    × (bit < limit)
    × (bit_at b bit ≡ false)
    × ((i : ℕ) → lo ≤ i → i < bit → bit_at b i ≡ true)

module _ (b : Bytes) where
  at_byte : (byte k i : ℕ) → k < 8 → i ≡ byte * 8 + k → bit_at b i ≡ bit_test (b byte) k
  unfolding bit_at
  at_byte byte k i h e =
      let q : i / 8 ≡ byte = omega arith in let r : i % 8 ≡ k = omega arith in rw (q, r)

  full_byte : (byte k : ℕ) → b byte ≡ 255 → k < 8 → bit_test (b byte) k ≡ true
  unfolding every_upto bit_test
  full_byte byte k e h = rw e (every_upto-at (bit_test 255) 8 k h refl)

  module _ (limit : ℕ) where
    -- the bits before `mid` are set, so the search from `mid` answers for those from `lo`
    from_earlier :
        (lo mid hi : ℕ) (r : Option ℕ)
        → lo ≤ mid
        → ((i : ℕ) → lo ≤ i → i < mid → i < limit → bit_at b i ≡ true)
        → IsFirst b limit mid hi r
        → IsFirst b limit lo hi r
    from_earlier lo mid hi none le below first = λ i l h lim. elim (Bool-cases (ltb i mid)) [
      | inl e ↦ below i l (ground arith) lim
      | inr e ↦ first i (ground arith) h lim
    ]
    from_earlier lo mid hi (some bit) le below (l, lim, clear, first) = (
      omega arith,
      lim,
      clear,
      λ i li h. elim (Bool-cases (ltb i mid)) [
        | inl e ↦ below i li (ground arith) (omega arith)
        | inr e ↦ first i (ground arith) h
      ],
    )

    scan_bits_lem :
        (n k byte : ℕ)
        → k + n ≡ 8
        → IsFirst b limit (byte * 8 + k) (byte * 8 + 8) (scan_bits n k byte (b byte) limit)
    unfolding scan_bits
    scan_bits_lem zero k byte e = λ i lo hi lim. absurd (omega arith)
    scan_bits_lem (suc n) k byte e = elim (Bool-cases (bit_test (b byte) k)) [
      | inl set' ↦ rw set' (
          from_earlier (byte * 8 + k) (byte * 8 + (k + 1)) (byte * 8 + 8) _ (omega arith)
            (λ i lo hi lim. at_byte byte k i (omega arith) (omega arith) ∙ set')
            (scan_bits_lem n (k + 1) byte (omega arith)))
      | inr clear ↦ elim (Bool-cases (leb limit (byte * 8 + k))) [
        | inl over ↦ rw (clear, over) (λ i lo hi lim. absurd (ground arith))
        | inr under ↦
            rw (clear, under)
              (
                omega arith,
                ground arith,
                at_byte byte k (byte * 8 + k) (omega arith) refl ∙ clear,
                λ i lo hi. absurd (omega arith),
              )
      ]
    ]

    scan_bytes_lem :
        (n byte : ℕ) → IsFirst b limit (byte * 8) ((byte + n) * 8) (scan_bytes n byte b limit)
    unfolding scan_bytes
    scan_bytes_lem zero byte = λ i lo hi lim. absurd (omega arith)
    scan_bytes_lem (suc n) byte = elim (Bool-cases (b byte == 255)) [
      | inl full ↦ rw full (
          on_rest (scan_bytes_lem n (byte + 1)) (λ i lo hi lim.
            at_byte byte (i - byte * 8) i (omega arith) (omega arith)
            ∙ full_byte byte (i - byte * 8) (ground arith) (omega arith)))
      | inr more ↦ elim (Option-cases (scan_bits 8 0 byte (b byte) limit)) [
        | inl none' ↦
            rw (more, none')
              (on_rest (scan_bytes_lem n (byte + 1)) (λ i lo hi lim.
                (rw none' at (scan_bits_lem 8 0 byte refl)) i (omega arith) (omega arith) lim))
        | inr (bit, found) ↦ rw (more, found) (first_here bit found)
      ]
    ]
      where
        on_rest :
            IsFirst b limit ((byte + 1) * 8) ((byte + 1 + n) * 8) (scan_bytes n (byte + 1) b limit)
            → ((i : ℕ) → byte * 8 ≤ i → i < (byte + 1) * 8 → i < limit → bit_at b i ≡ true)
            → IsFirst b limit (byte * 8) ((byte + suc n) * 8) (scan_bytes n (byte + 1) b limit)
        on_rest later below =
            let e : (byte + suc n) * 8 ≡ (byte + 1 + n) * 8 = omega arith in
            rw e (
              from_earlier (byte * 8) ((byte + 1) * 8) ((byte + 1 + n) * 8) _ (omega arith) below
                later)

        first_here :
            (bit : ℕ)
            → scan_bits 8 0 byte (b byte) limit ≡ some bit
            → IsFirst b limit (byte * 8) ((byte + suc n) * 8) (some bit)
        first_here bit found =
            let (lo, lim, clear, first) = rw found at (scan_bits_lem 8 0 byte refl) in
            (omega arith, lim, clear, λ i l h. first i (omega arith) h)

  -- The search answers with the first clear bit below the limit, and `none` if all are set.
  pub find_clear-IsFirst : (limit : ℕ) → IsFirst b limit 0 limit (find_clear b limit)
  unfolding find_clear
  find_clear-IsFirst limit =
      to_limit (scan_bytes ((limit + 7) / 8) 0 b limit) (scan_bytes_lem limit ((limit + 7) / 8) 0)
    where
      to_limit :
          (r : Option ℕ)
          → IsFirst b limit (0 * 8) ((0 + (limit + 7) / 8) * 8) r
          → IsFirst b limit 0 limit r
      to_limit none h = λ i lo hi lim. h i (omega arith) (omega arith) lim
      to_limit (some bit) h = (omega arith, h.1, h.2, λ i lo hi. h.3 i (omega arith) hi)
