-- ===== src/Vm/Copy.antt =====
-- What `copyout` is to do: bytes are at the pages that a process sees.
use cute_core.Base.{
  ℕ, ◌+◌, ◌-◌, ◌/◌, ◌%◌, ◌<◌, ◌≤◌, ◌≡◌, ◌≢◌, ◌⊎◌, inl, inr, refl, ◌∙◌, sym, true, false, List, ap,
  arith, ltb, if◌then◌else◌, Bool-cases, if_true, if_false, ltb→lt,
}
use cute_core.Base.Words.{Bytes}
use cute_core.Str.Copy.{within}
use cute_core.Pages.{page_size}
use cute_core.Vm.{valid, user, pte2pa}
use cute_core.Vm.Tree.{Tags}
use cute_core.Vm.Unmap.{IsOwned}

-- the physical address of a mapped one
abbrev pub phys : (ℕ → ℕ) → ℕ → ℕ
phys e w = pte2pa (e w) + w % page_size

-- The user may use the pages of these `len` addresses, which are different pages for different
-- pages, no tables, not free, and do not hold the bytes from `src` on.
pub record Writable (ekernel dst src len : ℕ) (e : ℕ → ℕ) (free : List ℕ) (tag : Tags)
    : Type 0 where
  pub is_valid : (w : ℕ) → dst ≤ w → w < dst + len → (valid (e w) ≡ true) × (user (e w) ≡ true)
  pub owned : (w : ℕ) → dst ≤ w → w < dst + len → IsOwned ekernel (pte2pa (e w)) free tag
  pub source :
      (w : ℕ)
      → dst ≤ w
      → w < dst + len
      → (src + len ≤ pte2pa (e w)) ⊎ (pte2pa (e w) + page_size ≤ src)
  pub distinct :
      (w w' : ℕ)
      → dst ≤ w
      → w < dst + len
      → dst ≤ w'
      → w' < dst + len
      → pte2pa (e w) ≡ pte2pa (e w')
      → w / page_size ≡ w' / page_size

pub Writable-tail :
    (ekernel dst src len n : ℕ) (e : ℕ → ℕ) (free : List ℕ) (tag : Tags)
    → n ≤ len
    → Writable ekernel dst src len e free tag
    → Writable ekernel (dst + n) (src + n) (len - n) e free tag
Writable-tail ekernel dst src len n e free tag le can = record {
  is_valid = λ w lo hi. can.is_valid w (omega arith) (omega arith);
  owned = λ w lo hi. can.owned w (omega arith) (omega arith);
  source = λ w lo hi. omega (arith, can.source w (omega arith) (omega arith));
  distinct = λ w w' lo hi lo' hi' same.
      can.distinct w w' (omega arith) (omega arith) (omega arith) (omega arith) same;
}

-- The bytes from `src` on are at the physical addresses of those from `dst` on, and no other byte
-- has changed.
pub record Copied (dst src len : ℕ) (e : ℕ → ℕ) (m m' : Bytes) : Type 0 where
  pub at : (i : ℕ) → i < len → m' (phys e (dst + i)) ≡ m (src + i)
  pub elsewhere : (a : ℕ) → ((i : ℕ) → i < len → a ≢ phys e (dst + i)) → m' a ≡ m a

offset_lem : (a b i : ℕ) → b + (a + i - a) ≡ b + i
offset_lem a b i = omega arith

-- The bytes of a round, which do not leave a page.
module _ (ekernel dst src len n : ℕ) (e : ℕ → ℕ) (free : List ℕ) (tag : Tags) (m m₁ : Bytes)
    (page_wise : (w w' : ℕ) → w / page_size ≡ w' / page_size → e w ≡ e w')
    (can : Writable ekernel dst src len e free tag) (le : n ≤ len)
    (inside : dst % page_size + n ≤ page_size)
    (full : (n ≡ len) ⊎ (dst % page_size + n ≡ page_size)) (pos_n : 0 < n)
    (first : (a : ℕ)
      → m₁ a ≡ (if within (phys e dst) n a then m (src + (a - phys e dst)) else m a)) where
  phys_near : (i : ℕ) → i < n → phys e (dst + i) ≡ phys e dst + i
  phys_near i lt =
      let same : e (dst + i) ≡ e dst = page_wise (dst + i) dst (omega arith) in
      rw same (omega arith)

  -- A byte of the rest lies on another page.
  phys_far : (i j : ℕ) → i < n → j < len - n → phys e (dst + i) ≢ phys e (dst + n + j)
  phys_far i j lt lt' same =
      let p = (can.owned (dst + i) (omega arith) (omega arith)).page in
      let p' = (can.owned (dst + n + j) (omega arith) (omega arith)).page in
      let equal : pte2pa (e (dst + i)) ≡ pte2pa (e (dst + n + j)) =
        omega (arith, p.1, p'.1, same) in
      let pages =
        can.distinct (dst + i) (dst + n + j) (omega arith) (omega arith) (omega arith) (omega arith)
          equal in
      absurd (omega (arith, pages, full))

  kept_source : (j : ℕ) → j < len → m₁ (src + j) ≡ m (src + j)
  kept_source j lt =
      let apart = can.source dst (omega arith) (omega arith) in
      let p = (can.owned dst (omega arith) (omega arith)).page in
      ground (arith, first (src + j), apart, p.1)

  near : (i : ℕ) → i < n → m₁ (phys e (dst + i)) ≡ m (src + i)
  near i lt = rw (phys_near i lt) (
      first (phys e dst + i)
      ∙ if_true {b = within (phys e dst) n (phys e dst + i)} _ _ (ground arith)
      ∙ ap m (offset_lem (phys e dst) src i))

  untouched : (a : ℕ) → ((i : ℕ) → i < len → a ≢ phys e (dst + i)) → m₁ a ≡ m a
  untouched a out =
      let beside : within (phys e dst) n a ≡ false = elim (Bool-cases (within (phys e dst) n a)) [
        | inl inside ↦ absurd (
            out (a - phys e dst) (ground arith)
              (ground (arith, sym (phys_near (a - phys e dst) (ground arith)))))
        | inr outside ↦ outside
      ] in
      first a ∙ if_false _ _ beside

  pub Copied-trans :
      (m' : Bytes) → Copied (dst + n) (src + n) (len - n) e m₁ m' → Copied dst src len e m m'
  Copied-trans m' rest = record {
    at = λ i lt. elim (Bool-cases (ltb i n)) [
      | inl low ↦
          rest.elsewhere (phys e (dst + i)) (λ j lt'. phys_far i j (ltb→lt i n low) lt')
          ∙ near i (ltb→lt i n low)
      | inr high ↦
          (let there : dst + i ≡ dst + n + (i - n) = ground arith in
            let source : src + n + (i - n) ≡ src + i = ground arith in
            ap (λ w. m' (phys e w)) there
            ∙ rest.at (i - n) (ground arith)
            ∙ ap m₁ source
            ∙ kept_source i lt)
    ];
    elsewhere = λ a out.
        rest.elsewhere a
          (λ j lt' same. out (n + j) (omega arith) (same ∙ ap (phys e) (omega arith)))
        ∙ untouched a out;
  }

pub Copied-none : (dst src : ℕ) (e : ℕ → ℕ) (m : Bytes) → Copied dst src 0 e m m
Copied-none dst src e m = record { at = λ i lt. absurd (omega arith); elsewhere = λ a out. refl }
