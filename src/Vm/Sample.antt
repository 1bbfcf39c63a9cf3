-- ===== src/Vm/Sample.antt =====
-- A memory with a page table: the first page of addresses is mapped, for the user, and one page is
-- free.
use cute_core.Base.{
  ℕ, ◌+◌, ◌*◌, ◌/◌, ◌%◌, ◌^◌, ◌<◌, ◌≡◌, inl, inr, refl, ◌∙◌, sym, true, false, List, [], ◌∷◌, ◌⊎◌,
  none, some, length, ap, arith, ◌==◌, if◌then◌else◌, eq-cases,
}
use cute_core.Base.Words.{get_u64-put_u64_ne, Bytes, get_u64, put_u64, get_u64-put_u64}
use cute_core.Pages.{Kmem, page_size}
use cute_core.Pages.FreeList.{IsPage, Fresh}
use cute_core.Vm.{valid, px, pte2pa}
use cute_core.Vm.Tree.{Tags, entry}
use cute_core.Vm.Map.{IsVm}

abbrev pub root : ℕ
root = 0x80400000

abbrev mid : ℕ
mid = 0x80401000

abbrev low : ℕ
low = 0x80402000

-- the entry for the first page: V, R, W and U
abbrev pub data_pte : ℕ
data_pte = 0x80500000 / 4096 * 1024 + 0x17

-- the memory with what the three tables hold in their first entries
abbrev words : ℕ → ℕ → ℕ → Bytes
words a b c = put_u64 root a (put_u64 mid b (put_u64 low c (λ _. 0)))

abbrev pub memory_of : Bytes
memory_of = words (mid / 4096 * 1024 + 1) (low / 4096 * 1024 + 1) data_pte

abbrev pub machine : Kmem
machine = record { memlist = 0x80300000; memory = memory_of }

abbrev pub free_of : List ℕ
free_of = 0x80300000 ∷ []

abbrev pub tag_of : Tags
tag_of q =
    if q == root
    then some []
    else if q == mid
    then some (0 ∷ [])
    else if q == low
    then some (0 ∷ 0 ∷ [])
    else none

no_word : (o : ℕ) → get_u64 o (λ _. 0) ≡ 0
unfolding get_u64
no_word o = refl

module _ (a b c : ℕ) (a_lt : a < 2 ^ 64) (b_lt : b < 2 ^ 64) (c_lt : c < 2 ^ 64) (i : ℕ)
    (in_i : i < 512) where
  at_root : get_u64 (root + 8 * i) (words a b c) ≡ (if i == 0 then a else 0)
  at_root = elim (eq-cases i 0) [
    | inl e ↦ rw e (get_u64-put_u64 root a _ a_lt)
    | inr ne ↦
        (let other : (i == 0) ≡ false = ground (arith, ne) in
          rw other (
            get_u64-put_u64_ne _ root a _ (omega (arith, ne))
            ∙ get_u64-put_u64_ne _ mid b _ (omega arith)
            ∙ get_u64-put_u64_ne _ low c _ (omega arith)
            ∙ no_word _))
  ]

  at_mid : get_u64 (mid + 8 * i) (words a b c) ≡ (if i == 0 then b else 0)
  at_mid = get_u64-put_u64_ne _ root a _ (omega arith) ∙ elim (eq-cases i 0) [
    | inl e ↦ rw e (get_u64-put_u64 mid b _ b_lt)
    | inr ne ↦
        (let other : (i == 0) ≡ false = ground (arith, ne) in
          rw other (
            get_u64-put_u64_ne _ mid b _ (omega (arith, ne))
            ∙ get_u64-put_u64_ne _ low c _ (omega arith)
            ∙ no_word _))
  ]

  at_low : get_u64 (low + 8 * i) (words a b c) ≡ (if i == 0 then c else 0)
  at_low =
      get_u64-put_u64_ne _ root a _ (omega arith)
      ∙ get_u64-put_u64_ne _ mid b _ (omega arith)
      ∙ elim (eq-cases i 0) [
        | inl e ↦ rw e (get_u64-put_u64 low c _ c_lt)
        | inr ne ↦
            (let other : (i == 0) ≡ false = ground (arith, ne) in
              rw other (get_u64-put_u64_ne _ low c _ (omega (arith, ne)) ∙ no_word _))
      ]

-- A word of one of the tables of the sample.
root_word :
    (i : ℕ)
    → i < 512
    → get_u64 (root + 8 * i) memory_of ≡ (if i == 0 then mid / 4096 * 1024 + 1 else 0)
root_word i in_i =
    at_root (mid / 4096 * 1024 + 1) (low / 4096 * 1024 + 1) data_pte (omega arith) (omega arith)
      (omega arith) i in_i

mid_word :
    (i : ℕ)
    → i < 512
    → get_u64 (mid + 8 * i) memory_of ≡ (if i == 0 then low / 4096 * 1024 + 1 else 0)
mid_word i in_i =
    at_mid (mid / 4096 * 1024 + 1) (low / 4096 * 1024 + 1) data_pte (omega arith) (omega arith)
      (omega arith) i in_i

low_word : (i : ℕ) → i < 512 → get_u64 (low + 8 * i) memory_of ≡ (if i == 0 then data_pte else 0)
low_word i in_i =
    at_low (mid / 4096 * 1024 + 1) (low / 4096 * 1024 + 1) data_pte (omega arith) (omega arith)
      (omega arith) i in_i

-- The pages that are tables.
tag-cases :
    (q : ℕ) (path : List ℕ)
    → tag_of q ≡ some path
    → ((q ≡ root) × (path ≡ [])) ⊎ ((q ≡ mid) × (path ≡ 0 ∷ [])) ⊎ ((q ≡ low) × (path ≡ 0 ∷ 0 ∷ []))
tag-cases q path h = ground (arith, h)

page_of : (q : ℕ) (path : List ℕ) → tag_of q ≡ some path → IsPage q × Fresh q free_of
page_of q path h = elim (tag-cases q path h) [
  | inl (e, _) ↦ rw e ((omega arith, refl, omega arith), (λ d. absurd (omega (arith, d)), tt))
  | inr (inl (e, _)) ↦ rw e ((omega arith, refl, omega arith), (λ d. absurd (omega (arith, d)), tt))
  | inr (inr (e, _)) ↦ rw e ((omega arith, refl, omega arith), (λ d. absurd (omega (arith, d)), tt))
]

-- A word that is 0 but at the first entry.
leads :
    (pte i word : ℕ) (there path : List ℕ)
    → word ≡ (if i == 0 then pte else 0)
    → path ≡ there
    → tag_of (pte2pa pte) ≡ some (0 ∷ there)
    → valid word ≡ true
    → tag_of (pte2pa word) ≡ some (i ∷ path)
leads pte i word there path is_word at_there to v = elim (eq-cases i 0) [
  | inl z ↦ rw (is_word, at_there, z) to
  | inr ne ↦
      (let zero_word : word ≡ 0 = ground (arith, is_word, ne) in
        absurd (ground (arith, sym v ∙ ap valid zero_word)))
]

child_of :
    (q : ℕ) (path : List ℕ) (i : ℕ)
    → tag_of q ≡ some path
    → length path < 2
    → i < 512
    → valid (get_u64 (q + 8 * i) memory_of) ≡ true
    → tag_of (pte2pa (get_u64 (q + 8 * i) memory_of)) ≡ some (i ∷ path)
child_of q path i h short in_i v = elim (tag-cases q path h) [
  | inl (e, e') ↦
      (let word = ap (λ p. get_u64 (p + 8 * i) memory_of) e ∙ root_word i in_i in
        leads (mid / 4096 * 1024 + 1) i (get_u64 (q + 8 * i) memory_of) [] path word e' refl v)
  | inr (inl (e, e')) ↦
      (let word = ap (λ p. get_u64 (p + 8 * i) memory_of) e ∙ mid_word i in_i in
        leads (low / 4096 * 1024 + 1) i (get_u64 (q + 8 * i) memory_of) (0 ∷ []) path word e' refl
          v)
  | inr (inr (e, e')) ↦ absurd (ground (arith, e', short))
]

pub machine-IsVm : IsVm machine free_of tag_of root
unfolding get_u64 put_u64
machine-IsVm = record {
  list = (refl, (omega arith, refl, omega arith), tt, refl);
  tree = record { page = page_of; child = child_of };
  at_root = refl;
}

-- In the lowest table's reach, only the first page has an entry.
pub machine-entry :
    (w : ℕ)
    → w < 512 * page_size
    → entry 2 root w memory_of ≡ (if w / page_size == 0 then data_pte else 0)
unfolding entry px
machine-entry w h =
    let top : w / 2 ^ (12 + 9 * 2) % 512 ≡ 0 = omega arith in
    let middle : w / 2 ^ (12 + 9 * 1) % 512 ≡ 0 = omega arith in
    let last : w / 2 ^ (12 + 9 * 0) % 512 ≡ w / page_size = omega arith in
    rw (top, root_word 0 (omega arith), middle, mid_word 0 (omega arith), last)
      (low_word (w / page_size) (omega arith))
