-- ===== src/Vm/Grow.antt =====
-- A new table, taken from the free pages, changes the entry of no address.
use cute_core.Base.{
  ℕ, zero, suc, ◌+◌, ◌*◌, ◌/◌, ◌<◌, ◌≤◌, ◌≡◌, ◌≢◌, ◌⊎◌, inl, inr, refl, ◌∙◌, sym, true, false, List,
  ◌∷◌, some, length, ap, arith, ◌==◌, if◌then◌else◌, Bool-cases, eq-cases, if_false, ==_refl,
  bit_or,
}
use cute_core.Base.Or.{bit_or-one}
use cute_core.Base.Words.{get_u64-put_u64_ne, Bytes, get_u64, put_u64, get_u64-put_u64, get_u64_ext}
use cute_core.Pages.{page_size}
use cute_core.Pages.FreeList.{IsPage, Fresh}
use cute_core.Str.Copy.{within}
use cute_core.Vm.{valid, px, pa2pte, pte2pa, pte_v}
use cute_core.Vm.Tree.{Tags, IsTree, entry, px_lt}
use cute_core.Vm.Leaf.{page_apart}

-- `x` becomes the table behind entry `i` of a table.
abbrev pub grown : ℕ → ℕ → List ℕ → Tags → Tags
grown x i path tag q = if q == x then some (i ∷ path) else tag q

pub grown-at : (x i : ℕ) (path : List ℕ) (tag : Tags) → grown x i path tag x ≡ some (i ∷ path)
grown-at x i path tag = rw (==_refl x) refl

-- The entry that leads to a page.
pub branch_lem :
    (x : ℕ)
    → IsPage x
    → (bit_or (pa2pte x) pte_v ≡ x / 4096 * 1024 + 1) × (pte2pa (x / 4096 * 1024 + 1) ≡ x)
branch_lem x (pos_x, aligned, below) = (omega (arith, bit_or-one (x / 4096 * 1024)), omega arith)

get_u64-zeros : (o : ℕ) (m : Bytes) → ((i : ℕ) → o ≤ i → i < o + 8 → m i ≡ 0) → get_u64 o m ≡ 0
unfolding get_u64
get_u64-zeros o m zeros = get_u64_ext o m (λ _. 0) zeros

-- The memory after the table `x` is cleared and entry `i` of the table `p` leads to it.
module _ (m m1 : Bytes) (x p i : ℕ) (xs path : List ℕ) (tag : Tags) (tree : IsTree m (x ∷ xs) tag)
    (cleared : (a : ℕ) → m1 a ≡ (if within x page_size a then 0 else m a)) (is_page : IsPage x)
    (fresh : Fresh x xs) (at_p : tag p ≡ some path) (short : length path < 2) (in_i : i < 512)
    (missing : valid (get_u64 (p + 8 * i) m) ≡ false) where
  abbrev pub linked : Bytes
  linked = put_u64 (p + 8 * i) (x / 4096 * 1024 + 1) m1

  other_page : (q : ℕ) (path' : List ℕ) → tag q ≡ some path' → q ≢ x
  other_page q path' at_q e = (tree.page q path' at_q).1.0 e

  -- The other entries of the tables of before are the same.
  pub kept :
      (q : ℕ) (path' : List ℕ) (j : ℕ)
      → tag q ≡ some path'
      → j < 512
      → (q ≢ p) ⊎ (j ≢ i)
      → get_u64 (q + 8 * j) linked ≡ get_u64 (q + 8 * j) m
  kept q path' j at_q in_j other =
      let apart = page_apart q x (tree.page q path' at_q).0 is_page (other_page q path' at_q) in
      let before : get_u64 (q + 8 * j) m1 ≡ get_u64 (q + 8 * j) m =
        get_u64_ext (q + 8 * j) m1 m (λ a lo hi. ground (arith, cleared a, apart)) in
      get_u64-put_u64_ne (q + 8 * j) (p + 8 * i) (x / 4096 * 1024 + 1) m1 (elim (eq-cases q p) [
        | inl e ↦ omega (arith, e, other)
        | inr ne ↦
            omega (arith, page_apart q p (tree.page q path' at_q).0 (tree.page p path at_p).0 ne)
      ])
      ∙ before

  pub new_entry : get_u64 (p + 8 * i) linked ≡ x / 4096 * 1024 + 1
  new_entry = get_u64-put_u64 (p + 8 * i) (x / 4096 * 1024 + 1) m1 (omega (arith, is_page.2))

  empty : (j : ℕ) → j < 512 → get_u64 (x + 8 * j) linked ≡ 0
  empty j in_j =
      let apart = page_apart p x (tree.page p path at_p).0 is_page (other_page p path at_p) in
      get_u64-put_u64_ne (x + 8 * j) (p + 8 * i) (x / 4096 * 1024 + 1) m1 (omega (arith, apart))
      ∙ get_u64-zeros (x + 8 * j) m1 (λ a lo hi. ground (arith, cleared a))

  pub grown-old : (q : ℕ) (path' : List ℕ) → tag q ≡ some path' → grown x i path tag q ≡ some path'
  grown-old q path' at_q =
      let ne : (q == x) ≡ false = ground (arith, other_page q path' at_q) in rw ne at_q

  -- A table of the new tree is the new one, or one of before.
  table-cases :
      (q : ℕ) (path' : List ℕ)
      → grown x i path tag q ≡ some path'
      → ((q ≡ x) × (path' ≡ i ∷ path)) ⊎ (tag q ≡ some path')
  table-cases q path' at_q = elim (eq-cases q x) [
    | inl e ↦ inl (e, ground (arith, sym at_q ∙ ap (grown x i path tag) e ∙ grown-at x i path tag))
    | inr ne ↦
        (let differ : (q == x) ≡ false = ground (arith, ne) in
          inr (sym (if_false (some (i ∷ path)) (tag q) differ) ∙ at_q))
  ]

  linked-child :
      (q : ℕ) (path' : List ℕ) (j : ℕ)
      → tag q ≡ some path'
      → length path' < 2
      → j < 512
      → valid (get_u64 (q + 8 * j) linked) ≡ true
      → (q ≡ p) ⊎ (q ≢ p)
      → (j ≡ i) ⊎ (j ≢ i)
      → grown x i path tag (pte2pa (get_u64 (q + 8 * j) linked)) ≡ some (j ∷ path')
  linked-child q path' j at_q short' in_j v (inl e) (inl e') =
      let same_path : path ≡ path' = ground (arith, sym at_p ∙ sym (ap tag e) ∙ at_q) in
      let here : get_u64 (q + 8 * j) linked ≡ x / 4096 * 1024 + 1 =
        ap (λ o. get_u64 o linked) (omega (arith, e, e')) ∙ new_entry in
      rw (here, (branch_lem x is_page).1, e', sym same_path) (grown-at x i path tag)
  linked-child q path' j at_q short' in_j v (inr ne) _ =
      let same = kept q path' j at_q in_j (inl ne) in
      rw same
        (grown-old _ (j ∷ path') (tree.child q path' j at_q short' in_j (sym (ap valid same) ∙ v)))
  linked-child q path' j at_q short' in_j v (inl e) (inr ne) =
      let same = kept q path' j at_q in_j (inr ne) in
      rw same
        (grown-old _ (j ∷ path') (tree.child q path' j at_q short' in_j (sym (ap valid same) ∙ v)))

  pub linked-IsTree : IsTree linked xs (grown x i path tag)
  linked-IsTree = record {
    page = λ q path' at_q. elim (table-cases q path' at_q) [
      | inl new ↦ rw (new.0) (is_page, fresh)
      | inr old ↦ ((tree.page q path' old).0, (tree.page q path' old).1.1)
    ];
    child = λ q path' j at_q short' in_j v. elim (table-cases q path' at_q) [
      | inl new ↦
          (let nothing : get_u64 (q + 8 * j) linked ≡ 0 = rw (new.0) (empty j in_j) in
            ground (arith, ap valid nothing))
      | inr old ↦ linked-child q path' j old short' in_j v (eq-cases q p) (eq-cases j i)
    ];
  }

  entry-empty : (l va : ℕ) → entry l x va linked ≡ 0
  unfolding entry
  entry-empty zero va = empty (px 0 va) (px_lt 0 va)
  entry-empty (suc l) va = rw (empty (px (suc l) va) (px_lt (suc l) va)) refl

  pub place-cases : (q j : ℕ) → (q + 8 * j ≡ p + 8 * i) ⊎ (q ≢ p) ⊎ (j ≢ i)
  place-cases q j = elim (eq-cases q p) [
    | inl e ↦ elim (eq-cases j i) [ inl e' ↦ inl (omega (arith, e, e')) | inr ne ↦ inr (inr ne) ]
    | inr ne ↦ inr (inl ne)
  ]

  -- The entry above, when those of the table that it leads to are the same.
  linked-entry_step :
      (l q va : ℕ) (path' : List ℕ)
      → tag q ≡ some path'
      → (valid (get_u64 (q + 8 * px (suc l) va) m) ≡ true
          → entry l (pte2pa (get_u64 (q + 8 * px (suc l) va) m)) va linked
            ≡ entry l (pte2pa (get_u64 (q + 8 * px (suc l) va) m)) va m)
      → (q + 8 * px (suc l) va ≡ p + 8 * i) ⊎ (q ≢ p) ⊎ (px (suc l) va ≢ i)
      → entry (suc l) q va linked ≡ entry (suc l) q va m
  unfolding entry
  linked-entry_step l q va path' at_q rest (inl place) =
      let here : get_u64 (q + 8 * px (suc l) va) linked ≡ x / 4096 * 1024 + 1 =
        ap (λ o. get_u64 o linked) place ∙ new_entry in
      let old : valid (get_u64 (q + 8 * px (suc l) va) m) ≡ false =
        ap (λ o. valid (get_u64 o m)) place ∙ missing in
      let is_valid : valid (x / 4096 * 1024 + 1) ≡ true = ground arith in
      rw (here, old, is_valid, (branch_lem x is_page).1) (entry-empty l va)
  linked-entry_step l q va path' at_q rest (inr other) =
      let same = kept q path' (px (suc l) va) at_q (px_lt (suc l) va) other in
      elim (Bool-cases (valid (get_u64 (q + 8 * px (suc l) va) m))) [
        | inl v ↦ rw (same, v) (rest v)
        | inr v ↦ rw (same, v) refl
      ]

  pub linked-entry :
      (l q va : ℕ) (path' : List ℕ)
      → tag q ≡ some path'
      → length path' + l ≡ 2
      → entry l q va linked ≡ entry l q va m
  unfolding entry
  linked-entry zero q va path' at_q level =
      let ne : q ≢ p = λ e. ground (arith, sym at_p ∙ sym (ap tag e) ∙ at_q) in
      kept q path' (px 0 va) at_q (px_lt 0 va) (inl ne)
  linked-entry (suc l) q va path' at_q level =
      linked-entry_step l q va path' at_q
        (λ v.
          linked-entry l (pte2pa (get_u64 (q + 8 * px (suc l) va) m)) va (px (suc l) va ∷ path')
            (tree.child q path' (px (suc l) va) at_q (omega arith) (px_lt (suc l) va) v)
            (omega arith))
        (place-cases q (px (suc l) va))
