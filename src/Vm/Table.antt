-- ===== src/Vm/Table.antt =====
-- A table that `walk` makes: the free pages, the tree and the entries after it.
use cute_core.Base.{
  ℕ, ◌+◌, ◌*◌, ◌/◌, ◌<◌, ◌≤◌, ◌≡◌, ◌⊎◌, inl, inr, refl, ◌∙◌, sym, true, false, List, ◌∷◌, some,
  length, ap, arith, ok,
}
use cute_core.Base.Words.{get_u64, put_u64, put_u64_ne}
use cute_core.Pages.{Kmem, page_size, kalloc}
use cute_core.Pages.FreeList.{IsFree, IsFree-frame, kalloc_lem}
use cute_core.Vm.{valid, load}
use cute_core.Vm.Tree.{Tags, IsTree, entry}
use cute_core.Vm.Grow.{grown, kept, new_entry, grown-old, linked-IsTree, linked-entry, place-cases}

-- The free pages and the tree after tables were added: no address has another entry.
pub record Grown (s : Kmem) (tag : Tags) (s' : Kmem) (free' : List ℕ) (tag' : Tags) : Type 0 where
  pub list : IsFree s'.memory s'.memlist free'
  pub tree : IsTree s'.memory free' tag'
  pub tags : (q : ℕ) (path : List ℕ) → tag q ≡ some path → tag' q ≡ some path
  pub entries :
      (l q w : ℕ) (path : List ℕ)
      → tag q ≡ some path
      → length path + l ≡ 2
      → entry l q w s'.memory ≡ entry l q w s.memory
  pub branches :
      (q : ℕ) (path : List ℕ) (i : ℕ)
      → tag q ≡ some path
      → length path < 2
      → i < 512
      → valid (load (q + 8 * i) s) ≡ true
      → load (q + 8 * i) s' ≡ load (q + 8 * i) s

pub Grown-refl :
    (s : Kmem) (free : List ℕ) (tag : Tags)
    → IsFree s.memory s.memlist free
    → IsTree s.memory free tag
    → Grown s tag s free tag
Grown-refl s free tag list tree = record {
  list = list;
  tree = tree;
  tags = λ q path at_q. at_q;
  entries = λ l q w path at_q level. refl;
  branches = λ q path i at_q short in_i v. refl;
}

pub Grown-trans :
    (s s₁ s₂ : Kmem) (free₁ free₂ : List ℕ) (tag tag₁ tag₂ : Tags)
    → Grown s tag s₁ free₁ tag₁
    → Grown s₁ tag₁ s₂ free₂ tag₂
    → Grown s tag s₂ free₂ tag₂
Grown-trans s s₁ s₂ free₁ free₂ tag tag₁ tag₂ g h = record {
  list = h.list;
  tree = h.tree;
  tags = λ q path at_q. h.tags q path (g.tags q path at_q);
  entries = λ l q w path at_q level.
      h.entries l q w path (g.tags q path at_q) level ∙ g.entries l q w path at_q level;
  branches = λ q path i at_q short in_i v.
      let same = g.branches q path i at_q short in_i v in
      h.branches q path i (g.tags q path at_q) short in_i (ap valid same ∙ v) ∙ same;
}

-- A missing table is made.
module _ (s : Kmem) (x p i : ℕ) (xs path : List ℕ) (tag : Tags)
    (list : IsFree s.memory s.memlist (x ∷ xs)) (tree : IsTree s.memory (x ∷ xs) tag)
    (at_p : tag p ≡ some path) (short : length path < 2) (in_i : i < 512)
    (missing : valid (load (p + 8 * i) s) ≡ false) where
  pub make_table :
      (s' : Kmem) × (kalloc s ≡ ok (x, s'))
      × Grown s tag
          (record s' { memory = put_u64 (p + 8 * i) (x / 4096 * 1024 + 1) s'.memory })
          xs
          (grown x i path tag)
      × (get_u64 (p + 8 * i) (put_u64 (p + 8 * i) (x / 4096 * 1024 + 1) s'.memory)
          ≡ x / 4096 * 1024 + 1)
  make_table =
      let (at_x, is_page, fresh, rest) = list in
      let (s', run, list', cleared) = kalloc_lem s x xs list in
      let outside : (a : ℕ)
          → (a < p) ⊎ (p + page_size ≤ a)
          → put_u64 (p + 8 * i) (x / 4096 * 1024 + 1) s'.memory a ≡ s'.memory a =
        λ a out. put_u64_ne (p + 8 * i) (x / 4096 * 1024 + 1) s'.memory a (omega arith) in
      (
        s',
        run,
        record {
          list =
              IsFree-frame s'.memory _ p s'.memlist xs (tree.page p path at_p).0
                (tree.page p path at_p).1.1 outside list';
          tree =
              linked-IsTree s.memory s'.memory x p i xs path tag tree cleared is_page fresh at_p
                short in_i missing;
          tags =
              grown-old s.memory s'.memory x p i xs path tag tree cleared is_page fresh at_p short
                in_i missing;
          entries =
              linked-entry s.memory s'.memory x p i xs path tag tree cleared is_page fresh at_p
                short in_i missing;
          branches = λ q path' j at_q short' in_j v.
              elim (place-cases s.memory s'.memory x p i xs path tag tree cleared is_page fresh at_p
                short in_i missing q j) [
                  | inl here ↦
                      ground (arith, sym v ∙ ap (λ o. valid (get_u64 o s.memory)) here ∙ missing)
                  | inr other ↦
                      kept s.memory s'.memory x p i xs path tag tree cleared is_page fresh at_p
                        short in_i missing q path' j at_q in_j other
                ];
        },
        new_entry s.memory s'.memory x p i xs path tag tree cleared is_page fresh at_p short in_i
            missing,
      )
