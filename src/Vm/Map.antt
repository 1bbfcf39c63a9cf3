-- ===== src/Vm/Map.antt =====
-- `vmmap`: the pages of a range of addresses are mapped, one after the other.
use cute_core.Base.{
  ℕ, suc, ◌+◌, ◌-◌, ◌*◌, ◌/◌, ◌%◌, ◌^◌, ◌<◌, ◌≤◌, ◌≡◌, ◌≢◌, ◌⊎◌, refl, ◌∙◌, sym, Bool, true, false,
  ◌&&◌, List, [], some, ap, arith, ltb, leb, ◌==◌, if◌then◌else◌, ok, bit_or,
}
use cute_core.Base.Or.{bit_or-one, bit_or_shifted}
use cute_core.Base.Words.{put_u64, put_u64_ne}
use cute_core.Pages.{Kmem, page_size}
use cute_core.Pages.FreeList.{IsFree, IsFree-frame}
use cute_core.Vm.{valid, pa2pte, pte_v, load, walk}
use cute_core.Vm.Tree.{Tags, IsTree, entry}
use cute_core.Vm.Leaf.{put-entry}
use cute_core.Vm.Walk.{walk_from_alloc}

-- the entry that maps a page to the one at `pa`
abbrev pub leaf : ℕ → ℕ → ℕ
leaf pa perm = pa / page_size * 1024 + (perm / 2 * 2 + 1)

pub leaf_lem : (pa perm : ℕ) → perm < 256 → bit_or (bit_or (pa2pte pa) perm) pte_v ≡ leaf pa perm
leaf_lem pa perm h = omega (
  arith,
  bit_or_shifted (pa / 4096) perm (omega arith),
  bit_or-one (bit_or (pa / 4096 * 1024) perm),
)

-- The first `k` pages from `va` on.
abbrev pub in_pages : ℕ → ℕ → ℕ → Bool
in_pages va k w = leb va w && ltb w (va + page_size * k)

-- The entries after the first `k` pages from `va` on are mapped to those from `pa` on.
abbrev pub mapped : (ℕ → ℕ) → ℕ → ℕ → ℕ → ℕ → ℕ → ℕ
mapped before va pa perm k w =
    if in_pages va k w
    then leaf (pa + (w / page_size - va / page_size) * page_size) perm
    else before w

-- The free pages and the tables are as they should be.
pub record IsVm (s : Kmem) (free : List ℕ) (tag : Tags) (root : ℕ) : Type 0 where
  pub list : IsFree s.memory s.memlist free
  pub tree : IsTree s.memory free tag
  pub at_root : tag root ≡ some []

-- What mapping up to `n` pages leaves, `done` says whether it mapped them all.
pub record Maps (root va pa perm n : ℕ) (s : Kmem) (done : Bool) (s' : Kmem) (free' : List ℕ)
    (tag' : Tags) : Type 0 where
  pub vm : IsVm s' free' tag' root
  pub count : ℕ
  pub enough : count ≤ n
  pub all : done ≡ (count == n)
  pub short : count < n → free' ≡ []
  pub entries :
      (w : ℕ)
      → w < 2 ^ 39
      → entry 2 root w s'.memory ≡ mapped (λ w'. entry 2 root w' s.memory) va pa perm count w

module _ (root va : ℕ) (s : Kmem) (free : List ℕ) (tag : Tags) (vm : IsVm s free tag root)
    (in_va : va < 2 ^ 39) (unmapped : valid (entry 2 root va s.memory) ≡ false) where
  -- `walk` and the write to the entry that it returns.
  pub map_page :
      (v : ℕ)
      → v < 2 ^ 64
      → (a : ℕ) × (s₁ : Kmem) × (free₁ : List ℕ) × (tag₁ : Tags) × (walk root va true s
          ≡ ok (a, s₁))
        × IsVm s₁ free₁ tag₁ root
        × ((w : ℕ) → entry 2 root w s₁.memory ≡ entry 2 root w s.memory)
        × (a ≡ 0 → free₁ ≡ [])
        × (a ≢ 0
            → (valid (load a s₁) ≡ false)
              × IsVm (record s₁ { memory = put_u64 a v s₁.memory }) free₁ tag₁ root
              × ((w : ℕ)
                  → w < 2 ^ 39
                  → entry 2 root w (put_u64 a v s₁.memory)
                    ≡ (if va / 4096 == w / 4096 then v else entry 2 root w s.memory)))
  unfolding walk
  map_page v in_v =
      let (a, s₁, free₁, tag₁, run, g, at_slot, empty) =
        walk_from_alloc 2 root va [] s free tag vm.list vm.tree vm.at_root refl in
      let at_root = g.tags root [] vm.at_root in
      let same : (w : ℕ) → entry 2 root w s₁.memory ≡ entry 2 root w s.memory =
        λ w. g.entries 2 root w [] vm.at_root refl in
      (
        a,
        s₁,
        free₁,
        tag₁,
        run,
        record { list = g.list; tree = g.tree; at_root = at_root },
        same,
        empty,
        λ there.
            let (tree', entries, q, j, in_j, at_q, at_q_j, is_entry) =
              put-entry s₁.memory free₁ tag₁ g.tree root va v at_root in_va in_v
                (λ e. there (at_slot ∙ e)) in
            let outside : (i : ℕ)
                → (i < q) ⊎ (q + page_size ≤ i)
                → put_u64 a v s₁.memory i ≡ s₁.memory i =
              λ i out. put_u64_ne a v s₁.memory i (omega (arith, at_slot, at_q_j)) in
            (
              rw (at_slot, sym is_entry, same va) unmapped,
              record {
                list =
                    IsFree-frame s₁.memory _ q s₁.memlist free₁ (g.tree.page q _ at_q).0
                      (g.tree.page q _ at_q).1 outside g.list;
                tree = rw at_slot tree';
                at_root = at_root;
              },
              λ w in_w.
                  ap (λ b. entry 2 root w (put_u64 b v s₁.memory)) at_slot
                  ∙ entries w in_w
                  ∙ ap (λ e. if va / 4096 == w / 4096 then v else e) (same w),
            ),
      )

-- A page and then `k` more are `k + 1` pages.
pub mapped-suc :
    (before middle : ℕ → ℕ) (va pa perm k w : ℕ)
    → va % page_size ≡ 0
    → middle w ≡ (if va / 4096 == w / 4096 then leaf pa perm else before w)
    → mapped middle (va + page_size) (pa + page_size) perm k w ≡ mapped before va pa perm (suc k) w
mapped-suc before middle va pa perm k w aligned h = ground (arith, h)

pub Maps-none :
    (root va pa perm n : ℕ) (s s₁ : Kmem) (free₁ : List ℕ) (tag₁ : Tags)
    → IsVm s₁ free₁ tag₁ root
    → ((w : ℕ) → entry 2 root w s₁.memory ≡ entry 2 root w s.memory)
    → free₁ ≡ []
    → Maps root va pa perm (suc n) s false s₁ free₁ tag₁
Maps-none root va pa perm n s s₁ free₁ tag₁ vm same empty = record {
  vm = vm;
  count = 0;
  enough = omega arith;
  all = ground arith;
  short = λ _. empty;
  entries = λ w in_w. ground (arith, same w);
}
