-- ===== src/Vm/Walk.antt =====
-- `walk`, which makes the tables that are missing when it may.
use cute_core.Base.{
  ℕ, zero, suc, ◌+◌, ◌*◌, ◌/◌, ◌<◌, ◌≡◌, inl, inr, refl, ◌∙◌, true, false, List, [], ◌∷◌, some,
  length, ap, arith, ◌==◌, ok, Bool-cases,
}
use cute_core.Base.Words.{get_u64, put_u64}
use cute_core.Pages.{Kmem, kalloc}
use cute_core.Pages.FreeList.{IsPage, IsFree}
use cute_core.Vm.{valid, px, pte2pa, load, walk_from}
use cute_core.Vm.Tree.{Tags, IsTree, slot, px_lt}
use cute_core.Vm.Grow.{grown, branch_lem, grown-at}
use cute_core.Vm.Table.{Grown, Grown-refl, Grown-trans, make_table}

-- What `walk_from` does that may make tables: it returns the lowest entry's address, or null when
-- no page is left.
abbrev pub Walks : ℕ → ℕ → ℕ → Kmem → Tags → Type 0
Walks l p va s tag =
    (a : ℕ) × (s' : Kmem) × (free' : List ℕ) × (tag' : Tags) × (walk_from l p va true s
      ≡ ok (a, s'))
    × Grown s tag s' free' tag'
    × (a ≡ slot l p va s'.memory)
    × (a ≡ 0 → free' ≡ [])

walk_from-present :
    (l p va : ℕ) (path : List ℕ) (s : Kmem) (tag : Tags)
    → tag p ≡ some path
    → length path < 2
    → valid (load (p + 8 * px (suc l) va) s) ≡ true
    → Walks l (pte2pa (load (p + 8 * px (suc l) va) s)) va s tag
    → Walks (suc l) p va s tag
unfolding walk_from slot
walk_from-present l p va path s tag at_p short v (a, s', free', tag', run, g, at_slot, empty) =
    let same = g.branches p path (px (suc l) va) at_p short (px_lt (suc l) va) v in
    (a, s', free', tag', rw v run, g, rw (same, v) at_slot, empty)

walk_from-null :
    (l p va : ℕ) (s : Kmem) (tag : Tags)
    → IsFree s.memory s.memlist []
    → IsTree s.memory [] tag
    → valid (load (p + 8 * px (suc l) va) s) ≡ false
    → Walks (suc l) p va s tag
unfolding walk_from slot kalloc
walk_from-null l p va s tag list tree v =
    let none_left : (s.memlist == 0) ≡ true = ground (arith, list) in
    (0, s, [], tag, rw (v, none_left) refl, Grown-refl s [] tag list tree, rw v refl, λ _. refl)

walk_from-made :
    (l p va x : ℕ) (s s₁ : Kmem) (xs : List ℕ) (tag tag₁ : Tags)
    → valid (load (p + 8 * px (suc l) va) s) ≡ false
    → IsPage x
    → kalloc s ≡ ok (x, s₁)
    → Walks l x va
        (record s₁ { memory = put_u64 (p + 8 * px (suc l) va) (x / 4096 * 1024 + 1) s₁.memory })
        tag₁
    → Grown s tag
        (record s₁ { memory = put_u64 (p + 8 * px (suc l) va) (x / 4096 * 1024 + 1) s₁.memory })
        xs
        tag₁
    → get_u64
        (p + 8 * px (suc l) va)
        (put_u64 (p + 8 * px (suc l) va) (x / 4096 * 1024 + 1) s₁.memory)
      ≡ x / 4096 * 1024 + 1
    → (path : List ℕ) → tag₁ p ≡ some path
    → length path < 2
    → Walks (suc l) p va s tag
unfolding walk_from slot
walk_from-made l p va x s s₁ xs tag tag₁ v page run (a, s', free', tag', run', g', at_slot, empty) g
      new path at_p short =
    let is_valid : valid (x / 4096 * 1024 + 1) ≡ true = ground arith in
    let there : (x == 0) ≡ false = ground (arith, page.0) in
    let same =
      g'.branches p path (px (suc l) va) at_p short (px_lt (suc l) va) (ap valid new ∙ is_valid)
      ∙ new in
    (
      a,
      s',
      free',
      tag',
      rw (v, run, there, (branch_lem x page).0) run',
      Grown-trans s _ s' xs free' tag tag₁ tag' g g',
      rw (same, is_valid, (branch_lem x page).1) at_slot,
      empty,
    )

walk_from-missing :
    (l p va : ℕ) (path : List ℕ) (s : Kmem) (free : List ℕ) (tag : Tags)
    → IsFree s.memory s.memlist free
    → IsTree s.memory free tag
    → tag p ≡ some path
    → length path < 2
    → valid (load (p + 8 * px (suc l) va) s) ≡ false
    → ((x : ℕ) (s₁ : Kmem) (xs : List ℕ) (tag₁ : Tags)
        → IsFree s₁.memory s₁.memlist xs
        → IsTree s₁.memory xs tag₁
        → tag₁ x ≡ some (px (suc l) va ∷ path)
        → Walks l x va s₁ tag₁)
    → Walks (suc l) p va s tag
walk_from-missing l p va path s [] tag list tree at_p short v rest =
    walk_from-null l p va s tag list tree v
walk_from-missing l p va path s (x ∷ xs) tag list tree at_p short v rest =
    let (s₁, run, g, new) =
      make_table s x p (px (suc l) va) xs path tag list tree at_p short (px_lt (suc l) va) v in
    walk_from-made l p va x s s₁ xs tag (grown x (px (suc l) va) path tag) v (list.1) run
      (rest x _ xs _ g.list g.tree (grown-at x (px (suc l) va) path tag)) g new path
      (g.tags p path at_p) short

pub walk_from_alloc :
    (l p va : ℕ) (path : List ℕ) (s : Kmem) (free : List ℕ) (tag : Tags)
    → IsFree s.memory s.memlist free
    → IsTree s.memory free tag
    → tag p ≡ some path
    → length path + l ≡ 2
    → Walks l p va s tag
unfolding walk_from slot
walk_from_alloc zero p va path s free tag list tree at_p level = (
  p + 8 * px 0 va,
  s,
  free,
  tag,
  refl,
  Grown-refl s free tag list tree,
  refl,
  λ e. absurd (omega (arith, e, (tree.page p path at_p).0.0)),
)
walk_from_alloc (suc l) p va path s free tag list tree at_p level =
    elim (Bool-cases (valid (load (p + 8 * px (suc l) va) s))) [
      | inl v ↦ walk_from-present l p va path s tag at_p (omega arith) v (
          walk_from_alloc l (pte2pa (load (p + 8 * px (suc l) va) s)) va (px (suc l) va ∷ path) s
            free tag list tree
            (tree.child p path (px (suc l) va) at_p (omega arith) (px_lt (suc l) va) v)
            (omega arith))
      | inr v ↦
          walk_from-missing l p va path s free tag list tree at_p (omega arith) v
            (λ x s₁ xs tag₁ list₁ tree₁ at_x.
              walk_from_alloc l x va (px (suc l) va ∷ path) s₁ xs tag₁ list₁ tree₁ at_x
                (omega arith))
    ]
