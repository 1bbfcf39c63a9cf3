-- ===== src/Vm/Tree.antt =====
-- The page tables as a tree. `tag` says of an address which table lies there: the indices of the
-- entries that lead to it, the last one first.
use cute_core.Base.{
  ℕ, zero, suc, ◌+◌, ◌*◌, ◌<◌, ◌≡◌, ◌≢◌, inl, inr, refl, ◌∙◌, sym, true, false, List, ◌∷◌, Option,
  some, length, ap, arith, if◌then◌else◌, if_true, ok, Bool-cases,
}
use cute_core.Base.Words.{Bytes, get_u64}
use cute_core.Pages.{Kmem}
use cute_core.Pages.FreeList.{IsPage, Fresh}
use cute_core.Vm.{valid, px, pte2pa, walk_from}

abbrev pub Tags : Type 0
Tags = ℕ → Option (List ℕ)

-- Every table is a page that is not free, and above the lowest level its valid entries lead to the
-- tables with one index more.
pub record IsTree (m : Bytes) (free : List ℕ) (tag : Tags) : Type 0 where
  pub page : (p : ℕ) (path : List ℕ) → tag p ≡ some path → IsPage p × Fresh p free
  pub child :
      (p : ℕ) (path : List ℕ) (i : ℕ)
      → tag p ≡ some path
      → length path < 2
      → i < 512
      → valid (get_u64 (p + 8 * i) m) ≡ true
      → tag (pte2pa (get_u64 (p + 8 * i) m)) ≡ some (i ∷ path)

-- The address of the lowest entry for `va`, or 0 when a table is missing; and the entry, 0 then.
unfoldable pub slot : ℕ → ℕ → ℕ → Bytes → ℕ
slot zero p va m = p + 8 * px 0 va
slot (suc l) p va m =
    let rest = slot l (pte2pa (get_u64 (p + 8 * px (suc l) va) m)) va m in
    if valid (get_u64 (p + 8 * px (suc l) va) m) then rest else 0

unfoldable pub entry : ℕ → ℕ → ℕ → Bytes → ℕ
entry zero p va m = get_u64 (p + 8 * px 0 va) m
entry (suc l) p va m =
    let rest = entry l (pte2pa (get_u64 (p + 8 * px (suc l) va) m)) va m in
    if valid (get_u64 (p + 8 * px (suc l) va) m) then rest else 0

-- The indices on the way to the lowest table for `va`.
abbrev pub path_to : ℕ → ℕ → List ℕ → List ℕ
path_to zero va path = path
path_to (suc l) va path = path_to l va (px (suc l) va ∷ path)

pub px_lt : (l va : ℕ) → px l va < 512
unfolding px
px_lt l va = omega arith

pub walk_from-slot :
    (l p va : ℕ) (s : Kmem) → walk_from l p va false s ≡ ok (slot l p va s.memory, s)
unfolding walk_from slot
walk_from-slot zero p va s = refl
walk_from-slot (suc l) p va s =
    elim (Bool-cases (valid (get_u64 (p + 8 * px (suc l) va) s.memory))) [
      | inl v ↦
          rw (v, walk_from-slot l (pte2pa (get_u64 (p + 8 * px (suc l) va) s.memory)) va s) refl
      | inr v ↦ rw v refl
    ]

-- The entries above the lowest level are the same.
abbrev pub Agree : Bytes → Bytes → Tags → Type 0
Agree m m' tag =
    (p : ℕ) (path : List ℕ) (i : ℕ)
    → tag p ≡ some path
    → length path < 2
    → i < 512
    → get_u64 (p + 8 * i) m' ≡ get_u64 (p + 8 * i) m

module _ (m m' : Bytes) (free : List ℕ) (tag : Tags) (tree : IsTree m free tag)
    (agree : Agree m m' tag) where
  pub IsTree-Agree : IsTree m' free tag
  IsTree-Agree = record {
    page = tree.page;
    child = λ p path i at_p short lt v.
        let same = agree p path i at_p short lt in
        rw same (tree.child p path i at_p short lt (sym (ap valid same) ∙ v));
  }

  pub slot-Agree :
      (l p va : ℕ) (path : List ℕ)
      → tag p ≡ some path
      → length path + l ≡ 2
      → slot l p va m' ≡ slot l p va m
  unfolding slot
  slot-Agree zero p va path at_p level = refl
  slot-Agree (suc l) p va path at_p level =
      let same = agree p path (px (suc l) va) at_p (omega arith) (px_lt (suc l) va) in
      elim (Bool-cases (valid (get_u64 (p + 8 * px (suc l) va) m))) [
        | inl v ↦
            rw (same, v)
              (slot-Agree l (pte2pa (get_u64 (p + 8 * px (suc l) va) m)) va (px (suc l) va ∷ path)
                (tree.child p path (px (suc l) va) at_p (omega arith) (px_lt (suc l) va) v)
                (omega arith))
        | inr v ↦ rw (same, v) refl
      ]

module _ (m : Bytes) (free : List ℕ) (tag : Tags) (tree : IsTree m free tag) where
  -- The lowest table lies where the indices say.
  pub slot-some :
      (l p va : ℕ) (path : List ℕ)
      → tag p ≡ some path
      → length path + l ≡ 2
      → slot l p va m ≢ 0
      → (q : ℕ) × (tag q ≡ some (path_to l va path))
        × (slot l p va m ≡ q + 8 * px 0 va)
        × (entry l p va m ≡ get_u64 (slot l p va m) m)
  unfolding slot entry
  slot-some zero p va path at_p level there = (p, at_p, refl, refl)
  slot-some (suc l) p va path at_p level there =
      elim (Bool-cases (valid (get_u64 (p + 8 * px (suc l) va) m))) [
        | inl v ↦
            (let (q, at_q, at_slot, is_entry) =
                slot-some l (pte2pa (get_u64 (p + 8 * px (suc l) va) m)) va (px (suc l) va ∷ path)
                  (tree.child p path (px (suc l) va) at_p (omega arith) (px_lt (suc l) va) v)
                  (omega arith) (λ e. there (rw v e)) in
              (q, at_q, rw v at_slot, rw v is_entry))
        | inr v ↦ absurd (there (rw v refl))
      ]

  -- Without the lowest table the entry is 0.
  pub slot-none :
      (l p va : ℕ) (path : List ℕ)
      → tag p ≡ some path
      → length path + l ≡ 2
      → slot l p va m ≡ 0
      → entry l p va m ≡ 0
  unfolding slot entry
  slot-none zero p va path at_p level h = absurd (omega (arith, (tree.page p path at_p).0.0))
  slot-none (suc l) p va path at_p level h =
      elim (Bool-cases (valid (get_u64 (p + 8 * px (suc l) va) m))) [
        | inl v ↦ rw v (
            slot-none l (pte2pa (get_u64 (p + 8 * px (suc l) va) m)) va (px (suc l) va ∷ path)
              (tree.child p path (px (suc l) va) at_p (omega arith) (px_lt (suc l) va) v)
              (omega arith) (sym (if_true _ 0 v) ∙ h))
        | inr v ↦ rw v refl
      ]
