-- ===== src/Vfs/Counts.antt =====
-- The reference counts of inodes, and the paths that need no directory.
use cute_core.Base.{
  ℕ, suc, ◌+◌, ◌-◌, ◌%◌, ◌^◌, ◌<◌, ◌≤◌, ◌≡◌, ◌≢◌, inl, inr, refl, ◌∙◌, sym, ap, true, false, List,
  ◌∷◌, ◌++◌, none, some, arith, ◌==◌, ok, eq-cases, fun_ext, ==_refl, Bool-cases,
}
use cute_core.Str.{Memory}
use cute_core.PathNames.{slash, skipslash, path_next}
use cute_core.PathNames.Segment.{skipslash_lem}
use cute_core.Links.{list_del}
use cute_core.Links.Ring.{IsRing}
use cute_core.Links.Edit.{list_del_lem}
use cute_core.Vfs.{
  Vfs, InodeOps, up, down, positive, set_ref, drop_inode, iput, next_name, namex_from, namex, namei,
}

path_next-end :
    (limit path name : ℕ) (m : Memory) → m path ≡ 0 → path_next limit path name m ≡ some (none, m)
unfolding path_next
path_next-end limit path name m end = rw end refl

module _ {D : Type 0} where
  ref-set_ref : (ip r : ℕ) (s : Vfs D) → ((set_ref ip r s).inode ip).ref ≡ r
  ref-set_ref ip r s = rw (==_refl ip) refl

  set_ref-set_ref : (ip r r' : ℕ) (s : Vfs D) → set_ref ip r (set_ref ip r' s) ≡ set_ref ip r s
  set_ref-set_ref ip r r' s =
      ap (λ f. record s { inode = f })
        (fun_ext (λ a. elim (Bool-cases (ip == a)) [ inl e ↦ rw e refl | inr e ↦ rw e refl ]))

  set_ref_same : (ip r : ℕ) (s : Vfs D) → r ≡ (s.inode ip).ref → set_ref ip r s ≡ s
  set_ref_same ip r s h =
      ap (λ f. record s { inode = f })
        (fun_ext (λ a. elim (eq-cases ip a) [
          | inl e ↦ (let here : (ip == a) ≡ true = ground (arith, e) in rw (here, h, e) refl)
          | inr ne ↦ (let other : (ip == a) ≡ false = ground (arith, ne) in rw other refl)
        ]))

  module _ (ops : InodeOps D) (ip : ℕ) (s : Vfs D) where
    -- A reference that is not the last is counted down, and nothing else happens.
    iput-counted :
        ip ≢ 0
        → positive (down ((s.inode ip).ref)) ≡ true
        → iput ops ip s ≡ ok (tt, set_ref ip (down ((s.inode ip).ref)) s)
    unfolding iput
    iput-counted there more =
        let null : (ip == 0) ≡ false = ground (arith, there) in rw (null, more) refl

    -- The root stays when its last reference is given up: its count is 1 then.
    iput-root :
        ip ≢ 0
        → ip ≡ s.root
        → positive (down ((s.inode ip).ref)) ≡ false
        → iput ops ip s ≡ ok (tt, set_ref ip 1 s)
    unfolding iput
    iput-root there is_root last =
        let null : (ip == 0) ≡ false = ground (arith, there) in
        let here : (ip == s.root) ≡ true = ground (arith, is_root) in
        rw (null, last, here)
          (ap (λ t. ok (tt, t)) (set_ref-set_ref ip 1 (down ((s.inode ip).ref)) s))

  -- A reference more and one less leave every inode as it was, if there is a reference and the
  -- count does not overflow.
  pub iput-up :
      (ops : InodeOps D) (ip : ℕ) (s : Vfs D)
      → ip ≢ 0
      → 0 < (s.inode ip).ref
      → (s.inode ip).ref + 1 < 2 ^ 31
      → iput ops ip (set_ref ip (up ((s.inode ip).ref)) s) ≡ ok (tt, s)
  iput-up ops ip s there pos_ref small =
      let r : ℕ = (s.inode ip).ref in
      let more' : positive (down (up r)) ≡ true = ground arith in
      let back : down (up r) ≡ r = omega arith in
      let read : ((set_ref ip (up r) s).inode ip).ref ≡ up r = ref-set_ref ip (up r) s in
      iput-counted ops ip (set_ref ip (up r) s) there (ap (λ x. positive (down x)) read ∙ more')
      ∙ ap (λ x. ok (tt, set_ref ip (down x) (set_ref ip (up r) s))) read
      ∙ ap (λ t. ok (tt, t))
          (set_ref-set_ref ip (down (up r)) (up r) s ∙ set_ref_same ip (down (up r)) s back)

  -- `iput` of the root, with at least one reference, never drops it: the function returns, at least
  -- one reference is left, and no other inode, nor the list of cached ones, has changed.
  pub iput-keeps_root :
      (ops : InodeOps D) (s : Vfs D)
      → s.root ≢ 0
      → 0 < (s.inode s.root).ref
      → (s.inode s.root).ref < 2 ^ 31
      → (r : ℕ) × (iput ops s.root s ≡ ok (tt, set_ref s.root r s)) × (0 < r) × (r < 2 ^ 31)
  iput-keeps_root ops s there pos_ref small =
      let ref : ℕ = (s.inode s.root).ref in
      elim (Bool-cases (positive (down ref))) [
        | inl more ↦ (
          down ref,
          iput-counted ops s.root s there more,
          ground (arith, more),
          ground (arith, more),
        )
        | inr last ↦ (1, iput-root ops s.root s there refl last, omega arith, omega arith)
      ]

  -- The last reference to a linked inode that is not the root and has no change to write: the inode
  -- leaves the list of cached ones, which keeps the others in their order and is counted down, and
  -- then it is destroyed.
  pub iput-last :
      (ops : InodeOps D) (ip head : ℕ) (xs ys : List ℕ) (s : Vfs D)
      → ip ≢ 0
      → ip ≢ s.root
      → (s.inode ip).ref ≡ 1
      → (s.inode ip).nlinks ≢ 0
      → (s.inode ip).dirty ≡ false
      → IsRing s.inode_cache head (xs ++ (ip ∷ ys))
      → 0 < s.icache_size
      → s.icache_size < 2 ^ 32
      → (s' : Vfs D) × (iput ops ip s ≡ ops.destroy_inode ip s')
        × IsRing s'.inode_cache head (xs ++ ys)
        × (s'.icache_size + 1 ≡ s.icache_size)
        × ((a : ℕ) → a ≢ ip → s'.inode a ≡ s.inode a)
  unfolding iput drop_inode
  iput-last ops ip head xs ys s there no_root one linked clean ring pos_size small =
      let null : (ip == 0) ≡ false = ground (arith, there) in
      let other : (ip == s.root) ≡ false = ground (arith, no_root) in
      let last : positive (down ((s.inode ip).ref)) ≡ false = ground (arith, one) in
      let self : (ip == ip) ≡ true = ==_refl ip in
      let has_link : ((s.inode ip).nlinks == 0) ≡ false = ground (arith, linked) in
      (
        record (set_ref ip (down ((s.inode ip).ref)) s) {
          inode_cache = list_del ip s.inode_cache;
          icache_size = (s.icache_size + 2 ^ 32 - 1) % 2 ^ 32;
        },
        rw (null, last, other, self, has_link, clean) refl,
        list_del_lem ip head xs ys s.inode_cache ring,
        omega arith,
        λ a ne.
            let far : (ip == a) ≡ false = ground (arith, λ (e : ip ≡ a). ne (sym e)) in rw far refl,
      )

  next_name-end :
      (limit path name : ℕ) (s : Vfs D)
      → s.memory path ≡ 0
      → next_name limit path name s ≡ ok (0, s)
  next_name-end limit path name s end =
      rw (next_name, path_next-end limit path name s.memory end) refl

  -- At the end of the path the inode is returned.
  namex_from-end :
      (fuel limit : ℕ) (ops : InodeOps D) (name cur path namebuf : ℕ) (s : Vfs D)
      → s.memory path ≡ 0
      → namex_from (suc fuel) limit ops name cur path false namebuf s ≡ ok (cur, s)
  unfolding namex_from
  namex_from-end fuel limit ops name cur path namebuf s end =
      rw (next_name-end limit path name s end) refl

  -- `namei` of a path of slashes only, with more fuel than there are, returns the root with one
  -- reference more, and changes nothing else.
  pub namei-root :
      (fuel limit : ℕ) (ops : InodeOps D) (name path k : ℕ) (s : Vfs D)
      → path ≢ 0
      → s.root ≢ 0
      → ((i : ℕ) → i ≤ k → s.memory (path + i) ≡ slash)
      → s.memory (path + 1 + k) ≡ 0
      → k < limit
      → namei (suc fuel) limit ops name path s
        ≡ ok (s.root, set_ref s.root (up ((s.inode s.root).ref)) s)
  unfolding namei namex
  namei-root fuel limit ops name path k s there root slashes end enough =
      let null : (path == 0) ≡ false = ground (arith, there) in
      let mounted : (s.root == 0) ≡ false = ground (arith, root) in
      let first : (s.memory path == slash) ≡ true =
        let here : path + 0 ≡ path = omega arith in
        let at : s.memory path ≡ slash = ap s.memory (sym here) ∙ slashes 0 (omega arith) in
        ground (arith, at) in
      let skipped : skipslash limit (path + 1) s.memory ≡ some (path + 1 + k) =
        skipslash_lem limit (path + 1) k s.memory
          (λ i lt.
            let next : path + 1 + i ≡ path + (i + 1) = omega arith in
            ap s.memory next ∙ slashes (i + 1) (omega arith))
          (λ e. ground (arith, sym end ∙ e)) enough in
      rw (null, first, mounted, skipped)
        (namex_from-end fuel limit ops name s.root (path + 1 + k) 0
          (set_ref s.root (up ((s.inode s.root).ref)) s) end)
