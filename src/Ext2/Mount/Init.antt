-- ===== src/Ext2/Mount/Init.antt =====
-- fs/ext2/super.c: the whole mount, on a disk with a valid superblock and on one with another magic
-- number.
use cute_core.Base.{
  ℕ, ◌+◌, ◌*◌, ◌≢◌, ap, ltb, ◌<◌, ◌≤◌, ◌≡◌, refl, sym, ◌∙◌, fun_ext, inl, inr, true, false, List,
  subst, arith, ◌==◌, set, ok, Cmd,
}
use cute_core.Base.Int.{negsuc}
use cute_core.BlkCache.{Block, Slot, Cache, drop_ref}
use cute_core.BlkCache.View.{IsCoherent, content}
use cute_core.BlkCache.InPlace.{brelse_lem}
use cute_core.BlkCache.Bread.{Read, bread-returns}
use cute_core.BlkCache.Room.{room, room-set, no_room}
use cute_core.Vfs.{Vfs}
use cute_core.Pages.{Kmem}
use cute_core.Slab.{kmalloc}
use cute_core.Ext2.{Fs, desc_size}
use cute_core.Ext2.Super
use cute_core.Ext2.Mounted.{IsMounted, blocks}
use cute_core.Ext2.Mount.{Kernel, take_super, give_back, load_descs, mount_root, ext2_fs_init}
use cute_core.Ext2.Mount.Layout.{
  field16, group_number, IsSuper, IsMountOf, raw_sb16_lem, read_layout_lem, table_lem,
}

-- `bread` of the superblock takes one free slot at most.
keeps_room : {c c' : Cache} (i : ℕ) (r : Read c 0 i c') → room c.slots ≤ room c'.slots + 1
unfolding room
keeps_room {c} {c'} i r =
    rw (r.slots_eq) (ground (arith, room-set c.slots i r.slot r.was, r.one_more))

taken_super :
    (s : Fs) {c' : Cache} (i : ℕ) (r : Read s.cache 0 i c')
    → 1 < room s.cache.slots
    → IsMounted (record s { cache = c'; sb_buf = i })
taken_super s {c'} i r free = record {
  coherent = r.coherent;
  has_room = omega (arith, keeps_room i r);
  sb = r.slot;
  sb_held = r.held;
  sb_in_use = omega (arith, r.one_more);
}

-- The superblock is in use and its slot holds block 0.
take_super_lem :
    (s : Fs)
    → IsCoherent s.cache
    → 1 < room s.cache.slots
    → field16 Super.magic (content s.cache 0) ≡ 0xEF53
    → (s' : Fs) × (take_super s ≡ ok (true, s')) × IsMounted s' × (blocks s' ≡ content s.cache)
unfolding take_super
take_super_lem s coherent free magic = elim (bread-returns 0 coherent) [
  | inl (sb, c, run, r) ↦
      (let v = taken_super s sb r free in
        let s' : Fs = record s { cache = c; sb_buf = sb } in
        (
          s',
          rw (run, raw_sb16_lem s' v.coherent v.sb v.sb_held Super.magic, r.reads 0, magic) refl,
          v,
          fun_ext r.reads,
        ))
  | inr (run, missed, taken) ↦ absurd (omega (arith, no_room s.cache.slots taken))
]

-- A mount with a coherent cache of two free slots and a valid superblock, whose table of descriptors
-- has at most 4088 bytes, the most that `kmalloc` can give, and with memory for its two objects: it
-- comes to the root directory with a file system whose invariant holds, whose blocks read as before
-- and whose fields are those of the superblock; descriptor `g` of its table is the one that stands
-- where the allocators write descriptor `g` back.
pub ext2_fs_init_lem :
    (ekernel : ℕ) (caches : List ℕ) (inode_cache : ℕ) (ext2_iget : ℕ → Cmd (Vfs Fs) ℕ) (s : Kernel)
    (info table : ℕ) (k k' : Kmem)
    → IsCoherent s.vfs.disk.cache
    → 1 < room s.vfs.disk.cache.slots
    → IsSuper (content s.vfs.disk.cache 0)
    → group_number (content s.vfs.disk.cache 0) * desc_size ≤ 4088
    → kmalloc caches 40 s.kmem ≡ ok (info, k)
    → info ≢ 0
    → kmalloc caches (group_number (content s.vfs.disk.cache 0) * desc_size) k ≡ ok (table, k')
    → table ≢ 0
    → (d : Fs) × (ext2_fs_init ekernel caches inode_cache ext2_iget s
        ≡ mount_root ekernel info table inode_cache ext2_iget
            (record { vfs = record s.vfs { disk = d }; kmem = k' }))
      × IsMountOf (content s.vfs.disk.cache) d
unfolding ext2_fs_init load_descs
ext2_fs_init_lem ekernel caches inode_cache ext2_iget s info table k k' coherent free valid small
      has_info some_info has_table some_table =
    let (s1, taken, v, same) = take_super_lem s.vfs.disk coherent free valid.magic in
    let valid1 : IsSuper (blocks s1 0) = subst (λ b. IsSuper (b 0)) (sym same) valid in
    let (d, reads, m) = table_lem v valid1 in
    let e0 : (info == 0) ≡ false = ground (arith, some_info) in
    let e1 : (table == 0) ≡ false = ground (arith, some_table) in
    let groups : group_number (blocks s1 0) ≡ group_number (content s.vfs.disk.cache 0) =
      ap (λ (b : ℕ → Block). group_number (b 0)) same in
    let e2 : ltb 4088 (group_number (blocks s1 0) * desc_size) ≡ false =
      rw (groups) (ground (arith, small)) in
    let has_table' : kmalloc caches (group_number (blocks s1 0) * desc_size) k ≡ ok (table, k') =
      ap (λ n. kmalloc caches (n * desc_size) k) groups ∙ has_table in
    (
      d,
      rw (taken, has_info, e0, read_layout_lem v valid1, has_table', e1, e2, reads) refl,
      subst (λ b. IsMountOf b d) same m,
    )

-- What is left of the cache after a mount that is refused: all reads and the number of free slots.
pub record IsRefused (s d : Fs) : Type 0 where
  pub coherent : IsCoherent d.cache
  pub same : content d.cache ≡ content s.cache
  pub free : room d.cache.slots ≡ room s.cache.slots

refused_room :
    {c c' : Cache} (i : ℕ) (r : Read c 0 i c') (l : List Slot)
    → l ≡ set c'.slots i (drop_ref r.slot)
    → room l ≡ room c.slots
refused_room {c} {c'} i r l e =
    let taken = room-set c.slots i r.slot r.was in
    let given = room-set c'.slots i (drop_ref r.slot) r.held.at_i in
    let one : room c'.slots ≡ room (set c.slots i r.slot) = rw (r.slots_eq) refl in
    rw (e) (ground (arith, taken, given, one, r.one_more))

take_super-IsRefused :
    (s : Fs)
    → IsCoherent s.cache
    → 0 < room s.cache.slots
    → (field16 Super.magic (content s.cache 0) == 0xEF53) ≡ false
    → (s' : Fs) × (d : Fs) × (take_super s ≡ ok (false, s'))
      × (give_back s' ≡ ok (tt, d))
      × IsRefused s d
unfolding take_super
take_super-IsRefused s coherent free bad = elim (bread-returns 0 coherent) [
  | inl (sb, c, run, r) ↦
      (let s' : Fs = record s { cache = c; sb_buf = sb } in
        let (d, given, coh, reads, slots, _) =
          brelse_lem r.coherent sb r.slot r.held.at_i (omega (arith, r.one_more)) in
        (
          s',
          record s' { cache = d },
          rw (run, raw_sb16_lem s' r.coherent r.slot r.held Super.magic, r.reads 0, bad) refl,
          rw (given) refl,
          record {
            coherent = coh;
            same = fun_ext (λ m. reads m ∙ r.reads m);
            free = refused_room sb r d.slots slots;
          },
        ))
  | inr (run, missed, taken) ↦ absurd (omega (arith, no_room s.cache.slots taken))
]

-- On a disk with another magic number, whatever memory there is, a mount returns -2: all blocks read
-- as before, as many slots of the cache are free as before, and the memory is as before.
pub ext2_fs_init-IsRefused :
    (ekernel : ℕ) (caches : List ℕ) (inode_cache : ℕ) (ext2_iget : ℕ → Cmd (Vfs Fs) ℕ) (s : Kernel)
    → IsCoherent s.vfs.disk.cache
    → 0 < room s.vfs.disk.cache.slots
    → (field16 Super.magic (content s.vfs.disk.cache 0) == 0xEF53) ≡ false
    → (d : Fs) × (ext2_fs_init ekernel caches inode_cache ext2_iget s
        ≡ ok (negsuc 1, record s { vfs = record s.vfs { disk = d } }))
      × IsRefused s.vfs.disk d
unfolding ext2_fs_init
ext2_fs_init-IsRefused ekernel caches inode_cache ext2_iget s coherent free bad =
    let (s', d, taken, given, r) = take_super-IsRefused s.vfs.disk coherent free bad in
    (d, rw (taken, given) refl, r)
