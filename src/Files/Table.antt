-- ===== src/Files/Table.antt =====
-- The table of open files: its list and its count, and the references to a file.
use cute_core.Base.{
  ℕ, ◌+◌, ◌-◌, ◌%◌, ◌^◌, ◌<◌, ◌≡◌, ◌≢◌, ◌⊎◌, inl, inr, refl, ◌∙◌, sym, ap, Bool, true, false, not,
  ◌||◌, List, [], ◌∷◌, ◌++◌, length, arith, ◌==◌, if◌then◌else◌, ok, pure, ◌>>=◌, eq-cases, fun_ext,
  ==_refl, Bool-cases,
}
use cute_core.Base.Int.{negsuc}
use cute_core.Ext2.Inode.{dir, symlink}
use cute_core.Links.{list_init, list_add_tail, list_del}
use cute_core.Links.Ring.{NotIn, IsRing}
use cute_core.Links.Edit.{list_init_other, list_add_tail_lem, list_del_lem}
use cute_core.Vfs.{Vfs, InodeOps, File, FileOps, up, down, positive, iput}
use cute_core.Files.{
  Files, FileCache, set_file, filealloc, close_file, fileclose, filedup, release_file, readable,
  writable, fileread, filewrite,
}

-- The files in the table, in order, and their count.
pub record IsTable {D : Type 0} (s : Files D) (fs : List ℕ) : Type 0 where
  pub ring : IsRing s.links s.head fs
  pub counted : s.count ≡ length fs

length_snoc : (xs : List ℕ) (x : ℕ) → length (xs ++ (x ∷ [])) ≡ length xs + 1
length_snoc [] x = refl
length_snoc (y ∷ xs) x = omega (arith, length_snoc xs x)

length_middle :
    (xs : List ℕ) (x : ℕ) (ys : List ℕ) → length (xs ++ (x ∷ ys)) ≡ length (xs ++ ys) + 1
length_middle [] x ys = omega arith
length_middle (y ∷ xs) x ys = omega (arith, length_middle xs x ys)

abbrev pub blank : File
blank = record { ref = 1; flags = 0; offset = 0; inode = 0; ops = 0 }

module _ {D : Type 0} where
  -- `filealloc` with an object that is not in the table: the file is at the end of the table, has one
  -- reference and is otherwise blank, and the other files are as they were.
  pub filealloc_lem :
      (cache : FileCache D) (s : Files D) (v : Vfs D) (f : ℕ) (fs : List ℕ)
      → IsTable s fs
      → cache.cache_alloc s.vfs ≡ ok (f, v)
      → f ≢ 0
      → NotIn f (s.head ∷ fs)
      → length fs + 1 < 2 ^ 64
      → (s' : Files D) × (filealloc cache s ≡ ok (f, s'))
        × IsTable s' (fs ++ (f ∷ []))
        × (s'.file_at f ≡ blank)
        × ((g : ℕ) → g ≢ f → s'.file_at g ≡ s.file_at g)
  unfolding filealloc
  filealloc_lem cache s v f fs table run there fresh small =
      let null : (f == 0) ≡ false = ground (arith, there) in
      (
        record (set_file f blank (record s { vfs = v })) {
          links = list_add_tail f s.head (list_init f s.links);
          count = (s.count + 1) % 2 ^ 64;
        },
        rw (run, null) refl,
        record {
          ring =
              list_add_tail_lem f s.head fs (list_init f s.links)
                (list_init_other f s.head fs s.links table.ring fresh) fresh;
          counted = omega (arith, table.counted, length_snoc fs f);
        },
        rw (==_refl f) refl,
        λ g ne.
            let other : (f == g) ≡ false = ground (arith, λ (e : f ≡ g). ne (sym e)) in
            rw other refl,
      )

  set_file_same : (f : ℕ) (w : File) (s : Files D) → set_file f (s.file_at f) (set_file f w s) ≡ s
  set_file_same f w s =
      ap (λ at. record s { file_at = at })
        (fun_ext (λ a. elim (eq-cases f a) [
          | inl e ↦ (let here : (f == a) ≡ true = ground (arith, e) in rw (here, e) refl)
          | inr ne ↦ (let other : (f == a) ≡ false = ground (arith, ne) in rw other refl)
        ]))

  fileclose-counted :
      (iops : InodeOps D) (fops : FileOps D) (cache : FileCache D) (f : ℕ) (s : Files D)
      → f ≢ 0
      → positive (down ((s.file_at f).ref)) ≡ true
      → fileclose iops fops cache f s
        ≡ ok (tt, set_file f (record (s.file_at f) { ref = down ((s.file_at f).ref) }) s)
  unfolding fileclose
  fileclose-counted iops fops cache f s there more =
      let null : (f == 0) ≡ false = ground (arith, there) in rw (null, more) refl

  -- One reference more and one less leave every file as it was.
  pub filedup-fileclose :
      (iops : InodeOps D) (fops : FileOps D) (cache : FileCache D) (f : ℕ) (s : Files D)
      → f ≢ 0
      → 0 < (s.file_at f).ref
      → (s.file_at f).ref + 1 < 2 ^ 31
      → (filedup f >>= λ g. fileclose iops fops cache g) s ≡ ok (tt, s)
  unfolding filedup
  filedup-fileclose iops fops cache f s there pos_ref small =
      let null : (f == 0) ≡ false = ground (arith, there) in
      let o : File = s.file_at f in
      let s₁ : Files D = set_file f (record o { ref = up o.ref }) s in
      let read : s₁.file_at f ≡ record o { ref = up o.ref } = rw (==_refl f) refl in
      let more : positive (down (up o.ref)) ≡ true = ground arith in
      let back : down (up o.ref) ≡ o.ref = omega arith in
      rw null (
        fileclose-counted iops fops cache f s₁ there (ap (λ w. positive (down w.ref)) read ∙ more)
        ∙ ap (λ w. ok (tt, set_file f (record w { ref = down w.ref }) s₁)) read
        ∙ ap (λ r. ok (tt, set_file f (record o { ref = r }) s₁)) back
        ∙ ap (λ x. ok (tt, x)) (set_file_same f (record o { ref = up o.ref }) s))

  -- The last reference to a file is given up: what the file needs is done below, and then the table
  -- has the others, in their order.
  pub fileclose-last :
      (iops : InodeOps D) (fops : FileOps D) (cache : FileCache D) (f : ℕ) (xs ys : List ℕ)
      (s : Files D) (v1 v2 v3 : Vfs D)
      → f ≢ 0
      → (s.file_at f).ref ≡ 1
      → IsTable s (xs ++ (f ∷ ys))
      → length (xs ++ (f ∷ ys)) < 2 ^ 64
      → release_file fops ((s.file_at f).ops) ((s.file_at f).inode) f s.vfs ≡ ok (tt, v1)
      → (if (s.file_at f).inode == 0 then pure tt else iput iops ((s.file_at f).inode)) v1
        ≡ ok (tt, v2)
      → cache.cache_free f v2 ≡ ok (tt, v3)
      → (s' : Files D) × (fileclose iops fops cache f s ≡ ok (tt, s'))
        × IsTable s' (xs ++ ys)
        × (s'.vfs ≡ v3)
        × ((g : ℕ) → g ≢ f → s'.file_at g ≡ s.file_at g)
  unfolding fileclose close_file
  fileclose-last iops fops cache f xs ys s v1 v2 v3 there one table small released put freed =
      let null : (f == 0) ≡ false = ground (arith, there) in
      let self : (f == f) ≡ true = ==_refl f in
      let last : positive (down ((s.file_at f).ref)) ≡ false = ground (arith, one) in
      (
        record (set_file f (record (s.file_at f) { ref = down ((s.file_at f).ref) }) s) {
          vfs = v3;
          links = list_del f s.links;
          count = (s.count + 2 ^ 64 - 1) % 2 ^ 64;
        },
        rw (null, last, self, released, put, freed) refl,
        record {
          ring = list_del_lem f s.head xs ys s.links table.ring;
          counted = omega (arith, table.counted, length_middle xs f ys);
        },
        refl,
        λ g ne.
            let other : (f == g) ≡ false = ground (arith, λ (e : f ≡ g). ne (sym e)) in
            rw other refl,
      )

  -- Why a file is not read or written, by the test on its flags.
  abbrev pub Refused : (File → Bool) → ℕ → Files D → Type 0
  Refused allowed f s =
      (f ≡ 0)
      ⊎ ((s.file_at f).inode ≡ 0)
      ⊎ (allowed (s.file_at f) ≡ false)
      ⊎ ((s.vfs.inode ((s.file_at f).inode)).type ≡ dir)
      ⊎ ((s.vfs.inode ((s.file_at f).inode)).type ≡ symlink)

  by_type :
      (allowed : File → Bool) (f : ℕ) (s : Files D)
      → Refused allowed f s
      → ((f == 0) || ((s.file_at f).inode == 0) || not (allowed (s.file_at f))) ≡ false
      → ((s.vfs.inode ((s.file_at f).inode)).type ≡ dir)
        ⊎ ((s.vfs.inode ((s.file_at f).inode)).type ≡ symlink)
  by_type allowed f s (inl e) allows = absurd (ground (arith, e))
  by_type allowed f s (inr (inl e)) allows = absurd (ground (arith, e))
  by_type allowed f s (inr (inr (inl e))) allows = absurd (ground (arith, e))
  by_type allowed f s (inr (inr (inr h))) allows = h

  -- A file that is not open for it is neither read nor written, nor is one without an inode or of a
  -- directory or a symbolic link: the result is -1 and nothing has changed.
  pub transfer-Refused :
      (fops : FileOps D) (uart_ops f buf len : ℕ) (s : Files D)
      → (Refused readable f s → fileread fops uart_ops f buf len s ≡ ok (negsuc 0, s))
        × (Refused writable f s → filewrite fops uart_ops f buf len s ≡ ok (negsuc 0, s))
  unfolding fileread filewrite
  transfer-Refused fops uart_ops f buf len s = (
    λ h.
        elim (Bool-cases ((f == 0) || ((s.file_at f).inode == 0) || not (readable (s.file_at f)))) [
          | inl bad ↦ rw bad refl
          | inr allows ↦ elim (by_type readable f s h allows) [
            | inl e ↦ rw (allows, e) refl
            | inr e ↦ rw (allows, e) refl
          ]
        ],
    λ h.
        elim (Bool-cases ((f == 0) || ((s.file_at f).inode == 0) || not (writable (s.file_at f)))) [
          | inl bad ↦ rw bad refl
          | inr allows ↦ elim (by_type writable f s h allows) [
            | inl e ↦ rw (allows, e) refl
            | inr e ↦ rw (allows, e) refl
          ]
        ],
  )
