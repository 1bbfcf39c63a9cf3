-- ===== src/BlkCache/Access.antt =====
-- `bread`, work on `blk->data`, `bwrite` if it was changed, `brelse`: the sequence in which the
-- file system uses a block, and what it does to the blocks as a reader sees them.
use cute_core.Base.{
  ℕ, ◌<◌, ◌≡◌, refl, some, arith, ◌==◌, if◌then◌else◌, get_elem?, get_elem?-set_self, set, set-set,
  set_same, true, ap, ◌∙◌, sym, Cmd, Option, none, ok, fault, pure, ◌>>=◌, ◌>>◌, inl, inr,
}
use cute_core.BlkCache.{Block, Slot, Cache, bread, poke, bwrite, brelse, drop_ref}
use cute_core.BlkCache.View.{IsCoherent, Holds, content, content-held}
use cute_core.BlkCache.InPlace.{poke-bwrite, brelse_lem}
use cute_core.BlkCache.Bread.{Read, bread-returns}
use cute_core.BlkCache.Room.{room, no_room}

-- `blk->data` of a slot
unfoldable pub peek : ℕ → Cmd Cache Block
peek i c = elim (get_elem? c.slots i) [ none ↦ fault | some s ↦ ok (s.bytes, c) ]

-- `memcpy` and the like into `blk->data`, with `bwrite(blk)`
unfoldable pub write_back : ℕ → Option (Block → Block) → Cmd Cache (Unit {0})
write_back i none c = ok (tt, c)
write_back i (some f) c = ok (tt, bwrite (some i) (poke i f c))

-- `body` gives a result and perhaps a change of the data, from the data.
unfoldable pub with_block : {A : Type 0} → ℕ → (Block → A × Option (Block → Block)) → Cmd Cache A
unfolding peek write_back
with_block blk body = do
  i ← bread blk
  b ← peek i
  write_back i (body b).1
  brelse (some i)
  pure (body b).0

abbrev pub apply_to : Option (Block → Block) → Block → Block
apply_to none b = b
apply_to (some f) b = f b

pub peek-held :
    (c : Cache) (i : ℕ) (s : Slot) → get_elem? c.slots i ≡ some s → peek i c ≡ ok (s.bytes, c)
unfolding peek
peek-held c i s h = ground arith

-- What a use of block `blk` leaves, `new` being its data then: other blocks read as before, and
-- the only slot touched has its references again.
pub record Used (c : Cache) (blk : ℕ) (new : Block) (c' : Cache) : Type 0 where
  pub coherent : IsCoherent c'
  pub reads : (m : ℕ) → content c' m ≡ (if blk == m then new else content c m)
  pub place : ℕ
  pub before : Slot
  pub was : get_elem? c.slots place ≡ some before
  pub slot : Slot
  pub held : Holds c' blk place slot
  pub slots_eq : c'.slots ≡ set c.slots place slot
  pub same_refs : slot.refcnt ≡ before.refcnt
  pub kept_no : 0 < before.refcnt → (before.valid ≡ true) × (before.blk_no ≡ blk)

-- `brelse` ends the use that `bread` began, whatever was written in between.
module _ {c c₁ c₂ : Cache} (blk i : ℕ) (new : Block) (t : Slot) (r : Read c blk i c₁) where
  release :
      IsCoherent c₂
      → ((m : ℕ) → content c₂ m ≡ (if blk == m then new else content c m))
      → Holds c₂ blk i t
      → t.refcnt ≡ r.slot.refcnt
      → c₂.slots ≡ set c₁.slots i t
      → (c' : Cache) × (brelse (some i) c₂ ≡ ok (tt, c')) × Used c blk new c'
  release v reads h refs e =
      let (c', run, v', reads', slots', _) = brelse_lem v i t h.at_i (omega (arith, r.one_more)) in
      let all : c'.slots ≡ set c.slots i (drop_ref t) =
        slots'
        ∙ ap (λ l. set l i (drop_ref t)) e
        ∙ set-set c₁.slots i t (drop_ref t)
        ∙ ap (λ l. set l i (drop_ref t)) r.slots_eq
        ∙ set-set c.slots i r.slot (drop_ref t) in
      (
        c',
        run,
        record {
          coherent = v';
          reads = λ m. reads' m ∙ reads m;
          place = i;
          before = r.before;
          was = r.was;
          slot = drop_ref t;
          held = record {
            at_i = ap (λ l. get_elem? l i) all ∙ get_elem?-set_self c.slots i (drop_ref t) r.was;
            valid = h.valid;
            same_no = h.same_no;
          };
          slots_eq = all;
          same_refs = omega (arith, r.one_more);
          kept_no = r.kept_no;
        },
      )

module _ {A : Type 0} {c : Cache} (v : IsCoherent c) (blk : ℕ)
    (body : Block → A × Option (Block → Block)) where
  abbrev seen : Block
  seen = content c blk

  unchanged : (m : ℕ) → content c m ≡ (if blk == m then seen else content c m)
  unchanged m = ground arith

  finish :
      (w : Option (Block → Block)) {c₁ : Cache} (i : ℕ) (r : Read c blk i c₁)
      → (c₂ : Cache) × (c' : Cache) × (write_back i w c₁ ≡ ok (tt, c₂))
        × (brelse (some i) c₂ ≡ ok (tt, c'))
        × Used c blk (apply_to w seen) c'
  unfolding write_back
  finish none {c₁} i r =
      let (c', run, u) =
        release blk i seen r.slot r r.coherent (λ m. r.reads m ∙ unchanged m) r.held refl
          (sym (set_same c₁.slots i r.slot r.held.at_i)) in
      (c₁, c', refl, run, u)
  finish (some f) {c₁} i r =
      let (v₂, reads, h, slots) = poke-bwrite r.coherent i blk r.slot f r.held in
      let (c', run, u) =
        release blk i (f seen) (record r.slot { bytes = f r.slot.bytes; dirty = true }) r v₂
          (λ m. reads m ∙ ground (arith, r.reads blk, r.reads m)) h refl slots in
      (bwrite (some i) (poke i f c₁), c', refl, run, u)

  -- On a coherent cache with a free slot, `bread`, work on the data, `bwrite` and `brelse` in
  -- sequence return: the work is given the block as it reads, the block reads as the work made it
  -- afterwards, and every other block as before.
  pub with_block_lem :
      0 < room c.slots
      → (c' : Cache) × (with_block blk body c ≡ ok ((body seen).0, c'))
        × Used c blk (apply_to (body seen).1 seen) c'
  unfolding with_block
  with_block_lem pos = elim (bread-returns blk v) [
    | inr (_, _, full) ↦ absurd (omega (arith, no_room c.slots full))
    | inl (i, c₁, e, r) ↦
        (let shown : r.slot.bytes ≡ seen =
            sym (content-held c₁ blk r.coherent i r.slot r.held) ∙ r.reads blk in
          let (c₂, c', wrote, run, u) = finish (body seen).1 i r in
          (c', rw (e, peek-held c₁ i r.slot r.held.at_i, shown, wrote, run) refl, u))
  ]
