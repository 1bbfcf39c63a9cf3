-- ===== src/Ext2/Dir/Fuel.antt =====
-- The size of the block is enough fuel for the searches of its entries.
use cute_core.Base.{
  ℕ, zero, suc, ◌+◌, ◌≤◌, ◌≡◌, refl, arith, false, leb, ◌==◌, Bool-cases, inl, inr,
}
use cute_core.Base.Words.{Bytes}
use cute_core.Ext2.Dir.{entry_size, rec_len, find_entry}

-- The search for a name gives the same with every two amounts of fuel that reach the end of the
-- block, of which the size of the block is one.
pub find_entry_fuel :
    (n m block_size : ℕ) (name : Bytes) (namelen : ℕ) (b : Bytes) (pos : ℕ)
    → block_size ≤ pos + n
    → block_size ≤ pos + m
    → find_entry n block_size name namelen b pos ≡ find_entry m block_size name namelen b pos
unfolding find_entry
find_entry_fuel zero zero block_size name namelen b pos h h' = refl
find_entry_fuel zero (suc m) block_size name namelen b pos h h' =
    let out : leb (pos + entry_size) block_size ≡ false = ground arith in rw out refl
find_entry_fuel (suc n) zero block_size name namelen b pos h h' =
    let out : leb (pos + entry_size) block_size ≡ false = ground arith in rw out refl
find_entry_fuel (suc n) (suc m) block_size name namelen b pos h h' =
    elim (Bool-cases (rec_len b pos == 0)) [
      | inl stop ↦ rw stop refl
      | inr more ↦
          (let rest =
              find_entry_fuel n m block_size name namelen b (pos + rec_len b pos) (ground arith)
                (ground arith) in
            rw rest refl)
    ]
