-- ===== src/BlkCache/Room.antt =====
-- How many slots have no reference: what `bread` needs to replace a block.
use cute_core.Base.{
  ℕ, zero, suc, ◌+◌, ◌<◌, ◌≡◌, refl, some, List, [], ◌∷◌, arith, if◌then◌else◌, get_elem?, set,
}
use cute_core.BlkCache.{Slot, is_free}

abbrev weight : Slot → ℕ
weight s = if is_free s then 1 else 0

-- the number of free slots
unfoldable pub room : List Slot → ℕ
room [] = 0
room (s ∷ ss) = weight s + room ss

pub room-set :
    (ss : List Slot) (i : ℕ) (t : Slot) {s : Slot}
    → get_elem? ss i ≡ some s
    → room (set ss i t) + weight s ≡ room ss + weight t
unfolding room
room-set [] i t h = ground arith
room-set (x ∷ ss) zero t h = ground arith
room-set (x ∷ ss) (suc i) t h = omega (arith, room-set ss i t h)

pub no_room :
    (ss : List Slot) → ((j : ℕ) (u : Slot) → get_elem? ss j ≡ some u → 0 < u.refcnt) → room ss ≡ 0
unfolding room
no_room [] h = refl
no_room (x ∷ ss) h = ground (arith, h 0 x refl, no_room ss (λ j u. h (suc j) u))
