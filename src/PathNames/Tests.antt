-- ===== src/PathNames/Tests.antt =====
-- The theorems of paths at "//ab/c" and a buffer behind it.
use cute_core.Base.{ℕ, ◌≡◌, refl, inl, inr, false, some, [], ◌∷◌, arith, get_elem?}
use mathlib.Core.Option
use cute_core.Str.{Memory}
use cute_core.Str.Copy.{within}
use cute_core.Str.Nul.{IsString}
use cute_core.PathNames.{path_next}
use cute_core.PathNames.Segment.{IsSegment, path_next_lem}

abbrev mem : Memory
mem a = Option.get_or (get_elem? (47 ∷ 47 ∷ 97 ∷ 98 ∷ 47 ∷ 99 ∷ []) a) 0

ab_at : IsSegment mem 2 (97 ∷ 98 ∷ [])
ab_at = (refl, omega arith, omega arith, (refl, omega arith, omega arith, inl refl))

path_next_lem_example :
    (m' : Memory) × (path_next 4 2 100 mem ≡ some (some 4, m'))
    × IsString m' 100 (97 ∷ 98 ∷ [])
    × ((a : ℕ) → within 100 3 a ≡ false → m' a ≡ mem a)
path_next_lem_example =
    path_next_lem 4 2 100 mem 97 (98 ∷ []) ab_at (omega arith) (omega arith) (inr (omega arith))
