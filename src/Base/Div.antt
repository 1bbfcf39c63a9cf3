-- ===== src/Base/Div.antt =====
-- Division by a variable.
use Prim.Native.Nat.{ℕ, ◌+◌, ◌*◌, ◌/◌, ◌%◌, ◌<◌}
use mathlib.Core.Path.{◌≡◌}
use native.Mathlib.Omega.{arith}

module _ (off d j : ℕ) (fits : off % d + j < d) where
  pub div_same : (off + j) / d ≡ off / d
  div_same = grind arith

  pub mod_same : (off + j) % d ≡ off % d + j
  mod_same = grind arith

pub div-lt : (off d k : ℕ) → off < k * d → off / d < k
div-lt off d k h = grind arith

pub mod_lt : (a d : ℕ) → 0 < d → a % d < d
mod_lt a d h = grind arith
