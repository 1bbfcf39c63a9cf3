-- ===== src/Pids/Tests.antt =====
-- The theorems at small bitmaps of process ids.
use cute_core.Base.{ℕ, ◌≤◌, ◌<◌, ◌≡◌, ◌⊎◌, refl, ap, suc, some, arith, true, false, ◌||◌, ◌==◌}
use cute_core.Base.Int.{pos, negsuc}
use cute_core.Ext2.Bitmap.{bit_at}
use cute_core.Ext2.Bitmap
use cute_core.Base.Bytes
use cute_core.Pids.{Pids, taken, max_pid, reserved_pid, search_pid, allocpid, release_pid}
use cute_core.Pids.Allocation.{allocpid_lem, allocpid-release_pid}

abbrev fresh : Pids
fresh = record { bitmap = λ _. 0; last_pid = 0 }

abbrev first : Pids
first = record { bitmap = Bitmap.set_bit 1 (λ _. 0); last_pid = 1 }

allocpid_lem_example :
    ((allocpid fresh ≡ (negsuc 0, fresh))
      × ((q : ℕ) → reserved_pid ≤ q → q < max_pid → bit_at (λ _. 0) q ≡ true))
    ⊎ ((q : ℕ) × (s' : Pids) × (allocpid fresh ≡ (pos q, s'))
        × (0 < q)
        × (q < max_pid)
        × (bit_at (λ _. 0) q ≡ false)
        × (s'.last_pid ≡ q)
        × ((p : ℕ) → bit_at s'.bitmap p ≡ ((q == p) || bit_at (λ _. 0) p)))
allocpid_lem_example = allocpid_lem fresh (omega arith) (λ i. omega arith)

finds_one : (n : ℕ) → search_pid (suc n) 0 (λ _. 0) ≡ some 1
unfolding search_pid bit_at Bytes.bit_test
finds_one n = refl

first_is_one : allocpid fresh ≡ (pos 1, first)
unfolding allocpid
first_is_one = ap (taken fresh) (finds_one 32767)

-- The first process keeps its id.
allocpid-release_pid_example :
    ((300 < 1) → (p : ℕ) → bit_at (release_pid 1 first).bitmap p ≡ bit_at (λ _. 0) p)
    × ((1 ≤ 300) → bit_at (release_pid 1 first).bitmap 1 ≡ true)
allocpid-release_pid_example =
    allocpid-release_pid fresh (omega arith) (λ i. omega arith) 1 first first_is_one
