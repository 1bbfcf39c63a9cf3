-- ===== src/Pids/Allocation.antt =====
-- Which id `allocpid` gives, and what becomes of it when it is given back.
use cute_core.Base.{
  ℕ, zero, suc, ◌+◌, ◌-◌, ◌/◌, ◌≤◌, ◌<◌, ◌≡◌, ◌⊎◌, refl, sym, ap, ◌∙◌, arith, true, false, ◌||◌,
  none, some, ltb, leb, ◌==◌, Bool-cases, Option-cases, inl, inr,
}
use cute_core.Base.Int.{ℤ, pos, negsuc}
use cute_core.Base.Words.{Bytes}
use cute_core.Ext2.Bitmap.{bit_at, set_bit}
use cute_core.Ext2.Bitmap.Bits.{bit_at-set_bit, bit_at-clear_bit, set_bit-lt}
use cute_core.Pids.{Pids, max_pid, reserved_pid, next_pid, search_pid, taken, allocpid, release_pid}

module _ (b : Bytes) where
  -- what is found is clear, and an id
  found_lem :
      (n pid q : ℕ) → search_pid n pid b ≡ some q → (bit_at b q ≡ false) × (0 < q) × (q < max_pid)
  unfolding search_pid
  found_lem zero pid q e = absurd (ground arith)
  found_lem (suc n) pid q e = elim (Bool-cases (bit_at b (next_pid pid))) [
    | inl used ↦ found_lem n (next_pid pid) q (rw used at e)
    | inr clear ↦
        (let same : next_pid pid ≡ q = ground arith in
          rw (← same) (clear, ground arith, ground arith))
  ]

  -- The ids that follow are in use, if nothing is found.
  ahead_lem :
      (n pid : ℕ)
      → search_pid n pid b ≡ none
      → (q : ℕ) → pid < q
      → q ≤ pid + n
      → q < max_pid
      → bit_at b q ≡ true
  unfolding search_pid
  ahead_lem zero pid e q lo hi lt = absurd (omega arith)
  ahead_lem (suc n) pid e q lo hi lt = elim (Bool-cases (bit_at b (next_pid pid))) [
    | inr clear ↦ absurd (ground arith)
    | inl used ↦
        (let is_next : next_pid pid ≡ pid + 1 = ground arith in
          elim (Bool-cases (pid + 1 == q)) [
            | inl here ↦ (let same : q ≡ next_pid pid = ground arith in rw same used)
            | inr later ↦
                ahead_lem n (next_pid pid) (rw used at e) q (ground arith) (ground arith) lt
          ])
  ]

  -- and so are those from the reserved ones on, after the search has come round
  round_lem :
      (n pid : ℕ)
      → pid < max_pid
      → search_pid n pid b ≡ none
      → (q : ℕ) → reserved_pid ≤ q
      → q ≤ pid
      → max_pid - pid + (q - reserved_pid) ≤ n
      → bit_at b q ≡ true
  unfolding search_pid
  round_lem zero pid lt e q lo hi enough = absurd (omega arith)
  round_lem (suc n) pid lt e q lo hi enough = elim (Bool-cases (bit_at b (next_pid pid))) [
    | inr clear ↦ absurd (ground arith)
    | inl used ↦ elim (Bool-cases (leb max_pid (pid + 1))) [
      | inl wraps ↦
          (let first : next_pid pid ≡ reserved_pid = ground arith in
            elim (Bool-cases (reserved_pid == q)) [
              | inl here ↦ (let same : q ≡ next_pid pid = ground arith in rw same used)
              | inr later ↦
                  ahead_lem n (next_pid pid) (rw used at e) q (ground arith) (ground arith)
                    (ground arith)
            ])
      | inr goes_on ↦
          (let is_next : next_pid pid ≡ pid + 1 = ground arith in
            round_lem n (next_pid pid) (ground arith) (rw used at e) q lo (ground arith)
              (ground arith))
    ]
  ]

module _ (s : Pids) (in_range : s.last_pid < max_pid) (bytes : (i : ℕ) → s.bitmap i < 256) where
  none_free :
      search_pid max_pid s.last_pid s.bitmap ≡ none
      → (q : ℕ) → reserved_pid ≤ q
      → q < max_pid
      → bit_at s.bitmap q ≡ true
  none_free e q lo hi = elim (Bool-cases (ltb s.last_pid q)) [
    | inl ahead ↦ ahead_lem s.bitmap max_pid s.last_pid e q (ground arith) (omega arith) hi
    | inr behind ↦
        round_lem s.bitmap max_pid s.last_pid in_range e q lo (ground arith) (ground arith)
  ]

  -- `allocpid` returns -1, changes nothing and every id from the reserved ones on is in use; or it
  -- returns an id in range that was free, which is then in use and the last one, no other id changing.
  pub allocpid_lem :
      ((allocpid s ≡ (negsuc 0, s))
        × ((q : ℕ) → reserved_pid ≤ q → q < max_pid → bit_at s.bitmap q ≡ true))
      ⊎ ((q : ℕ) × (s' : Pids) × (allocpid s ≡ (pos q, s'))
          × (0 < q)
          × (q < max_pid)
          × (bit_at s.bitmap q ≡ false)
          × (s'.last_pid ≡ q)
          × ((p : ℕ) → bit_at s'.bitmap p ≡ ((q == p) || bit_at s.bitmap p)))
  unfolding allocpid
  allocpid_lem = elim (Option-cases (search_pid max_pid s.last_pid s.bitmap)) [
    | inl full ↦ inl (ap (taken s) full, none_free full)
    | inr (q, e) ↦
        (let (clear, pos_q, lt) = found_lem s.bitmap max_pid s.last_pid q e in
          inr (
            q,
            _,
            ap (taken s) e,
            pos_q,
            lt,
            clear,
            refl,
            λ p. bit_at-set_bit q s.bitmap (bytes (q / 8)) p,
          ))
  ]

  got :
      (q : ℕ) (s' : Pids)
      → allocpid s ≡ (pos q, s')
      → (bit_at s.bitmap q ≡ false) × (s'.bitmap ≡ set_bit q s.bitmap)
  unfolding allocpid
  got q s' run = elim (Option-cases (search_pid max_pid s.last_pid s.bitmap)) [
    | inl full ↦ absurd (not_negative (ap (λ x. x.0) (sym (ap (taken s) full) ∙ run)))
    | inr (r, e) ↦
        (let h : taken s (some r) ≡ (pos q, s') = sym (ap (taken s) e) ∙ run in
          let same : r ≡ q = ap (λ x. magnitude x.0) h in
          (
            rw (← same) (found_lem s.bitmap max_pid s.last_pid r e).0,
            sym (ap (λ x. x.1.bitmap) h) ∙ ap (λ n. set_bit n s.bitmap) same,
          ))
  ]
    where
      magnitude : ℤ → ℕ
      magnitude (pos n) = n
      magnitude (negsuc n) = 0

      not_negative : negsuc 0 ≡ pos q → ⊥
      not_negative h = ground arith

  -- An id that was allocated and is given back is free again, and all ids are as before, if it is
  -- above the reserved ones; any other, among them the first that is taken after a wrap-around,
  -- stays in use.
  pub allocpid-release_pid :
      (q : ℕ) (s' : Pids)
      → allocpid s ≡ (pos q, s')
      → ((reserved_pid < q) → (p : ℕ) → bit_at (release_pid q s').bitmap p ≡ bit_at s.bitmap p)
        × ((q ≤ reserved_pid) → bit_at (release_pid q s').bitmap q ≡ true)
  unfolding release_pid
  allocpid-release_pid q s' run = (above, below)
    where
      marked : (p : ℕ) → bit_at s'.bitmap p ≡ ((q == p) || bit_at s.bitmap p)
      marked p =
          ap (λ (b : Bytes). bit_at b p) (got q s' run).1
          ∙ bit_at-set_bit q s.bitmap (bytes (q / 8)) p

      is_byte : s'.bitmap (q / 8) < 256
      is_byte = rw (got q s' run).1 (set_bit-lt q s.bitmap (bytes (q / 8)) (q / 8) (bytes (q / 8)))

      was_clear : bit_at s.bitmap q ≡ false
      was_clear = (got q s' run).0

      above : reserved_pid < q → (p : ℕ) → bit_at (release_pid q s').bitmap p ≡ bit_at s.bitmap p
      above h p =
          let over : ltb reserved_pid q ≡ true = ground arith in
          rw over (bit_at-clear_bit q s'.bitmap is_byte p ∙ ground (arith, marked p, was_clear))

      below : q ≤ reserved_pid → bit_at (release_pid q s').bitmap q ≡ true
      below h =
          let under : ltb reserved_pid q ≡ false = ground arith in
          rw under (ground (arith, marked q))
