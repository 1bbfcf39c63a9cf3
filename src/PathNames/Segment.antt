-- ===== src/PathNames/Segment.antt =====
-- `path_next` takes the first component of a path.
use cute_core.Base.{
  ℕ, zero, suc, ◌+◌, ◌-◌, ◌≤◌, ◌<◌, ◌≡◌, ◌≢◌, ◌⊎◌, refl, sym, ap, ◌∙◌, true, false, ◌||◌, some,
  List, [], ◌∷◌, arith, ◌==◌, length,
}
use cute_core.Str.{Memory}
use cute_core.Str.Copy.{within, memcpy_lem}
use cute_core.Str.Nul.{IsString}
use cute_core.PathNames.{max_path_len, slash, find_end, clip_len, copy_name, path_next, skipslash}

-- The characters `xs`, none of them a slash or a NUL, lie from `p` on, with one of these behind them.
abbrev pub IsSegment : Memory → ℕ → List ℕ → Type 0
IsSegment m p [] = (m p ≡ slash) ⊎ (m p ≡ 0)
IsSegment m p (x ∷ xs) = (m p ≡ x) × (x ≢ slash) × (x ≢ 0) × IsSegment m (p + 1) xs

find_end_lem :
    (fuel p : ℕ) (m : Memory) (xs : List ℕ)
    → IsSegment m p xs
    → length xs < fuel
    → find_end fuel p m ≡ some (p + length xs)
unfolding find_end
find_end_lem zero p m xs s h = absurd (omega arith)
find_end_lem (suc fuel) p m [] s h = ground arith
find_end_lem (suc fuel) p m (x ∷ xs) s h =
    let rest = find_end_lem fuel (p + 1) m xs s.3 (omega arith) in
    let on : ((m p == slash) || (m p == 0)) ≡ false = ground (arith, s.0, s.1, s.2) in
    let same : p + 1 + length xs ≡ p + suc (length xs) = omega arith in rw (on, rest, same) refl

-- a copy of the characters, with a NUL behind it, is the string
copied-IsString :
    (m m' : Memory) (p d : ℕ) (xs : List ℕ)
    → IsSegment m p xs
    → ((i : ℕ) → i < length xs → m' (d + i) ≡ m (p + i))
    → m' (d + length xs) ≡ 0
    → IsString m' d xs
copied-IsString m m' p d [] s same end = ap m' (omega arith) ∙ end
copied-IsString m m' p d (x ∷ xs) s same end = (
  first,
  s.2,
  copied-IsString m m' (p + 1) (d + 1) xs s.3
      (λ i h. ap m' (omega arith) ∙ same (suc i) (omega arith) ∙ ap m (omega arith))
      (ap m' (omega arith) ∙ end),
)
  where
    first : m' d ≡ x
    first = ap m' (omega arith) ∙ same 0 (omega arith) ∙ ap m (omega arith) ∙ s.0

module _ (name path n : ℕ) (m : Memory) where
  copy_name_in :
      (i : ℕ)
      → i < n
      → (name ≤ path) ⊎ (path + n ≤ name)
      → copy_name name path n m (name + i) ≡ m (path + i)
  copy_name_in i h apart =
      let not_end : (name + n == name + i) ≡ false = ground arith in
      let here : within name n (name + i) ≡ true = ground arith in
      let same : path + (name + i - name) ≡ path + i = omega arith in
      rw not_end (memcpy_lem name path n m (name + i) apart ∙ rw (here, same) refl)

  copy_name_end : copy_name name path n m (name + n) ≡ 0
  copy_name_end = let at_end : (name + n == name + n) ≡ true = ground arith in rw at_end refl

  copy_name_out :
      (a : ℕ)
      → within name (n + 1) a ≡ false
      → (name ≤ path) ⊎ (path + n ≤ name)
      → copy_name name path n m a ≡ m a
  copy_name_out a out apart =
      let not_end : (name + n == a) ≡ false = ground arith in
      let there : within name n a ≡ false = ground arith in
      rw not_end (memcpy_lem name path n m a apart ∙ rw there refl)

-- `path_next` of a path that begins with a component shorter than MAXPATHLEN, and with more fuel
-- than it has characters, returns the pointer behind the component, with the component as a string
-- in the buffer and no byte outside that string changed, if the buffer does not overlap it.
pub path_next_lem :
    (fuel path name : ℕ) (m : Memory) (x : ℕ) (xs : List ℕ)
    → IsSegment m path (x ∷ xs)
    → length (x ∷ xs) < max_path_len
    → length (x ∷ xs) < fuel
    → (name + length (x ∷ xs) < path) ⊎ (path + length (x ∷ xs) ≤ name)
    → (m' : Memory) × (path_next fuel path name m ≡ some (some (path + length (x ∷ xs)), m'))
      × IsString m' name (x ∷ xs)
      × ((a : ℕ) → within name (length (x ∷ xs) + 1) a ≡ false → m' a ≡ m a)
unfolding path_next
path_next_lem fuel path name m x xs s short enough apart =
    let n = length (x ∷ xs) in
    let starts : (m path == 0) ≡ false = ground (arith, s.0, s.2) in
    let kept : clip_len (path + n - path) ≡ n = ground arith in
    (
      copy_name name path n m,
      rw (starts, find_end_lem fuel path m (x ∷ xs) s enough, kept) refl,
      copied-IsString m _ path name (x ∷ xs) s (λ i h. copy_name_in name path n m i h (omega arith))
          (copy_name_end name path n m),
      λ a out. copy_name_out name path n m a out (omega arith),
    )

-- `skipslash` skips exactly the slashes at the beginning, with more fuel than there are.
pub skipslash_lem :
    (fuel path k : ℕ) (m : Memory)
    → ((i : ℕ) → i < k → m (path + i) ≡ slash)
    → m (path + k) ≢ slash
    → k < fuel
    → skipslash fuel path m ≡ some (path + k)
unfolding skipslash
skipslash_lem zero path k m all stop h = absurd (omega arith)
skipslash_lem (suc fuel) path zero m all stop h =
    let same : path + 0 ≡ path = omega arith in
    let other : (m path == slash) ≡ false = ground (arith, ap m same) in rw (other, same) refl
skipslash_lem (suc fuel) path (suc k) m all stop h =
    let here : (m path == slash) ≡ true =
      ground (arith, ap m (first_at path) ∙ all 0 (omega arith)) in
    let same : path + 1 + k ≡ path + suc k = omega arith in
    let rest =
      skipslash_lem fuel (path + 1) k m (λ i lt. ap m (next_at path i) ∙ all (suc i) (omega arith))
        (λ e. stop (ap m (sym same) ∙ e)) (omega arith) in
    rw (here, rest, same) refl
  where
    first_at : (p : ℕ) → p ≡ p + 0
    first_at p = omega arith

    next_at : (p i : ℕ) → p + 1 + i ≡ p + suc i
    next_at p i = omega arith
