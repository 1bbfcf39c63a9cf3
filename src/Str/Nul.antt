-- ===== src/Str/Nul.antt =====
-- `strlen`, `strcmp`, `strcpy` and `strcat` on NUL-terminated strings.
use cute_core.Base.{
  ℕ, zero, suc, ◌+◌, ◌<◌, ◌≤◌, ◌≡◌, ◌↔◌, ◌≢◌, ◌⊎◌, inl, inr, refl, ◌∙◌, false, some, List, [], ◌∷◌,
  ◌++◌, arith, ◌==◌, length, Bool-cases,
}
use cute_core.Base.Int.{ℤ, pos, sub_ℕ}
use cute_core.Str.{Memory, store, strcmp, copy_string, strcpy, find_nul, strlen, strcat}
use cute_core.Str.Copy.{within}

-- The characters `xs`, none of them NUL, lie from `p` on with a NUL behind them.
abbrev pub IsString : Memory → ℕ → List ℕ → Type 0
IsString m p [] = m p ≡ 0
IsString m p (x ∷ xs) = (m p ≡ x) × (x ≢ 0) × IsString m (p + 1) xs

find_nul_lem :
    (fuel p : ℕ) (m : Memory) (xs : List ℕ)
    → IsString m p xs
    → length xs < fuel
    → find_nul fuel p m ≡ some (p + length xs)
unfolding find_nul
find_nul_lem zero p m xs s h = absurd (omega arith)
find_nul_lem (suc fuel) p m [] s h = ground arith
find_nul_lem (suc fuel) p m (x ∷ xs) s h = ground (arith, find_nul_lem fuel (p + 1) m xs s.2)

-- `strlen` of a string returns the number of its characters, with more fuel than that.
pub strlen-length :
    (fuel p : ℕ) (m : Memory) (xs : List ℕ)
    → IsString m p xs
    → length xs < fuel
    → strlen fuel p m ≡ some (length xs)
unfolding strlen
strlen-length fuel p m xs s h = ground (arith, find_nul_lem fuel p m xs s h)

-- `strcmp` of two strings, with more fuel than the first has characters, returns, and it returns 0
-- exactly if they are equal.
pub strcmp-zero :
    (fuel p q : ℕ) (m : Memory) (xs ys : List ℕ)
    → IsString m p xs
    → IsString m q ys
    → length xs < fuel
    → (z : ℤ) × (strcmp fuel p q m ≡ some z) × ((z ≡ pos 0) ↔ (xs ≡ ys))
unfolding strcmp
strcmp-zero zero p q m xs ys s t h = absurd (omega arith)
strcmp-zero (suc fuel) p q m [] [] s t h = (pos 0, ground arith, (λ _. refl, λ _. refl))
strcmp-zero (suc fuel) p q m [] (y ∷ ys) s t h =
    (sub_ℕ (m p) (m q), ground arith, (λ e. ground arith, λ e. cc))
strcmp-zero (suc fuel) p q m (x ∷ xs) [] s t h =
    (sub_ℕ (m p) (m q), ground arith, (λ e. ground arith, λ e. cc))
strcmp-zero (suc fuel) p q m (x ∷ xs) (y ∷ ys) s t h = elim (Bool-cases (x == y)) [
  | inl e ↦
      (let (z, run, zero_iff) = strcmp-zero fuel (p + 1) (q + 1) m xs ys s.2 t.2 (omega arith) in
        (z, ground arith, (λ ez. ground (arith, zero_iff.0 ez), λ el. zero_iff.1 (ground arith))))
  | inr e ↦ (sub_ℕ (m p) (m q), ground arith, (λ ez. ground arith, λ el. absurd (ground arith)))
]

-- Where a string is copied: to a place at or below it, or behind it.
abbrev pub Apart : ℕ → ℕ → List ℕ → Type 0
Apart d s xs = (d ≤ s) ⊎ (s + length xs < d)

IsString-ext :
    (p : ℕ) (m m' : Memory) (xs : List ℕ)
    → ((a : ℕ) → p ≤ a → a < p + length xs + 1 → m' a ≡ m a)
    → IsString m p xs
    → IsString m' p xs
IsString-ext p m m' [] same s = same p (omega arith) (omega arith) ∙ s
IsString-ext p m m' (x ∷ xs) same s = (
  same p (omega arith) (omega arith) ∙ s.0,
  s.1,
  IsString-ext (p + 1) m m' xs (λ a lo hi. same a (omega arith) (omega arith)) s.2,
)

copy_string_lem :
    (fuel d s : ℕ) (m : Memory) (xs : List ℕ)
    → IsString m s xs
    → Apart d s xs
    → length xs < fuel
    → (m' : Memory) × (copy_string fuel d s m ≡ some m')
      × IsString m' d xs
      × ((a : ℕ) → within d (length xs + 1) a ≡ false → m' a ≡ m a)
unfolding copy_string
copy_string_lem zero d s m xs h apart fuel_ok = absurd (omega arith)
copy_string_lem (suc fuel) d s m [] h apart fuel_ok =
    (store m d (m s), ground arith, ground arith, λ a. ground arith)
copy_string_lem (suc fuel) d s m (x ∷ xs) h apart fuel_ok =
    let m₁ : Memory = store m d (m s) in
    let (m', run, t, others) =
      copy_string_lem fuel (d + 1) (s + 1) m₁ xs
        (IsString-ext (s + 1) m m₁ xs (λ a lo hi. ground arith) h.2) (ground arith) (omega arith) in
    (m', ground arith, (ground (arith, others d), h.1, t), λ a. ground (arith, others a))

-- `strcpy` of a string to a place at or below it, or behind it, with more fuel than it has
-- characters, returns with the string at that place and no byte outside the place changed.
pub strcpy_lem :
    (fuel dest src : ℕ) (m : Memory) (xs : List ℕ)
    → IsString m src xs
    → Apart dest src xs
    → length xs < fuel
    → (m' : Memory) × (strcpy fuel dest src m ≡ some m')
      × IsString m' dest xs
      × ((a : ℕ) → within dest (length xs + 1) a ≡ false → m' a ≡ m a)
unfolding strcpy
strcpy_lem fuel dest src m xs = copy_string_lem fuel dest src m xs

IsString-append :
    (p : ℕ) (m : Memory) (xs ys : List ℕ) (z : ℕ)
    → IsString m p xs
    → z ≡ p + length xs
    → (m' : Memory) → ((a : ℕ) → a < z → m' a ≡ m a)
    → IsString m' z ys
    → IsString m' p (xs ++ ys)
IsString-append p m [] ys z s e m' same t = let e' : z ≡ p = omega arith in rw e' at t
IsString-append p m (x ∷ xs) ys z s e m' same t =
    (same p (omega arith) ∙ s.0, s.1, IsString-append (p + 1) m xs ys z s.2 (omega arith) m' same t)

-- `strcat` of two strings, with more fuel than either has characters, returns and leaves the first
-- string followed by the second, if the second lies outside the place
-- that the result takes, and changes no byte outside that place.
pub strcat-append :
    (fuel s1 s2 : ℕ) (m : Memory) (xs ys : List ℕ)
    → IsString m s1 xs
    → IsString m s2 ys
    → (s1 + length xs + length ys < s2) ⊎ (s2 + length ys < s1)
    → length xs < fuel
    → length ys < fuel
    → (m' : Memory) × (strcat fuel s1 s2 m ≡ some m')
      × IsString m' s1 (xs ++ ys)
      × ((a : ℕ) → within s1 (length xs + length ys + 1) a ≡ false → m' a ≡ m a)
unfolding strcat
strcat-append fuel s1 s2 m xs ys s t apart f1 f2 =
    let stop = find_nul_lem fuel s1 m xs s f1 in
    let (m', run, u, others) = copy_string_lem fuel (s1 + length xs) s2 m ys t (ground arith) f2 in
    (
      m',
      ground arith,
      IsString-append s1 m xs ys (s1 + length xs) s refl m' (λ a h. ground (arith, others a)) u,
      λ a h. ground (arith, others a),
    )
