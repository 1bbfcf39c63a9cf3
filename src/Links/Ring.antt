-- ===== src/Links/Ring.antt =====
-- What the operations of list.h do to the nodes of a ring.
use cute_core.Base.{ℕ, ◌≡◌, ◌≢◌, ◌∙◌, sym, ap, List, [], ◌∷◌, ◌++◌}
use cute_core.Links.{Links}

-- Following `next` from `a`, through `xs`, one comes to `b`, and back by `prev`.
abbrev pub Chain : Links → ℕ → List ℕ → ℕ → Type 0
Chain l a [] b = (l.next a ≡ b) × (l.prev b ≡ a)
Chain l a (x ∷ xs) b = (l.next a ≡ x) × (l.prev x ≡ a) × Chain l x xs b

abbrev pub NotIn : ℕ → List ℕ → Type 0
NotIn a [] = Unit
NotIn a (x ∷ xs) = (a ≢ x) × NotIn a xs

abbrev pub Distinct : List ℕ → Type 0
Distinct [] = Unit
Distinct (x ∷ xs) = NotIn x xs × Distinct xs

-- The ring of `head`: the nodes `xs`, all different, in this order.
abbrev pub IsRing : Links → ℕ → List ℕ → Type 0
IsRing l head xs = Chain l head xs head × NotIn head xs × Distinct xs

pub NotIn-append_left : (a : ℕ) (xs ys : List ℕ) → NotIn a (xs ++ ys) → NotIn a xs
NotIn-append_left a [] ys h = tt
NotIn-append_left a (x ∷ xs) ys h = (h.0, NotIn-append_left a xs ys h.1)

pub NotIn-append_right : (a : ℕ) (xs ys : List ℕ) → NotIn a (xs ++ ys) → NotIn a ys
NotIn-append_right a [] ys h = h
NotIn-append_right a (x ∷ xs) ys h = NotIn-append_right a xs ys h.1

pub NotIn-append : (a : ℕ) (xs ys : List ℕ) → NotIn a xs → NotIn a ys → NotIn a (xs ++ ys)
NotIn-append a [] ys h h' = h'
NotIn-append a (x ∷ xs) ys h h' = (h.0, NotIn-append a xs ys h.1 h')

pub Distinct-append_left : (xs ys : List ℕ) → Distinct (xs ++ ys) → Distinct xs
Distinct-append_left [] ys h = tt
Distinct-append_left (x ∷ xs) ys h = (NotIn-append_left x xs ys h.0, Distinct-append_left xs ys h.1)

-- A node in the middle is in neither part.
pub Distinct-middle :
    (xs : List ℕ) (y : ℕ) (ys : List ℕ)
    → Distinct (xs ++ (y ∷ ys))
    → NotIn y xs × NotIn y ys × Distinct (xs ++ ys)
Distinct-middle [] y ys h = (tt, h.0, h.1)
Distinct-middle (x ∷ xs) y ys h =
    let (no_xs, no_ys, rest) = Distinct-middle xs y ys h.1 in
    let away = NotIn-append_right x xs (y ∷ ys) h.0 in
    (
      (λ e. away.0 (sym e), no_xs),
      no_ys,
      (NotIn-append x xs ys (NotIn-append_left x xs (y ∷ ys) h.0) away.1, rest),
    )

pub Distinct-snoc : (xs : List ℕ) (y : ℕ) → Distinct xs → NotIn y xs → Distinct (xs ++ (y ∷ []))
Distinct-snoc [] y h away = (tt, tt)
Distinct-snoc (x ∷ xs) y h away =
    (NotIn-append x xs (y ∷ []) h.0 (λ e. away.0 (sym e), tt), Distinct-snoc xs y h.1 away.1)

pub Chain-split :
    (l : Links) (a : ℕ) (xs : List ℕ) (y : ℕ) (ys : List ℕ) (b : ℕ)
    → Chain l a (xs ++ (y ∷ ys)) b
    → Chain l a xs y × Chain l y ys b
Chain-split l a [] y ys b h = ((h.0, h.1), h.2)
Chain-split l a (x ∷ xs) y ys b h =
    let (left, right) = Chain-split l x xs y ys b h.2 in ((h.0, h.1, left), right)

pub Chain-join :
    (l : Links) (a : ℕ) (xs : List ℕ) (y : ℕ) (ys : List ℕ) (b : ℕ)
    → Chain l a xs y
    → Chain l y ys b
    → Chain l a (xs ++ (y ∷ ys)) b
Chain-join l a [] y ys b h h' = (h.0, h.1, h')
Chain-join l a (x ∷ xs) y ys b h h' = (h.0, h.1, Chain-join l x xs y ys b h.2 h')

-- The last node before `b` is none of `zs`.
pub last-NotIn :
    (l : Links) (a : ℕ) (xs : List ℕ) (b : ℕ) (zs : List ℕ)
    → Chain l a xs b
    → NotIn a zs
    → Distinct (xs ++ zs)
    → NotIn (l.prev b) zs
last-NotIn l a [] b zs h away apart = rw (h.1) away
last-NotIn l a (x ∷ xs) b zs h away apart =
    last-NotIn l x xs b zs h.2 (NotIn-append_right x xs zs apart.0) apart.1

last-ne :
    (l : Links) (a x : ℕ) (xs : List ℕ) (b : ℕ) → Chain l x xs b → NotIn a (x ∷ xs) → a ≢ l.prev b
last-ne l a x [] b h away e = away.0 (e ∙ h.1)
last-ne l a x (y ∷ xs) b h away e = last-ne l a y xs b h.2 away.1 e

-- Another ring, where `next` differs at `p` and `node` only, and `prev` at `q` and `node` only.
module _ (l l' : Links) (p q node : ℕ)
    (same_next : (c : ℕ) → c ≢ p → c ≢ node → l'.next c ≡ l.next c)
    (same_prev : (c : ℕ) → c ≢ q → c ≢ node → l'.prev c ≡ l.prev c) where
  pub Chain-frame :
      (a : ℕ) (xs : List ℕ) (b : ℕ)
      → Chain l a xs b
      → NotIn p (a ∷ xs)
      → NotIn node (a ∷ xs)
      → NotIn q (xs ++ (b ∷ []))
      → NotIn node (xs ++ (b ∷ []))
      → Chain l' a xs b
  Chain-frame a [] b h no_p no_node no_q no_node' = (
    same_next a (λ e. no_p.0 (sym e)) (λ e. no_node.0 (sym e)) ∙ h.0,
    same_prev b (λ e. no_q.0 (sym e)) (λ e. no_node'.0 (sym e)) ∙ h.1,
  )
  Chain-frame a (x ∷ xs) b h no_p no_node no_q no_node' = (
    same_next a (λ e. no_p.0 (sym e)) (λ e. no_node.0 (sym e)) ∙ h.0,
    same_prev x (λ e. no_q.0 (sym e)) (λ e. no_node'.0 (sym e)) ∙ h.1,
    Chain-frame x xs b h.2 no_p.1 no_node.1 no_q.1 no_node'.1,
  )

  -- The last node before `b` leads to `c` now.
  pub relink_end :
      (a : ℕ) (xs : List ℕ) (b c : ℕ)
      → Chain l a xs b
      → p ≡ l.prev b
      → l'.next p ≡ c
      → l'.prev c ≡ p
      → Distinct (a ∷ xs)
      → NotIn node (a ∷ xs)
      → NotIn q xs
      → Chain l' a xs c
  relink_end a [] b c h at_p to from apart no_node no_q =
      let start : p ≡ a = at_p ∙ h.1 in (ap l'.next (sym start) ∙ to, from ∙ start)
  relink_end a (x ∷ xs) b c h at_p to from apart no_node no_q =
      let other : a ≢ p = λ e. last-ne l a x xs b h.2 apart.0 (e ∙ at_p) in
      (
        same_next a other (λ e. no_node.0 (sym e)) ∙ h.0,
        same_prev x (λ e. no_q.0 (sym e)) (λ e. no_node.1.0 (sym e)) ∙ h.1,
        relink_end x xs b c h.2 at_p to from apart.1 no_node.1 no_q.1,
      )
