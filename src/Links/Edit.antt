-- ===== src/Links/Edit.antt =====
-- A node is put into a ring, and taken out of it.
use cute_core.Base.{
  ℕ, ◌≡◌, ◌≢◌, refl, ◌∙◌, sym, true, List, [], ◌∷◌, ◌++◌, arith, ◌==◌, if◌then◌else◌, ==_refl,
  append_nil,
}
use cute_core.Links.{Links, list_init, list_add, list_add_tail, list_del, list_empty}
use cute_core.Links.Ring.{
  Chain, NotIn, IsRing, NotIn-append_left, NotIn-append_right, NotIn-append, Distinct-append_left,
  Distinct-middle, Distinct-snoc, Chain-split, Chain-join, last-NotIn, Chain-frame, relink_end,
}

-- `list_init` makes a ring without nodes, `list_empty` is true of it, and of no other ring.
pub list_init-IsRing :
    (head : ℕ) (l : Links)
    → IsRing (list_init head l) head [] × (list_empty head (list_init head l) ≡ true)
unfolding list_init list_empty
list_init-IsRing head l =
    (((rw (==_refl head) refl, rw (==_refl head) refl), tt, tt), rw (==_refl head) (==_refl head))

-- A node outside the ring is made a ring of its own.
pub list_init_other :
    (node head : ℕ) (xs : List ℕ) (l : Links)
    → IsRing l head xs
    → NotIn node (head ∷ xs)
    → IsRing (list_init node l) head xs
unfolding list_init
list_init_other node head xs l (chain, no_head, apart) away = (
  Chain-frame l (list_init node l) node node node (λ c ne ne'. ground (arith, ne))
      (λ c ne ne'. ground (arith, ne)) head xs head chain away away
      (NotIn-append node xs (head ∷ []) away.1 (away.0, tt))
      (NotIn-append node xs (head ∷ []) away.1 (away.0, tt)),
  no_head,
  apart,
)

-- `list_add_tail` puts a node that is not in the ring behind the others.
pub list_add_tail_lem :
    (node head : ℕ) (xs : List ℕ) (l : Links)
    → IsRing l head xs
    → NotIn node (head ∷ xs)
    → IsRing (list_add_tail node head l) head (xs ++ (node ∷ []))
unfolding list_add_tail
list_add_tail_lem node head xs l (chain, no_head, apart) away =
    let l' : Links = list_add_tail node head l in
    let p : ℕ = l.prev head in
    let p_ne : p ≢ node = λ e.
      (last-NotIn l head xs head (node ∷ []) chain ((λ d. away.0 (sym d)), tt)
          (Distinct-snoc xs node apart away.1)).0
        e in
    let same_next : (c : ℕ) → c ≢ p → c ≢ node → l'.next c ≡ l.next c =
      λ c ne ne'. ground (arith, ne, ne') in
    let same_prev : (c : ℕ) → c ≢ head → c ≢ node → l'.prev c ≡ l.prev c =
      λ c ne ne'. ground (arith, ne, ne') in
    let at_p : l'.next p ≡ node = ground (arith, p_ne) in
    let at_node : l'.prev node ≡ p = ground (arith, away.0) in
    let left =
      relink_end l l' p head node same_next same_prev head xs head node chain refl at_p at_node
        (no_head, apart) away no_head in
    let right : Chain l' node [] head = (ground arith, ground arith) in
    (
      Chain-join l' head xs node [] head left right,
      NotIn-append head xs (node ∷ []) no_head ((λ e. away.0 (sym e)), tt),
      Distinct-snoc xs node apart away.1,
    )

-- `list_add` puts a node that is not in the ring in front of the others.
pub list_add_lem :
    (node head : ℕ) (xs : List ℕ) (l : Links)
    → IsRing l head xs
    → NotIn node (head ∷ xs)
    → IsRing (list_add node head l) head (node ∷ xs)
unfolding list_add
list_add_lem node head [] l ((to, from), no_head, apart) away = (
  (
    ground (arith, away.0),
    ground (arith, away.0),
    (ground (arith, away.0, to), ground (arith, away.0, to)),
  ),
  ((λ e. away.0 (sym e)), tt),
  (tt, tt),
)
list_add_lem node head (x ∷ xs) l ((to, from, chain), no_head, apart) away =
    let l' : Links = list_add node head l in
    let same_next : (c : ℕ) → c ≢ head → c ≢ node → l'.next c ≡ l.next c =
      λ c ne ne'. ground (arith, ne, ne') in
    let same_prev : (c : ℕ) → c ≢ x → c ≢ node → l'.prev c ≡ l.prev c =
      λ c ne ne'. ground (arith, ne, ne', to) in
    let rest =
      Chain-frame l l' head x node same_next same_prev x xs head chain no_head away.1
        (NotIn-append x xs (head ∷ []) apart.0 ((λ e. no_head.0 (sym e)), tt))
        (NotIn-append node xs (head ∷ []) away.1.1 (away.0, tt)) in
    (
      (
        ground (arith, away.0),
        ground (arith, away.0),
        (ground (arith, away.0, to), ground (arith, away.0, to, away.1.0), rest),
      ),
      ((λ e. away.0 (sym e)), no_head),
      (away.1, apart),
    )

-- The node behind `node`, and the one before it.
del_next :
    (node head : ℕ) (xs ys : List ℕ) (l : Links)
    → IsRing l head (xs ++ (node ∷ ys))
    → (c : ℕ) → (list_del node l).next c ≡ (if l.prev node == c then l.next node else l.next c)
unfolding list_del
del_next node head xs ys l (chain, no_head, apart) c =
    let (left, right) = Chain-split l head xs node ys head chain in
    let (no_xs, no_ys, rest) = Distinct-middle xs node ys apart in
    let other : l.next node ≢ node = first_ne ys right no_ys in ground (arith, other)
  where
    first_ne : (zs : List ℕ) → Chain l node zs head → NotIn node zs → l.next node ≢ node
    first_ne [] r away e = (NotIn-append_right head xs (node ∷ ys) no_head).0 (sym (r.0) ∙ e)
    first_ne (z ∷ zs) r away e = away.0 (sym e ∙ r.0)

del_prev :
    (node : ℕ) (l : Links) (c : ℕ)
    → (list_del node l).prev c ≡ (if l.next node == c then l.prev node else l.prev c)
unfolding list_del
del_prev node l c = refl

-- `list_del` takes a node out of the ring and leaves the others in their order.
pub list_del_lem :
    (node head : ℕ) (xs ys : List ℕ) (l : Links)
    → IsRing l head (xs ++ (node ∷ ys))
    → IsRing (list_del node l) head (xs ++ ys)
list_del_lem node head xs [] l (chain, no_head, apart) =
    let l' : Links = list_del node l in
    let (left, right) = Chain-split l head xs node [] head chain in
    let (no_xs, no_ys, rest) = Distinct-middle xs node [] apart in
    let next_at = del_next node head xs [] l (chain, no_head, apart) in
    let head_xs = NotIn-append_left head xs (node ∷ []) no_head in
    let p : ℕ = l.prev node in
    let ring =
      relink_end l l' p head node (λ c ne ne'. next_at c ∙ ground (arith, ne))
        (λ c ne ne'. del_prev node l c ∙ ground (arith, ne, right.0)) head xs node head left refl
        (next_at p ∙ ground (arith, right.0)) (del_prev node l head ∙ ground (arith, right.0))
        (head_xs, Distinct-append_left xs (node ∷ []) apart)
        ((λ e. (NotIn-append_right head xs (node ∷ []) no_head).0 (sym e)), no_xs) head_xs in
    rw (append_nil xs) (ring, head_xs, Distinct-append_left xs (node ∷ []) apart)
list_del_lem node head xs (y ∷ ys) l (chain, no_head, apart) =
    let l' : Links = list_del node l in
    let (left, right) = Chain-split l head xs node (y ∷ ys) head chain in
    let (no_xs, no_ys, rest) = Distinct-middle xs node (y ∷ ys) apart in
    let (y_xs, y_ys, rest') = Distinct-middle xs y ys rest in
    let next_at = del_next node head xs (y ∷ ys) l (chain, no_head, apart) in
    let head_xs = NotIn-append_left head xs (node ∷ y ∷ ys) no_head in
    let head_after = NotIn-append_right head xs (node ∷ y ∷ ys) no_head in
    let p : ℕ = l.prev node in
    let same_next : (c : ℕ) → c ≢ p → c ≢ node → l'.next c ≡ l.next c =
      λ c ne ne'. next_at c ∙ ground (arith, ne) in
    let same_prev : (c : ℕ) → c ≢ y → c ≢ node → l'.prev c ≡ l.prev c =
      λ c ne ne'. del_prev node l c ∙ ground (arith, ne, right.0) in
    let before =
      relink_end l l' p y node same_next same_prev head xs node y left refl
        (next_at p ∙ ground (arith, right.0)) (del_prev node l y ∙ ground (arith, right.0))
        (head_xs, Distinct-append_left xs (node ∷ y ∷ ys) apart)
        ((λ e. head_after.0 (sym e)), no_xs) y_xs in
    let after =
      Chain-frame l l' p y node same_next same_prev y ys head right.2
        (last-NotIn l head xs node (y ∷ ys) left head_after.1 rest) no_ys
        (NotIn-append y ys (head ∷ []) y_ys ((λ e. head_after.1.0 (sym e)), tt))
        (NotIn-append node ys (head ∷ []) no_ys.1 ((λ e. head_after.0 (sym e)), tt)) in
    (
      Chain-join l' head xs y ys head before after,
      NotIn-append head xs (y ∷ ys) head_xs head_after.1,
      rest,
    )
