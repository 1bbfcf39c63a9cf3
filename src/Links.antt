-- ===== src/Links.antt =====
-- include/list.h: rings of nodes, each linked to the next and the one before it. A node is its
-- address, and `Links` holds what the nodes hold.
pub mod Edit
pub mod Ring
mod Tests
use cute_core.Base.{ℕ, Bool, ◌==◌, if◌then◌else◌}

pub record Links : Type 0 where
  pub next : ℕ → ℕ
  pub prev : ℕ → ℕ

-- `node->next = v`, and `node->prev = v`
abbrev pub set_next : ℕ → ℕ → Links → Links
set_next node v l = record l { next = λ a. if node == a then v else l.next a }

abbrev pub set_prev : ℕ → ℕ → Links → Links
set_prev node v l = record l { prev = λ a. if node == a then v else l.prev a }

unfoldable pub list_init : ℕ → Links → Links
list_init list l = set_prev list list (set_next list list l)

unfoldable pub list_add : ℕ → ℕ → Links → Links
list_add node head l =
    let l1 = set_prev (l.next head) node l in
    let l2 = set_next node (l1.next head) l1 in
    let l3 = set_prev node head l2 in set_next head node l3

unfoldable pub list_add_tail : ℕ → ℕ → Links → Links
list_add_tail node head l =
    let l1 = set_next (l.prev head) node l in
    let l2 = set_next node head l1 in
    let l3 = set_prev node (l2.prev head) l2 in set_prev head node l3

unfoldable pub list_del : ℕ → Links → Links
list_del node l =
    let l1 = set_prev (l.next node) (l.prev node) l in set_next (l1.prev node) (l1.next node) l1

unfoldable pub list_empty : ℕ → Links → Bool
list_empty head l = l.next head == head

unfoldable pub list_first : ℕ → Links → ℕ
list_first head l = l.next head

unfoldable pub list_last : ℕ → Links → ℕ
list_last head l = l.prev head
