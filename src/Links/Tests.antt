-- ===== src/Links/Tests.antt =====
-- The theorems of the rings at a ring of one node.
use cute_core.Base.{refl, [], ◌∷◌, arith, ◌==◌, if◌then◌else◌}
use cute_core.Links.{Links, list_del}
use cute_core.Links.Ring.{IsRing}
use cute_core.Links.Edit.{list_del_lem}

abbrev blank : Links
blank = record { next = λ _. 0; prev = λ _. 0 }

-- the ring of 8 with the node 16
abbrev ring : Links
ring = record { next = λ a. if a == 8 then 16 else 8; prev = λ a. if a == 8 then 16 else 8 }

ring-IsRing : IsRing ring 8 (16 ∷ [])
ring-IsRing = ((refl, refl, (refl, refl)), ((λ e. omega (arith, e)), tt), (tt, tt))

list_del_lem_example : IsRing (list_del 16 ring) 8 []
list_del_lem_example = list_del_lem 16 8 [] [] ring ring-IsRing
