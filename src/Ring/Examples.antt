-- ===== src/Ring/Examples.antt =====
-- The operations of src/list.h and src/rculist.h on rings of a few nodes.
use libside.Common.{◌≡◌, refl, [], ◌∷◌, some, arith}
use libside.Ring.{
  Links, head_init, insert_node_tail, remove_node, splice, visit_from, for_each_entry,
  remove_node_rcu,
}
use libside.Ring.Chain.{IsRing}
use libside.Ring.Laws.{
  head_init-IsRing, insert_node_tail-IsRing, remove_node-IsRing, for_each_entry-IsRing,
}
use libside.Ring.Splice.{splice-IsRing}
use libside.Ring.Rcu.{remove_node_rcu-reader}

abbrev blank : Links
blank = record { next = λ a. a; prev = λ a. a }

abbrev no_nodes : Links
no_nodes = head_init 0 blank

abbrev one_node : Links
one_node = insert_node_tail 0 1 no_nodes

abbrev two_nodes : Links
two_nodes = insert_node_tail 0 2 one_node

one_node-IsRing : IsRing one_node 0 (1 ∷ [])
one_node-IsRing = insert_node_tail-IsRing no_nodes 0 [] (head_init-IsRing blank 0) 1 refl

two_nodes-IsRing : IsRing two_nodes 0 (1 ∷ 2 ∷ [])
two_nodes-IsRing = insert_node_tail-IsRing one_node 0 (1 ∷ []) one_node-IsRing 2 refl

-- A second ring, around 10, beside the one around 0.
abbrev two_rings : Links
two_rings = insert_node_tail 10 11 (head_init 10 one_node)

two_rings-IsRing_first : IsRing two_rings 0 (1 ∷ [])
unfolding insert_node_tail head_init
two_rings-IsRing_first = record {
  chain = (refl, refl, (refl, refl));
  distinct = (refl, tt);
  apart = refl;
}

two_rings-IsRing_second : IsRing two_rings 10 (11 ∷ [])
two_rings-IsRing_second =
    insert_node_tail-IsRing (head_init 10 one_node) 10 [] (head_init-IsRing one_node 10) 11 refl

remove_node-IsRing_example : IsRing (remove_node 1 two_nodes) 0 (2 ∷ [])
remove_node-IsRing_example = remove_node-IsRing two_nodes 0 [] 1 (2 ∷ []) two_nodes-IsRing

for_each_entry-IsRing_example : for_each_entry 3 0 two_nodes ≡ some (1 ∷ 2 ∷ [])
for_each_entry-IsRing_example =
    for_each_entry-IsRing 3 two_nodes 0 (1 ∷ 2 ∷ []) two_nodes-IsRing (omega arith)

splice-IsRing_example : IsRing (splice 0 10 two_rings) 10 (1 ∷ 11 ∷ [])
splice-IsRing_example =
    splice-IsRing two_rings 0 10 (1 ∷ []) (11 ∷ []) two_rings-IsRing_first two_rings-IsRing_second
      (omega arith) refl (λ a m. ground arith)

remove_node_rcu-reader_example :
    IsRing (remove_node_rcu 1 two_nodes) 0 (2 ∷ [])
    × (visit_from 2 0 ((remove_node_rcu 1 two_nodes).next 1) (remove_node_rcu 1 two_nodes)
        ≡ some (2 ∷ []))
remove_node_rcu-reader_example =
    remove_node_rcu-reader 2 two_nodes 0 [] 1 (2 ∷ []) two_nodes-IsRing (omega arith)
