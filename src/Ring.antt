-- ===== src/Ring.antt =====
-- src/list.h, src/rculist.h: circular doubly linked lists threaded through the nodes of their
-- elements. An address names a node; a list is named by the address of its head node.
mod Examples
pub mod Chain
pub mod Distinct
pub mod Laws
pub mod Rcu
pub mod Splice
use libside.Common.{
  ℕ, zero, suc, Bool, Option, none, some, List, [], ◌∷◌, ◌==◌, if◌then◌else◌, update,
}

-- `struct side_list_node` at each address.
pub record Links : Type 0 where
  pub next : ℕ → ℕ
  pub prev : ℕ → ℕ

abbrev set_next : ℕ → ℕ → Links → Links
set_next a v h = record h { next = update h.next a v }

abbrev set_prev : ℕ → ℕ → Links → Links
set_prev a v h = record h { prev = update h.prev a v }

pub head_init : ℕ → Links → Links
head_init head h = set_next head head (set_prev head head h)

pub insert_node_tail : (head node : ℕ) → Links → Links
insert_node_tail head node h =
    let h1 = set_next node head h in
    let h2 = set_prev node (h1.prev head) h1 in
    let h3 = set_next (h2.prev node) node h2 in set_prev head node h3

pub insert_node_head : (head node : ℕ) → Links → Links
insert_node_head head node h =
    let h1 = set_next node (h.next head) h in
    let h2 = set_prev node head h1 in
    let h3 = set_prev (h2.next node) node h2 in set_next head node h3

pub remove_node : ℕ → Links → Links
remove_node node h =
    let h1 = set_prev (h.next node) (h.prev node) h in set_next (h1.prev node) (h1.next node) h1

pub is_empty : ℕ → Links → Bool
is_empty head h = head == h.next head

-- "from" is put at the beginning of "to".
pub splice : (from to : ℕ) → Links → Links
unfolding is_empty
splice from to h =
    if is_empty from h
    then h
    else (let h1 = set_prev (h.next from) to h in
        let h2 = set_next (h1.prev from) (h1.next to) h1 in
        let h3 = set_prev (h2.next to) (h2.prev from) h2 in set_next to (h3.next from) h3)

-- `side_list_for_each_entry`: the nodes in the order in which the loop visits them; `none` when the
-- fuel runs out.
pub visit_from : ℕ → (head node : ℕ) → Links → Option (List ℕ)
visit_from zero head node h = none
visit_from (suc k) head node h =
    let rest = visit_from k head (h.next node) h in
    if node == head then some [] else elim rest [ none ↦ none | some xs ↦ some (node ∷ xs) ]

pub for_each_entry : ℕ → (head : ℕ) → Links → Option (List ℕ)
unfolding visit_from
for_each_entry k head h = visit_from k head (h.next head) h

-- The RCU variants publish the same links in another order.
pub insert_node_tail_rcu : (head node : ℕ) → Links → Links
insert_node_tail_rcu head node h =
    let h1 = set_next node head h in
    let h2 = set_prev node (h1.prev head) h1 in
    let h3 = set_prev head node h2 in set_next (h3.prev node) node h3

pub insert_node_head_rcu : (head node : ℕ) → Links → Links
insert_node_head_rcu head node h =
    let h1 = set_next node (h.next head) h in
    let h2 = set_prev node head h1 in
    let h3 = set_prev (h2.next node) node h2 in set_next head node h3

pub remove_node_rcu : ℕ → Links → Links
remove_node_rcu node h =
    let h1 = set_prev (h.next node) (h.prev node) h in set_next (h1.prev node) (h1.next node) h1
