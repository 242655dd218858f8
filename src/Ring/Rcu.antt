-- ===== src/Ring/Rcu.antt =====
-- The RCU variants of src/rculist.h: the links once the writes are done, and what a reader sees who
-- stands on a node that is being removed.
use mathlib.Core.Path.{fun_ext}
use mathlib.Core.Logic.{◌≢◌}
use libside.Common.{ℕ, suc, zero, ◌<◌, ◌≡◌, true, false, some, List, [], ◌∷◌, ◌++◌, arith, length}
use libside.Ring.{
  Links, insert_node_tail, insert_node_tail_rcu, remove_node, remove_node_rcu, visit_from,
}
use libside.Ring.Chain.{has, Chain, IsRing, Chain-split, has-prev}
use libside.Ring.Distinct.{has-append, AllDistinct-apart, AllDistinct-parts}
use libside.Ring.Laws.{insert_node_tail-IsRing, remove_node-IsRing}

insert_node_tail_rcu-eq :
    (h : Links) (head node : ℕ)
    → node ≢ head
    → insert_node_tail_rcu head node h ≡ insert_node_tail head node h
unfolding insert_node_tail_rcu insert_node_tail
insert_node_tail_rcu-eq h head node ne = λ i. record { next = next_eq i; prev = prev_eq i }
  where
    next_eq : (insert_node_tail_rcu head node h).next ≡ (insert_node_tail head node h).next
    next_eq = fun_ext λ a. ground arith

    prev_eq : (insert_node_tail_rcu head node h).prev ≡ (insert_node_tail head node h).prev
    prev_eq = fun_ext λ a. ground arith

-- The RCU insertion of a node that is neither in the ring nor its head puts it behind the last node.
pub insert_node_tail_rcu-IsRing :
    (h : Links) (head : ℕ) (xs : List ℕ)
    → IsRing h head xs
    → (node : ℕ) → has node (head ∷ xs) ≡ false
    → IsRing (insert_node_tail_rcu head node h) head (xs ++ node ∷ [])
insert_node_tail_rcu-IsRing h head xs is node out =
    rw (insert_node_tail_rcu-eq h head node (λ e. ground arith))
      (insert_node_tail-IsRing h head xs is node out)

-- Forward links alone, as a reader follows them.
abbrev Forward : Links → ℕ → List ℕ → ℕ → Type 0
Forward h p [] q = h.next p ≡ q
Forward h p (x ∷ xs) q = (h.next p ≡ x) × Forward h x xs q

Forward-frame :
    (h g : Links) (p : ℕ) (xs : List ℕ) (q : ℕ)
    → Chain h p xs q
    → ((a : ℕ) → has a (p ∷ xs) ≡ true → g.next a ≡ h.next a)
    → Forward g p xs q
Forward-frame h g p [] q c n = ground (arith, n p)
Forward-frame h g p (x ∷ xs) q c n =
    (ground (arith, n p), Forward-frame h g x xs q c.2 (λ a m. n a (ground arith)))

visit_from-Forward :
    (k : ℕ) (h : Links) (head p : ℕ) (xs : List ℕ)
    → Forward h p xs head
    → has head xs ≡ false
    → length xs < k
    → visit_from k head (h.next p) h ≡ some xs
unfolding visit_from
visit_from-Forward zero h head p xs c o f = absurd (omega arith)
visit_from-Forward (suc k) h head p [] c o f = ground arith
visit_from-Forward (suc k) h head p (x ∷ xs) c o f =
    ground (arith, visit_from-Forward k h head x xs c.1)

-- After a node is removed, the others are left in order; and a reader who still stands on the node
-- goes on through the nodes that were behind it, to the end of the ring.
pub remove_node_rcu-reader :
    (k : ℕ) (h : Links) (head : ℕ) (xs : List ℕ) (node : ℕ) (ys : List ℕ)
    → IsRing h head (xs ++ node ∷ ys)
    → length ys < k
    → IsRing (remove_node_rcu node h) head (xs ++ ys)
      × (visit_from k head ((remove_node_rcu node h).next node) (remove_node_rcu node h) ≡ some ys)
unfolding remove_node_rcu remove_node
remove_node_rcu-reader k h head xs node ys is f =
    let (before, behind) = Chain-split h head xs node ys head is.chain in
    let (d, e, out, skip) = AllDistinct-parts xs node ys is.distinct in
    (
      remove_node-IsRing h head xs node ys is,
      visit_from-Forward k _ head node ys
          (Forward-frame h (remove_node_rcu node h) node ys head behind λ a m. ground (
            arith,
            has-prev h head xs node before,
            is.apart,
            has-append head xs (node ∷ ys),
            AllDistinct-apart xs (node ∷ ys) (h.prev node) is.distinct,
          ))
          (ground (arith, is.apart, has-append head xs (node ∷ ys))) f,
    )
