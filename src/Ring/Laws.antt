-- ===== src/Ring/Laws.antt =====
-- The operations of src/list.h on rings whose contents are known.
use libside.Common.{
  ℕ, ◌<◌, zero, suc, ◌≡◌, refl, Bool, true, false, some, List, [], ◌∷◌, ◌++◌, ◌==◌, arith, length,
}
use libside.Ring.{
  Links, head_init, insert_node_tail, insert_node_head, remove_node, is_empty, visit_from,
  for_each_entry,
}
use libside.Ring.Chain.{
  has, Chain, AllDistinct, IsRing, Chain-frame, has-prev, has-next, Chain-retarget, Chain-resource,
  Chain-snoc, Chain-split,
}
use libside.Ring.Distinct.{has-append, AllDistinct-snoc, AllDistinct-remove}

pub head_init-IsRing : (h : Links) (head : ℕ) → IsRing (head_init head h) head []
unfolding head_init
head_init-IsRing h head = record { chain = ground arith; distinct = tt; apart = refl }

abbrev pub is_nil : List ℕ → Bool
is_nil [] = true
is_nil (x ∷ xs) = false

module _ (h : Links) (head : ℕ) (xs : List ℕ) (is : IsRing h head xs) where
  open is use {chain, distinct, apart}

  insert_tail-Chain :
      (node : ℕ)
      → has node (head ∷ xs) ≡ false
      → Chain (insert_node_tail head node h) head (xs ++ node ∷ []) head
  unfolding insert_node_tail
  insert_tail-Chain node out =
      let last = has-prev h head xs head chain in
      Chain-snoc _ head xs node head
        (Chain-retarget h (insert_node_tail head node h) head xs head node chain (apart, distinct)
          (λ a m ne. ground arith) (ground arith) (λ a m. ground arith) (ground arith))
        (ground arith) (ground arith)

  -- A node that is neither in a ring nor its head is put behind the last node of the ring.
  pub insert_node_tail-IsRing :
      (node : ℕ)
      → has node (head ∷ xs) ≡ false
      → IsRing (insert_node_tail head node h) head (xs ++ node ∷ [])
  insert_node_tail-IsRing node out = record {
    chain = insert_tail-Chain node out;
    distinct = AllDistinct-snoc xs node distinct (ground arith);
    apart = ground (arith, has-append head xs (node ∷ []));
  }

  -- A node that is neither in a ring nor its head is put before the first node of the ring.
  pub insert_node_head-IsRing :
      (node : ℕ)
      → has node (head ∷ xs) ≡ false
      → IsRing (insert_node_head head node h) head (node ∷ xs)
  unfolding insert_node_head
  insert_node_head-IsRing node out =
      let first = has-next h head xs head chain in
      record {
        chain = (
          ground arith,
          ground arith,
          Chain-resource h (insert_node_head head node h) head xs head node chain distinct apart
              (λ a m. ground arith) (ground arith) (λ a m ne. ground arith) (ground arith),
        );
        distinct = (ground arith, distinct);
        apart = ground arith;
      }

  -- On a ring, the test for emptiness is true exactly if the ring has no nodes.
  pub is_empty-is_nil : is_empty head h ≡ is_nil xs
  unfolding is_empty
  is_empty-is_nil = nil_test xs chain apart
    where
      nil_test :
          (ys : List ℕ)
          → Chain h head ys head
          → has head ys ≡ false
          → (head == h.next head) ≡ is_nil ys
      nil_test [] c o = ground arith
      nil_test (y ∷ ys) c o = ground arith

-- What the writes of a removal leave of a chain through the removed node.
remove-Chain :
    (h : Links) (p : ℕ) (xs : List ℕ) (node : ℕ) (ys : List ℕ) (q : ℕ)
    → Chain h p (xs ++ node ∷ ys) q
    → AllDistinct (p ∷ xs ++ node ∷ ys)
    → has q (xs ++ node ∷ ys) ≡ false
    → Chain (remove_node node h) p (xs ++ ys) q
unfolding remove_node
remove-Chain h p [] node [] q c d o = (ground arith, ground arith)
remove-Chain h p [] node (y ∷ ys) q c d o = (
  ground arith,
  ground arith,
  Chain-frame h (remove_node node h) y ys q c.2.2 (λ a m. ground arith) (λ a m. ground arith),
)
remove-Chain h p (x ∷ xs) node ys q c d o =
    let (before, behind) = Chain-split h x xs node ys q c.2 in
    let back = has-prev h x xs node before in
    let forth = has-next h node ys q behind in
    (
      ground (arith, has-append p xs (node ∷ ys), has-append (h.prev node) xs (node ∷ ys)),
      ground (arith, has-append x xs (node ∷ ys)),
      remove-Chain h x xs node ys q c.2 d.1 (ground arith),
    )

-- A node is taken out of its ring, and the others stay in order.
pub remove_node-IsRing :
    (h : Links) (head : ℕ) (xs : List ℕ) (node : ℕ) (ys : List ℕ)
    → IsRing h head (xs ++ node ∷ ys)
    → IsRing (remove_node node h) head (xs ++ ys)
remove_node-IsRing h head xs node ys is = record {
  chain = remove-Chain h head xs node ys head is.chain (is.apart, is.distinct) is.apart;
  distinct = AllDistinct-remove xs node ys is.distinct;
  apart = ground (arith, is.apart, has-append head xs (node ∷ ys), has-append head xs ys);
}

-- Enough fuel is one round more than there are nodes.
visit_from-Chain :
    (k : ℕ) (h : Links) (head p : ℕ) (xs : List ℕ)
    → Chain h p xs head
    → has head xs ≡ false
    → length xs < k
    → visit_from k head (h.next p) h ≡ some xs
unfolding visit_from
visit_from-Chain zero h head p xs c o f = absurd (omega arith)
visit_from-Chain (suc k) h head p [] c o f = ground arith
visit_from-Chain (suc k) h head p (x ∷ xs) c o f =
    ground (arith, visit_from-Chain k h head x xs c.2)

-- The loop over a ring visits its nodes, each once and in order, and then ends: more steps than there
-- are nodes are enough.
pub for_each_entry-IsRing :
    (k : ℕ) (h : Links) (head : ℕ) (xs : List ℕ)
    → IsRing h head xs
    → length xs < k
    → for_each_entry k head h ≡ some xs
unfolding for_each_entry
for_each_entry-IsRing k h head xs is f = visit_from-Chain k h head head xs is.chain is.apart f
